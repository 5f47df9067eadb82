-- ===== src/Server/Heartbeat.antt =====
-- One round of the heartbeat thread (startHeartbeats of server/server.go). The random choice of
-- recipients, `rand.Perm(len(serverMap))`, is the parameter `perm`.
pub mod Detector
pub mod Chosen
pub mod Recipients
pub mod Sent
use psk_db.Prelude.{
  ℕ, zero, suc, ◌+◌, ◌-◌, ◌/◌, ℤ, pos, negsuc, String, Bool, true, false, Option, none, some, List,
  [], ◌∷◌, ◌++◌, ltb, leb, eqb, eqb_ℤ, ◌+ℤ◌, length, get_elem?, if◌then◌else◌,
}
use psk_db.Dict.{Dict}
use psk_db.Timestamp.{one, max_int}
use psk_db.Server.State.{
  Time, ServerInfo, heartbeat_notification as heartbeat_notification_call, Call, Action, Server,
}
use psk_db.Server.Connect.{Dial, connect, send}
use psk_db.Server.Membership.{values}

-- GOSSIP_HEARTBEAT_FANOUT
abbrev pub fanout : ℕ
fanout = 2

-- GOSSIP_HEARTBEAT_TIMEOUT, in milliseconds
abbrev pub timeout : ℕ
timeout = 1000

-- ++ on an int64
unfoldable pub increment : ℤ → ℤ
increment n = if eqb_ℤ n (pos max_int) then negsuc max_int else n +ℤ pos 1

-- time.Since(timestamp).Nanoseconds() / 1E6
abbrev pub elapsed : Time → Time → ℕ
elapsed now timestamp = (now - timestamp) / 1_000_000

-- The failure detection for one member: `none` deletes it.
unfoldable pub check_member : Time → ServerInfo → Option ServerInfo
check_member now member =
    if ltb timeout (elapsed now member.timestamp)
    then (if member.alive
        then some (record member { alive = false; suspicion = true; timestamp = now })
        else if member.suspicion
        then none
        else some member)
    else some member

abbrev pub keep_member : String → Option ServerInfo → Dict ServerInfo → Dict ServerInfo
keep_member id none members = members
keep_member id (some member) members = (id, member) ∷ members

-- The loop over serverMap that looks for timeouts.
unfoldable pub check_members : Time → Dict ServerInfo → Dict ServerInfo
unfolding check_member
check_members now [] = []
check_members now ((id, member) ∷ members) =
    keep_member id (check_member now member) (check_members now members)

-- list[:n]
unfoldable pub take : ℕ → List ℕ → List ℕ
take zero list = []
take (suc n) [] = []
take (suc n) (x ∷ list) = x ∷ take n list

-- sort.Ints
unfoldable pub insert_sorted : ℕ → List ℕ → List ℕ
insert_sorted x [] = x ∷ []
insert_sorted x (y ∷ list) = if leb x y then x ∷ y ∷ list else y ∷ insert_sorted x list

unfoldable pub sort_ints : List ℕ → List ℕ
unfolding insert_sorted
sort_ints [] = []
sort_ints (x ∷ list) = insert_sorted x (sort_ints list)

abbrev pub num_recipients : ℕ → ℕ
num_recipients members = if ltb members fanout then members else fanout

-- The recipients of this round, as positions in the loop over serverMap.
unfoldable pub recipients : (ℕ → List ℕ) → ℕ → List ℕ
unfolding take sort_ints
recipients perm members = sort_ints (take (num_recipients members) (perm members))

abbrev pub prepend :
    String
    → ServerInfo
    → List Action
    → Option (Dict ServerInfo × List Action)
    → Option (Dict ServerInfo × List Action)
prepend id member actions none = none
prepend id member actions (some (members, later)) = some ((id, member) ∷ members, actions ++ later)

-- The loop that sends the heartbeats; `none` is the panic on an index out of range.
unfoldable pub gossip :
    Dial
    → Dict Bool
    → Call
    → List ℕ
    → ℕ
    → ℕ
    → Dict ServerInfo
    → Option (Dict ServerInfo × List Action)
unfolding connect
gossip dial blacklist_map call perm pidx kidx [] = some ([], [])
gossip dial blacklist_map call perm pidx kidx ((id, member) ∷ members) =
    let chosen = gossip dial blacklist_map call perm (pidx + 1) (kidx + 1) members in
    let skipped = gossip dial blacklist_map call perm pidx (kidx + 1) members in
    if leb fanout pidx then some ((id, member) ∷ members, []) else elim (get_elem? perm pidx) [
      | none ↦ none
      | some position ↦
          if eqb position kidx
          then (let connected = connect dial blacklist_map member in
              prepend id connected (send call connected []) chosen)
          else prepend id member [] skipped
    ]

-- The server after the loop.
abbrev pub finish_round :
    ServerInfo → Server → Option (Dict ServerInfo × List Action) → Option (Server × List Action)
finish_round info s none = none
finish_round info s (some (told, actions)) =
    some (record s { curr_server_info = info; server_map = told }, actions)

-- The clock and the sequence number move, the members are checked, the heartbeats leave.
unfoldable pub heartbeat_round : Dial → Time → (ℕ → List ℕ) → Server → Option (Server × List Action)
unfolding gossip check_members recipients increment
heartbeat_round dial now perm s =
    let info = record s.curr_server_info {
      heartbeat_seqnum = increment s.curr_server_info.heartbeat_seqnum;
      lamport_timestamp = s.curr_server_info.lamport_timestamp +ℤ one;
    } in
    let members = check_members now s.server_map in
    let call =
      heartbeat_notification_call
        (record { id = info.id; server_info_list = info ∷ values members }) in
    finish_round info s
      (gossip dial s.blacklist_map call (recipients perm (length members)) 0 0 members)
