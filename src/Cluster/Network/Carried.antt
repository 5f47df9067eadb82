-- ===== src/Cluster/Network/Carried.antt =====
-- What the calls between servers carry of the writes of PutKVServer (server/).
use psk_db.Prelude.{
  ℕ, String, Bool, refl, sym, subst, Option, none, some, List, [], ◌∷◌, All, All-map, All-append,
  In, inl, inr, Option-cases, if_rule, ◌==◌, ◌+ℤ◌, length,
}
use psk_db.Dict.{Dict, lookup, delete}
use psk_db.Timestamp.{one}
use psk_db.Common.{Conn, CallError}
use psk_db.Server.State.{
  Time, ServerInfo, Call, Action, sent, closed, Server, JoinClusterAsServerRequest,
  new_server_info_heap, new_server_notification as new_server_notification_call,
  heartbeat_notification as heartbeat_notification_call,
  kill_server_notification as kill_server_notification_call,
  process_remote_write as process_remote_write_call,
}
use psk_db.Server.Connect.{Dial, connect, get_rpc_connection, send, broadcast}
use psk_db.Server.Store.{put_entry, put_kv_server}
use psk_db.Server.Membership.{
  JoinReply, joining, values, close, join_cluster_as_server, kill_server_notification,
}
use psk_db.Server.Links.{say_goodbye, create_connection, break_connection, kill_server}
use psk_db.Server.Heartbeat.{
  increment, check_members, recipients, gossip, finish_round, heartbeat_round,
}
use psk_db.Server.Heartbeat.Sent.{Makes, AllMake, gossip-AllMake}
use psk_db.Server.Stabilize.{stabilize_send}
use psk_db.Server.Replica.{seen}
use psk_db.Server.Invariant.StoreEntries.{Entries-Distinct}
use psk_db.Server.Invariant.Defs.{IsValid}
use psk_db.Cluster.Copies.{lookup-copy, copy-Entries}
use psk_db.Server.Step.{Event, joins, killed, create, break, kill, put, stabilizes, round}
use psk_db.Cluster.Network.{Puts, wrote, actions_of, round_actions}
use psk_db.Cluster.Network.Written.{Holds, AllWritten, Carries}

made-All {κ} :
    (P : Action → Type κ) (call : Call) (told : Option (Dict ServerInfo × List Action))
    → ((id : String) (c : Conn) → P (sent id c call))
    → AllMake call told
    → All P (round_actions told)
made-All P call none h k = tt
made-All P call (some (members, actions)) h k =
    All-map (Makes call) P actions (λ action m. subst P (sym m.2) (h m.0 m.1)) k

goodbye-All {κ} :
    (P : Action → Type κ) (id : String) (call : Call) (o : Option Conn) (later : List Action)
    → ((c : Conn) → P (sent id c call))
    → ((c : Conn) → P (closed c))
    → All P later
    → All P (elim o [ none ↦ later | some c ↦ sent id c call ∷ closed c ∷ later ])
goodbye-All P id call none later h k l = l
goodbye-All P id call (some c) later h k l = (h c, (k c, l))

module _ {κ} (P : Action → Type κ) (dial : Dial) (blacklist : Dict Bool) (call : Call)
    (h : (id : String) (c : Conn) → P (sent id c call)) where
  send-All :
      (member : ServerInfo) (later : List Action) → All P later → All P (send call member later)
  send-All member later k = elim (Option-cases member.rpc_client) [
    | inl e ↦ rw e k
    | inr (c, e) ↦ rw e (h member.id c, k)
  ]

  broadcast-All : (members : Dict ServerInfo) → All P (broadcast dial blacklist call members).1
  unfolding broadcast
  broadcast-All [] = tt
  broadcast-All ((i, m) ∷ members) =
      send-All (connect dial blacklist m) (broadcast dial blacklist call members).1
        (broadcast-All members)

  gossip-All :
      (perm : List ℕ) (pidx kidx : ℕ) (members : Dict ServerInfo)
      → All P (round_actions (gossip dial blacklist call perm pidx kidx members))
  gossip-All perm pidx kidx members =
      made-All P call (gossip dial blacklist call perm pidx kidx members) h
        (gossip-AllMake dial blacklist call perm pidx kidx members)

  say_goodbye-All :
      (members : Dict ServerInfo)
      → ((c : Conn) → P (closed c))
      → All P (say_goodbye dial blacklist call members).1
  unfolding say_goodbye
  say_goodbye-All [] k = tt
  say_goodbye-All ((i, m) ∷ members) k =
      goodbye-All P m.id call (connect dial blacklist m).rpc_client _ (h m.id) k
        (say_goodbye-All members k)

close-Carries : (puts : Puts) (o : Option Conn) → All (Carries puts) (close o)
close-Carries puts none = tt
close-Carries puts (some c) = (tt, tt)

close_member-Carries :
    (puts : Puts) (o : Option ServerInfo)
    → All (Carries puts) (elim o [ none ↦ [] | some member ↦ close member.rpc_client ])
close_member-Carries puts none = tt
close_member-Carries puts (some member) = close-Carries puts member.rpc_client

introduce-Carries :
    (puts : Puts) (id : String) (call : Call) (o : Option Conn)
    → ((c : Conn) → Carries puts (sent id c call))
    → All (Carries puts) (elim o [ none ↦ [] | some c ↦ sent id c call ∷ closed c ∷ [] ])
introduce-Carries puts id call none h = tt
introduce-Carries puts id call (some c) h = (h c, (tt, tt))

finish-Carries :
    (puts : Puts) (info : ServerInfo) (s : Server) (told : Option (Dict ServerInfo × List Action))
    → All (Carries puts) (round_actions told)
    → All (Carries puts) (round_actions (finish_round info s told))
finish-Carries puts info s none h = tt
finish-Carries puts info s (some (members, actions)) h = h

pub join-Carries :
    (puts : Puts) (dial : Dial) (now : Time) (req : JoinClusterAsServerRequest) (s : Server)
    → All (Carries puts) (join_cluster_as_server dial now req s).2
unfolding join_cluster_as_server
join-Carries puts dial now req s = elim (Option-cases (lookup req.id s.server_map)) [
  | inr (member, e) ↦ rw (e, join_cluster_as_server) tt
  | inl e ↦
      rw (e, join_cluster_as_server)
        (if_rule {A = Server × JoinReply × List Action} (λ r. All (Carries puts) r.2)
          (s.curr_server_info.id == req.id) _ _ (λ _. tt)
          (λ _.
            broadcast-All (Carries puts) dial s.blacklist_map
              (new_server_notification_call
                (record { id = s.curr_server_info.id; new_server_info = joining now req }))
              (λ id c. tt) s.server_map))
]

stabilize_send-Carries :
    (puts : Puts) (dial : Dial) (answer : String → Option CallError) (id : String) (s : Server)
    → IsValid s
    → AllWritten puts s.key_value_map
    → All (Carries puts) (stabilize_send dial answer id s).1
unfolding stabilize_send
stabilize_send-Carries puts dial answer id s v h = elim (Option-cases (lookup id s.server_map)) [
  | inl e ↦ rw (e, stabilize_send) tt
  | inr (member, e) ↦ elim (Option-cases (connect dial s.blacklist_map member).rpc_client) [
    | inl n ↦ rw (e, stabilize_send, n) tt
    | inr (c, n) ↦
        rw (e, stabilize_send, n)
          (
            (
              copy-Entries s.key_value_map v.entries,
              λ key.
                  subst (λ o. Holds puts key (seen o))
                    (sym (lookup-copy s.key_value_map key (Entries-Distinct _ v.entries))) (h key),
            ),
            tt,
          )
  ]
]

round-Carries :
    (puts : Puts) (dial : Dial) (now : Time) (perm : ℕ → List ℕ) (s : Server)
    → All (Carries puts) (round_actions (heartbeat_round dial now perm s))
unfolding heartbeat_round
round-Carries puts dial now perm s =
    let info : ServerInfo = record s.curr_server_info {
      heartbeat_seqnum = increment s.curr_server_info.heartbeat_seqnum;
      lamport_timestamp = s.curr_server_info.lamport_timestamp +ℤ one;
    } in
    let members = check_members now s.server_map in
    let call =
      heartbeat_notification_call
        (record { id = info.id; server_info_list = info ∷ values members }) in
    let chosen = recipients perm (length members) in
    finish-Carries puts info s (gossip dial s.blacklist_map call chosen 0 0 members)
      (gossip-All (Carries puts) dial s.blacklist_map call (λ id c. tt) chosen 0 0 members)

-- What a server sends, when its store and its own write come of the puts.
pub actions_of-Carries :
    (puts : Puts) (event : Event) (s : Server)
    → IsValid s
    → AllWritten puts s.key_value_map
    → All (λ made. In made puts) (wrote event s)
    → All (Carries puts) (actions_of event s)
unfolding actions_of put_kv_server kill_server kill_server_notification create_connection
    break_connection
actions_of-Carries puts (joins dial now req) s v h w = join-Carries puts dial now req s
actions_of-Carries puts (killed req) s v h w =
    close_member-Carries puts (lookup req.id s.server_map)
actions_of-Carries puts (create dial now req) s v h w =
    introduce-Carries puts req.id
      (new_server_notification_call (record {
        id = s.curr_server_info.id;
        new_server_info = new_server_info_heap now s.curr_server_info;
      }))
      (get_rpc_connection dial (delete req.address s.blacklist_map) req.address) (λ c. tt)
actions_of-Carries puts (break req) s v h w = close_member-Carries puts (lookup req.id s.server_map)
actions_of-Carries puts (kill dial) s v h w =
    let call = kill_server_notification_call (record { id = s.curr_server_info.id }) in
    All-append (Carries puts) (say_goodbye dial s.blacklist_map call s.server_map).1 _
      (say_goodbye-All (Carries puts) dial s.blacklist_map call (λ id c. tt) s.server_map (λ c. tt))
      (tt, tt)
actions_of-Carries puts (put dial req) s v h w =
    let info = (put_entry req s).0 in
    let s' = (put_entry req s).1 in
    broadcast-All (Carries puts) dial s'.blacklist_map
      (process_remote_write_call
        (record { key = info.key; value = info.value; version = info.version }))
      (λ id c. (s.curr_server_info.id, info, w.0, refl, refl)) s'.server_map
actions_of-Carries puts (stabilizes dial answer id) s v h w =
    stabilize_send-Carries puts dial answer id s v h
actions_of-Carries puts (round dial now perm) s v h w = round-Carries puts dial now perm s
actions_of-Carries puts _ s v h w = tt
