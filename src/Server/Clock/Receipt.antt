-- ===== src/Server/Clock/Receipt.antt =====
-- Lamport's rule for a receipt, as HeartbeatNotification of server/rpc.go follows it.
use psk_db.Prelude.{
  ℤ, pos, ◌≡◌, sym, subst, Option, none, some, arith, max_ℤ, ◌+ℤ◌, ◌≤ℤ◌, ◌<ℤ◌, int_laws,
}
use psk_db.Timestamp.{Timestamp, one, floor, of_int, id_fraction, get_lamport_timestamp_from_seqnum}
use psk_db.Server.State.{Time, ServerInfo, Server}
use psk_db.Server.Clock.{set_lamport_timestamp}
use psk_db.Server.Membership.{update_member, heartbeat_entry}

lt-floor_add : (t f : Timestamp) → pos 0 ≤ℤ f → t <ℤ (of_int (floor t) +ℤ f) +ℤ one
unfolding of_int floor ◌+ℤ◌
lt-floor_add t f h = ground arith

max_ℤ_left : (a b : ℤ) → a ≤ℤ max_ℤ a b
max_ℤ_left a b = ground arith

max_ℤ_right : (a b : ℤ) → b ≤ℤ max_ℤ a b
max_ℤ_right a b = ground arith

clock-update_member :
    (now : Time) (info : ServerInfo) (s : Server)
    → (update_member now info s).curr_server_info ≡ s.curr_server_info
unfolding update_member
clock-update_member now info s = ground arith

-- The clock after one entry lies above the sender's and above what it was.
abbrev Above : ServerInfo → Timestamp → Option Server → Type 0
Above info clock none = Unit
Above info clock (some s) =
    (info.lamport_timestamp <ℤ s.curr_server_info.lamport_timestamp)
    × (clock <ℤ s.curr_server_info.lamport_timestamp)

above :
    (own t clock m : Timestamp)
    → t <ℤ own +ℤ one
    → own ≤ℤ m
    → clock ≤ℤ m
    → (t <ℤ m +ℤ one) × (clock <ℤ m +ℤ one)
above own t clock m a b c = (omega int_laws, omega int_laws)

above_max :
    (t f clock : Timestamp)
    → pos 0 ≤ℤ f
    → (t <ℤ max_ℤ (of_int (floor t) +ℤ f) clock +ℤ one)
      × (clock <ℤ max_ℤ (of_int (floor t) +ℤ f) clock +ℤ one)
above_max t f clock h =
    let own = of_int (floor t) +ℤ f in
    let a : t <ℤ own +ℤ one = lt-floor_add t f h in
    let b : own ≤ℤ max_ℤ own clock = max_ℤ_left own clock in
    let c : clock ≤ℤ max_ℤ own clock = max_ℤ_right own clock in
    above (of_int (floor t) +ℤ f) t clock (max_ℤ (of_int (floor t) +ℤ f) clock) a b c

heartbeat_entry-Above :
    (now : Time) (info : ServerInfo) (s : Server) (f : Timestamp)
    → id_fraction s.curr_server_info.id ≡ some f
    → pos 0 ≤ℤ f
    → Above info s.curr_server_info.lamport_timestamp (heartbeat_entry now info s)
unfolding heartbeat_entry get_lamport_timestamp_from_seqnum
heartbeat_entry-Above now info s f e h =
    let own = s.curr_server_info.lamport_timestamp in
    let clock = max_ℤ (of_int (floor info.lamport_timestamp) +ℤ f) own +ℤ one in
    rw (heartbeat_entry, get_lamport_timestamp_from_seqnum, e)
      (subst
        (λ (i : ServerInfo).
          (info.lamport_timestamp <ℤ i.lamport_timestamp) × (own <ℤ i.lamport_timestamp))
        (sym (clock-update_member now info (set_lamport_timestamp clock s)))
        (above_max info.lamport_timestamp f own h))

-- After one entry of a heartbeat, at a server whose id is not negative, the clock lies above the
-- sender's and above what it was.
heartbeat_entry-lt :
    (now : Time) (info : ServerInfo) (s s' : Server) (f : Timestamp)
    → id_fraction s.curr_server_info.id ≡ some f
    → pos 0 ≤ℤ f
    → heartbeat_entry now info s ≡ some s'
    → (info.lamport_timestamp <ℤ s'.curr_server_info.lamport_timestamp)
      × (s.curr_server_info.lamport_timestamp <ℤ s'.curr_server_info.lamport_timestamp)
heartbeat_entry-lt now info s s' f e h k =
    subst (Above info s.curr_server_info.lamport_timestamp) k
      (heartbeat_entry-Above now info s f e h)
