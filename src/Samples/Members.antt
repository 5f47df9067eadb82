-- ===== src/Samples/Members.antt =====
-- Sample runs of the membership list and of the clock of server/.
use psk_db.Prelude.{
  ℕ, zero, suc, ap, pos, none, some, List, [], ◌∷◌, refl, arith, ◌≡◌, ◌+ℤ◌, ◌↔◌, ◌<◌, length,
}
use psk_db.Dict.{Dict, lookup, insert}
use psk_db.Timestamp.{floor, get_lamport_timestamp_from_seqnum, number}
use psk_db.Timestamp.Collision.{get_lamport_timestamp_from_seqnum-append_zero}
use psk_db.Common.{ConnectionRequest, PutKvServerRequest}
use psk_db.Server.State.{
  ServerInfo, Server, Call, heartbeat_notification as heartbeat_notification_call,
}
use psk_db.Server.Store.{put_kv_server, send_kv_data}
use psk_db.Server.Membership.{heartbeat_entry}
use psk_db.Server.Links.{break_connection}
use psk_db.Server.Heartbeat.{check_members, timeout, elapsed, recipients}
use psk_db.Server.Heartbeat.Detector.{check_members_twice}
use psk_db.Server.Step.{Event, step, run, put, kv_data}
use psk_db.Server.Heartbeat.Chosen.{chosen}
use psk_db.Server.Replica.{view, Allowed}
use psk_db.Server.Replica.Refinement.{step-Allowed}
use psk_db.Server.Replica.Monotone.{LaterLe, run-LaterLe}
use psk_db.Server.Blacklist.{NotTo, put_kv_server-NotTo}
use psk_db.Samples.{member_of, server_one, server_one-IsValid, server_two, dials}

abbrev write : PutKvServerRequest
write = record { key = "x"; value = "mine"; version = pos 3_200_000 }

-- rand.Perm that shuffles nothing.
unfoldable in_order : ℕ → List ℕ
in_order zero = []
in_order (suc n) = n ∷ in_order n

length-in_order : (n : ℕ) → length (in_order n) ≡ n
unfolding in_order
length-in_order zero = refl
length-in_order (suc n) = ap suc (length-in_order n)

abbrev rumour : Call
rumour = heartbeat_notification_call (record { id = "1"; server_info_list = [] })

-- Three members, told in the order of rand.Perm: the second and the third.
abbrev three : Dict ServerInfo
three = ("2", member_of "2" "9001") ∷ ("3", member_of "3" "9002") ∷ ("4", member_of "4" "9003") ∷ []

chosen_test :
    chosen (recipients in_order 3) 0 three
    ≡ ("3", member_of "3" "9002") ∷ ("4", member_of "4" "9003") ∷ []
unfolding chosen recipients in_order
chosen_test = refl

check_members_twice_example :
    (lookup "2" (check_members 3_000_000_000 (check_members 1_500_000_000 server_one.server_map))
      ≡ none)
    ↔ ((timeout < elapsed 1_500_000_000 0) × (timeout < elapsed 3_000_000_000 1_500_000_000))
unfolding lookup
check_members_twice_example =
    check_members_twice 1_500_000_000 3_000_000_000 "2" server_one.server_map (member_of "2" "9001")
      (refl, tt) refl refl

abbrev news : ServerInfo
news = record (member_of "2" "9001") { heartbeat_seqnum = pos 9; lamport_timestamp = pos 8_200_000 }

-- Server 1 after the news: its clock reads 9.1.
abbrev heard : Server
heard = record server_one {
  server_map = ("2", record news { timestamp = 9; lamport_timestamp = pos 2_200_000 }) ∷ [];
  curr_server_info = record (member_of "1" "9000") { lamport_timestamp = pos 9_100_000 };
}

heartbeat_entry-heard : heartbeat_entry 9 news server_one ≡ some heard
unfolding heartbeat_entry get_lamport_timestamp_from_seqnum lookup insert ◌+ℤ◌ floor
heartbeat_entry-heard = refl

get_lamport_timestamp_from_seqnum-append_zero_example :
    get_lamport_timestamp_from_seqnum (pos 3) "10" ≡ get_lamport_timestamp_from_seqnum (pos 3) "1"
unfolding number
get_lamport_timestamp_from_seqnum-append_zero_example =
    get_lamport_timestamp_from_seqnum-append_zero "1" 1 (pos 3) refl (omega arith)

abbrev cut : ConnectionRequest
cut = record { id = "2"; address = "localhost:9000" }

put_kv_server-NotTo_example :
    NotTo "2" (put_kv_server dials write (break_connection cut server_one).0).2
unfolding lookup
put_kv_server-NotTo_example =
    put_kv_server-NotTo dials cut write server_one (member_of "2" "9001") server_one-IsValid refl
      refl

step-put : step (put dials write) server_one ≡ some (put_kv_server dials write server_one).0
unfolding step
step-put = refl

step-Allowed_example :
    Allowed
      (put dials write)
      (view server_one.key_value_map)
      (view (put_kv_server dials write server_one).0.key_value_map)
step-Allowed_example =
    step-Allowed (put dials write) server_one (put_kv_server dials write server_one).0 tt step-put

abbrev received : Event
received = kv_data (record { key_value_map = server_two.key_value_map; server_id = "2" })

run-received :
    run (received ∷ []) server_one
    ≡ some (
        send_kv_data
          (record { key_value_map = server_two.key_value_map; server_id = "2" })
          server_one)
unfolding run step
run-received = refl

run-LaterLe_example : LaterLe (view server_one.key_value_map "x") (
    view
      (send_kv_data
        (record { key_value_map = server_two.key_value_map; server_id = "2" })
        server_one).key_value_map
      "x")
unfolding lookup
run-LaterLe_example =
    run-LaterLe (received ∷ []) server_one
      (send_kv_data (record { key_value_map = server_two.key_value_map; server_id = "2" })
        server_one)
      "x" ((refl, refl, tt), tt) (tt, tt) run-received
