-- ===== src/Samples/Delivery.antt =====
-- A put in a partition of two servers, and gets after it (server/rpc.go).
use psk_db.Prelude.{
  pos, String, some, List, [], ◌∷◌, refl, sym, arith, ◌≡◌, inl, inr, ◌==◌, ◌≤ℤ◌, ◌+ℤ◌, ◌-ℤ◌,
  if_rule, subst,
}
use psk_db.Dict.{lookup}
use psk_db.Server.State.{KeyValueInfo, Action}
use psk_db.Cluster.Flood.{held}
use psk_db.Cluster.Walks.{Walk}
use psk_db.Cluster.Schedule.{run_rounds, messages_of, reach, target}
use psk_db.Cluster.Writes.{receive_all}
use psk_db.Cluster.Writes.Delivery.{get_kv_server-receive_all}
use psk_db.Cluster.Schedule.Reads.{after_put, get_kv_server-run_rounds}
use psk_db.Common.{PutKvServerRequest, GetKvServerRequest}
use psk_db.Server.Invariant.Defs.{IsValid}
use psk_db.Server.Store.{put_entry, put_kv_server, get_kv_server}
use psk_db.Server.Clock.{conditional_increment_lamport_timestamp, conditional_increment}
use psk_db.Server.Connect.{connect, broadcast}
use psk_db.Samples.{server_one, server_one-IsValid, server_two-IsValid, dials}
use psk_db.Samples.Partition.{
  two, messages, names, two_dials, pairs, round, messages-Walk, pairs-Covers,
}

two-IsValid : (id : String) → IsValid (two id)
two-IsValid id = if_rule IsValid (id == "1") _ _ (λ _. server_one-IsValid) (λ _. server_two-IsValid)

abbrev write : PutKvServerRequest
write = record { key = "x"; value = "newest"; version = pos 4_200_000 }

abbrev read : GetKvServerRequest
read = record { key = "x"; version = pos 4_200_000 }

messages_of-after_put : messages_of two_dials (after_put dials write "1" two) pairs ≡ messages
unfolding messages_of reach connect lookup put_kv_server broadcast put_entry
messages_of-after_put = refl

read-old : read.version ≤ℤ (put_kv_server dials write server_one).1.version
unfolding put_kv_server put_entry conditional_increment_lamport_timestamp conditional_increment
    lookup ◌+ℤ◌ ◌-ℤ◌
read-old = omega arith

get_kv_server-run_rounds_example :
    (x : KeyValueInfo) × (held "x"
        (run_rounds two_dials (round ∷ []) (after_put dials write "1" two))
        "2"
      ≡ some x)
    × ((put_kv_server dials write server_one).1.version ≤ℤ x.version)
    × ((get_kv_server read
          (run_rounds two_dials (round ∷ []) (after_put dials write "1" two) "2")).1.value
        ≡ x.value)
    × ((get_kv_server read
          (run_rounds two_dials (round ∷ []) (after_put dials write "1" two) "2")).1.version
        ≡ x.version)
get_kv_server-run_rounds_example =
    get_kv_server-run_rounds two_dials names pairs (round ∷ []) two write read "1" "2" two-IsValid
      refl (inl refl)
      (subst (λ (m : List (String × String)). Walk m names "2" "1") (sym messages_of-after_put)
        (messages-Walk "1" "2" (inl refl) (inr refl)))
      (pairs-Covers, tt) refl read-old

target-two : target dials "2" (two "1") ≡ some "2"
unfolding reach connect lookup
target-two = refl

abbrev remote_writes : List Action
remote_writes = (put_kv_server dials write server_one).2

get_kv_server-receive_all_example :
    (x : KeyValueInfo) × (lookup "x"
        (receive_all remote_writes (after_put dials write "1" two) "2").key_value_map
      ≡ some x)
    × ((put_kv_server dials write server_one).1.version ≤ℤ x.version)
    × ((get_kv_server read (receive_all remote_writes (after_put dials write "1" two) "2")).1.value
        ≡ x.value)
    × ((get_kv_server read
          (receive_all remote_writes (after_put dials write "1" two) "2")).1.version
        ≡ x.version)
get_kv_server-receive_all_example =
    get_kv_server-receive_all two_dials write read "1" "2" "2" remote_writes two server_one-IsValid
      target-two (λ a m. m) refl read-old
