-- ===== src/Samples/Stores.antt =====
-- Sample stores that are printed, sent and logged, and a connection that is broken and made again
-- (server/rpc.go).
use psk_db.Prelude.{
  String, pos, some, [], ◌∷◌, refl, ◌≡◌, ◌==◌, eq_iff, sort_strings, put_in_order, Bool-cases, inl,
  inr, subst,
}
use psk_db.Dict.{Dict, lookup, Distinct}
use psk_db.Common.{ConnectionRequest, PutKvServerRequest}
use psk_db.Server.State.{KeyValueInfo}
use psk_db.Server.Store.{put_kv_server, send_kv_data}
use psk_db.Server.Printing.{
  store_lines, print_lines, print_entries, print_store, print_members, print_membership_list,
}
use psk_db.Server.Printing.Agreement.{SameValue, SameValues, print_entries_agree}
use psk_db.Cluster.Transfer.{send_kv_data-kv_data_request}
use psk_db.Server.Stabilize.{kv_data_request}
use psk_db.Server.Step.{put, run, step}
use psk_db.Server.Startup.Joins.{start-IsValid}
use psk_db.Server.Replica.Log.{replay, replay-run}
use psk_db.Samples.{entry, server_one, server_one-IsValid, dials}
use psk_db.Samples.Joining.{started, start-started}

print_store_test : print_store server_one ≡ "\nServer 1 KV Store\nx\t:\told\n\n"
unfolding print_store print_entries store_lines print_lines sort_strings put_in_order
print_store_test = refl

print_membership_list_test :
    print_membership_list server_one
    ≡ "Member list: [ ( *ID: 1, Port: 9000 ) ( ID: 2, Port: 9001 )  ].\n"
unfolding print_membership_list print_members
print_membership_list_test = refl

abbrev one_way : Dict KeyValueInfo
one_way = ("x", entry "x" "a" (pos 1)) ∷ ("y", entry "y" "b" (pos 2)) ∷ []

abbrev other_way : Dict KeyValueInfo
other_way = ("y", entry "y" "b" (pos 3)) ∷ ("x", entry "x" "a" (pos 1)) ∷ []

ways-SameValues : SameValues one_way other_way
unfolding lookup
ways-SameValues key = elim (Bool-cases ("x" == key)) [
  | inl e ↦ subst (SameValue one_way other_way) ((eq_iff "x" key).0 e) refl
  | inr e ↦ elim (Bool-cases ("y" == key)) [
    | inl f ↦ subst (SameValue one_way other_way) ((eq_iff "y" key).0 f) refl
    | inr f ↦ rw (e, f) refl
  ]
]

one_way-Distinct : Distinct one_way
unfolding lookup
one_way-Distinct = (refl, (refl, tt))

other_way-Distinct : Distinct other_way
unfolding lookup
other_way-Distinct = (refl, (refl, tt))

print_entries_agree_example : print_entries one_way ≡ print_entries other_way
print_entries_agree_example =
    print_entries_agree one_way other_way one_way-Distinct other_way-Distinct ways-SameValues

print_entries_test : print_entries other_way ≡ "x\t:\ta\ny\t:\tb\n"
unfolding print_entries store_lines print_lines sort_strings put_in_order
print_entries_test = refl

send_kv_data-kv_data_request_example :
    ((key : String)
      → lookup key (send_kv_data (kv_data_request server_one) started).key_value_map
        ≡ lookup key server_one.key_value_map)
    × (print_entries (send_kv_data (kv_data_request server_one) started).key_value_map
        ≡ print_entries server_one.key_value_map)
send_kv_data-kv_data_request_example =
    send_kv_data-kv_data_request server_one started server_one-IsValid.entries refl

abbrev write : PutKvServerRequest
write = record { key = "x"; value = "mine"; version = pos 3_200_000 }

run-write : run (put dials write ∷ []) started ≡ some (put_kv_server dials write started).0
unfolding run step
run-write = refl

replay-run_example :
    replay (put_kv_server dials write started).0.write_log []
    ≡ (put_kv_server dials write started).0.key_value_map
unfolding replay
replay-run_example =
    replay-run (put dials write ∷ []) started (put_kv_server dials write started).0 (tt, tt)
      (tt, tt) (start-IsValid "1" "9000" 9 started start-started) refl run-write

abbrev link : ConnectionRequest
link = record { id = "2"; address = "localhost:9000" }
