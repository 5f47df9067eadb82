-- ===== src/Cluster/Transfer.antt =====
-- A server without data that gets those of another: Stabilize and SendKVData of server/rpc.go.
use psk_db.Prelude.{String, ◌≡◌, ◌∙◌, ap, []}
use mathlib.Core.Option
use psk_db.Dict.{Dict, lookup}
use psk_db.Server.State.{KeyValueInfo, Server}
use psk_db.Server.Store.{send_kv_data, merge, copy_into}
use psk_db.Server.Store.Merge.{lookup-merge, merge-Distinct}
use psk_db.Server.Stabilize.{kv_data_request}
use psk_db.Server.Invariant.StoreEntries.{Entries, Entries-Distinct}
use psk_db.Server.Printing.{print_entries}
use psk_db.Server.Printing.Agreement.{print_entries_agree}
use psk_db.Cluster.Copies.{lookup-copy, copy_into-Distinct}

lookup-merge_empty :
    (store : Dict KeyValueInfo) (key : String)
    → Entries store
    → lookup key (merge (copy_into store []) []) ≡ lookup key store
unfolding lookup
lookup-merge_empty store key v =
    lookup-merge (copy_into store []) [] key (copy_into-Distinct store [] tt)
    ∙ lookup-copy store key (Entries-Distinct store v)

print_entries-merge_empty :
    (store : Dict KeyValueInfo)
    → Entries store
    → print_entries (merge (copy_into store []) []) ≡ print_entries store
print_entries-merge_empty store v =
    print_entries_agree _ store (merge-Distinct (copy_into store []) [] tt)
      (Entries-Distinct store v)
      (λ key. ap (Option.map λ (info : KeyValueInfo). info.value) (lookup-merge_empty store key v))

-- A server without data that receives by SendKVData what Stabilize sends of another one, which
-- holds no key twice or under another key, then holds the same entry of every key and prints the
-- same store.
pub send_kv_data-kv_data_request :
    (s t : Server)
    → Entries s.key_value_map
    → t.key_value_map ≡ []
    → ((key : String)
        → lookup key (send_kv_data (kv_data_request s) t).key_value_map
          ≡ lookup key s.key_value_map)
      × (print_entries (send_kv_data (kv_data_request s) t).key_value_map
          ≡ print_entries s.key_value_map)
unfolding send_kv_data
send_kv_data-kv_data_request s t v e =
    unfold send_kv_data in
    rw (e, send_kv_data)
      (λ key. lookup-merge_empty s.key_value_map key v, print_entries-merge_empty s.key_value_map v)
