-- ===== src/Cluster/Copies.antt =====
-- The data that Stabilize of server/rpc.go sends.
use psk_db.Prelude.{
  String, ◌≡◌, refl, ◌∙◌, Option, none, some, [], ◌∷◌, arith, eq_iff, inl, inr, Option-cases,
}
use psk_db.Dict.{Dict, lookup, insert, lookup-insert, insert-Distinct, Distinct}
use psk_db.Server.State.{KeyValueInfo, Server, Action, sent, send_kv_data as send_kv_data_call}
use psk_db.Common.{CallError, Conn}
use psk_db.Server.Connect.{Dial, connect}
use psk_db.Server.Store.{copy_into}
use psk_db.Server.Stabilize.{kv_data_request, stabilize_send}
use psk_db.Server.Invariant.StoreEntries.{Entries, insert-Entries}

abbrev or_else : Option KeyValueInfo → Option KeyValueInfo → Option KeyValueInfo
or_else none later = later
or_else (some info) later = some info

pub copy_into-Distinct :
    (store copy : Dict KeyValueInfo) → Distinct copy → Distinct (copy_into store copy)
unfolding copy_into
copy_into-Distinct [] copy d = d
copy_into-Distinct ((key, info) ∷ store) copy d =
    copy_into-Distinct store (insert key info copy) (insert-Distinct key info copy d)

lookup-copy_into :
    (store copy : Dict KeyValueInfo) (j : String)
    → Distinct store
    → lookup j (copy_into store copy) ≡ or_else (lookup j store) (lookup j copy)
unfolding copy_into lookup
lookup-copy_into [] copy j d = refl
lookup-copy_into ((key, info) ∷ store) copy j d = ground (
  arith,
  lookup-copy_into store (insert key info copy) j d.1,
  lookup-insert key j info copy,
  eq_iff key j,
)

or_else-none : (o : Option KeyValueInfo) → or_else o none ≡ o
or_else-none none = refl
or_else-none (some info) = refl

-- The copy holds at each key what the store holds.
pub lookup-copy :
    (store : Dict KeyValueInfo) (j : String)
    → Distinct store
    → lookup j (copy_into store []) ≡ lookup j store
unfolding lookup
lookup-copy store j d = lookup-copy_into store [] j d ∙ or_else-none (lookup j store)

-- What Stabilize sends to a member is the copy of the store of that moment.
pub stabilize_send-sent :
    (dial : Dial) (answer : String → Option CallError) (id : String) (s : Server) (action : Action)
    → (stabilize_send dial answer id s).1 ≡ action ∷ []
    → (member : String) × (c : Conn) × (action
        ≡ sent member c (send_kv_data_call (kv_data_request s)))
unfolding stabilize_send
stabilize_send-sent dial answer id s action h = elim (Option-cases (lookup id s.server_map)) [
  | inl e ↦ absurd (ground (arith, e))
  | inr (info, e) ↦ elim (Option-cases (connect dial s.blacklist_map info).rpc_client) [
    | inl n ↦ absurd (ground (arith, e, n))
    | inr (c, n) ↦ (info.id, c, ground (arith, e, n))
  ]
]

copy_into-Entries :
    (store copy : Dict KeyValueInfo) → Entries store → Entries copy → Entries (copy_into store copy)
unfolding copy_into
copy_into-Entries [] copy v w = w
copy_into-Entries ((key, info) ∷ store) copy v w =
    copy_into-Entries store (insert key info copy) v.2 (insert-Entries key info copy v.0 w)

pub copy-Entries : (store : Dict KeyValueInfo) → Entries store → Entries (copy_into store [])
copy-Entries store v = copy_into-Entries store [] v tt
