-- ===== src/Server/Invariant/StoreEntries.antt =====
-- The well-formedness of the key-value store of server/rpc.go.
use psk_db.Prelude.{
  String, ◌≡◌, refl, none, some, [], ◌∷◌, arith, eq_iff, Option-cases, Bool-cases, inl, inr, ltb_ℤ,
}
use psk_db.Dict.{Dict, lookup, insert, lookup-insert, Distinct}
use psk_db.Server.State.{KeyValueInfo}
use psk_db.Server.Store.{merge_entry, merge}

-- No key twice, each entry under its own key.
abbrev pub Entries : Dict KeyValueInfo → Type 0
Entries [] = Unit
Entries ((key, info) ∷ store) = (info.key ≡ key) × (lookup key store ≡ none) × Entries store

pub insert-Entries :
    (key : String) (info : KeyValueInfo) (store : Dict KeyValueInfo)
    → info.key ≡ key
    → Entries store
    → Entries (insert key info store)
unfolding insert lookup
insert-Entries key info [] e v = (e, refl, tt)
insert-Entries key info ((k, i) ∷ store) e v = ground (
  arith,
  lookup-insert key k info store,
  eq_iff k key,
  eq_iff key k,
  insert-Entries key info store e v.2,
)

pub lookup-key :
    (key : String) (store : Dict KeyValueInfo) (info : KeyValueInfo)
    → Entries store
    → lookup key store ≡ some info
    → info.key ≡ key
unfolding lookup
lookup-key key [] info v h = absurd (ground arith)
lookup-key key ((k, i) ∷ store) info v h =
    ground (arith, eq_iff k key, lookup-key key store info v.2)

pub Entries-Distinct : (store : Dict KeyValueInfo) → Entries store → Distinct store
Entries-Distinct [] v = tt
Entries-Distinct ((k, i) ∷ store) v = (v.1, Entries-Distinct store v.2)

pub merge_entry-Entries :
    (key : String) (info : KeyValueInfo) (store : Dict KeyValueInfo)
    → info.key ≡ key
    → Entries store
    → Entries (merge_entry key info store)
merge_entry-Entries key info store e v = elim (Option-cases (lookup key store)) [
  | inl h ↦ unfold merge_entry in rw (h, merge_entry) (insert-Entries key _ store e v)
  | inr (old, h) ↦ elim (Bool-cases (ltb_ℤ old.version info.version)) [
    | inl newer ↦
        unfold merge_entry in
        rw (h, merge_entry, newer) (insert-Entries key _ store (lookup-key key store old v h) v)
    | inr stale ↦ unfold merge_entry in rw (h, merge_entry, stale) v
  ]
]

pub merge-Entries :
    (received store : Dict KeyValueInfo)
    → Entries received
    → Entries store
    → Entries (merge received store)
unfolding merge
merge-Entries [] store r v = v
merge-Entries ((key, info) ∷ received) store r v =
    merge-Entries received _ r.2 (merge_entry-Entries key info store r.0 v)
