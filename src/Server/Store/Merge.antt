-- ===== src/Server/Store/Merge.antt =====
-- SendKVData of server/rpc.go against its specification, the join of two entries of a key.
use psk_db.Prelude.{
  String, ◌≡◌, refl, sym, ap, ◌∙◌, Option, none, some, [], ◌∷◌, arith, ◌==◌, eq_iff, ltb_ℤ,
  Option-cases, Bool-cases, inl, inr, if◌then◌else◌,
}
use psk_db.Dict.{Dict, lookup, lookup-insert, insert-Distinct, Distinct}
use psk_db.Server.State.{KeyValueInfo}
use psk_db.Server.Store.{merge_entry, merge}

-- What a replica holds of a key after it has received an entry, or none.
abbrev pub join : Option KeyValueInfo → Option KeyValueInfo → Option KeyValueInfo
join none received = received
join (some old) none = some old
join (some old) (some info) =
    if ltb_ℤ old.version info.version
    then some (record old { value = info.value; version = info.version })
    else some old

pub join-none : (held : Option KeyValueInfo) → join held none ≡ held
join-none none = refl
join-none (some old) = refl

pub lookup-merge_entry :
    (key j : String) (info : KeyValueInfo) (store : Dict KeyValueInfo)
    → lookup j (merge_entry key info store)
      ≡ (if key == j then join (lookup j store) (some info) else lookup j store)
unfolding merge_entry
lookup-merge_entry key j info store = elim (Option-cases (lookup key store)) [
  | inl e ↦ rw (e, merge_entry, lookup-insert) (ground (arith, eq_iff key j))
  | inr (old, e) ↦ elim (Bool-cases (ltb_ℤ old.version info.version)) [
    | inl newer ↦ rw (e, merge_entry, newer, lookup-insert) (ground (arith, eq_iff key j))
    | inr stale ↦ rw (e, merge_entry, stale) (ground (arith, eq_iff key j))
  ]
]

pub merge_entry-Distinct :
    (key : String) (info : KeyValueInfo) (store : Dict KeyValueInfo)
    → Distinct store
    → Distinct (merge_entry key info store)
unfolding merge_entry
merge_entry-Distinct key info store d = elim (Option-cases (lookup key store)) [
  | inl e ↦ rw (e, merge_entry) (insert-Distinct key _ store d)
  | inr (old, e) ↦ elim (Bool-cases (ltb_ℤ old.version info.version)) [
    | inl newer ↦ rw (e, merge_entry, newer) (insert-Distinct key _ store d)
    | inr stale ↦ rw (e, merge_entry, stale) d
  ]
]

pub merge-Distinct :
    (received store : Dict KeyValueInfo) → Distinct store → Distinct (merge received store)
unfolding merge
merge-Distinct [] store d = d
merge-Distinct ((key, info) ∷ received) store d =
    merge-Distinct received _ (merge_entry-Distinct key info store d)

-- At each key the merged store holds the join of what it held and of what it received.
pub lookup-merge :
    (received store : Dict KeyValueInfo) (j : String)
    → Distinct received
    → lookup j (merge received store) ≡ join (lookup j store) (lookup j received)
unfolding merge lookup
lookup-merge [] store j d = sym (join-none (lookup j store))
lookup-merge ((key, info) ∷ received) store j d =
    rw
      (
        lookup-merge received (merge_entry key info store) j d.1,
        lookup-merge_entry key j info store,
      )
      (elim (Bool-cases (key == j)) [
        | inl e ↦
            rw (e, ap (λ x. lookup x received) (sym ((eq_iff key j).0 e)) ∙ d.0)
              (join-none (join (lookup j store) (some info)))
        | inr e ↦ rw e
      ])
