-- ===== src/Server/Printing/Agreement.antt =====
-- When two servers print the same store (PrintStore of server/rpc.go).
use psk_db.Prelude.{
  String, ◌≡◌, ap, sym, subst, none, some, [], ◌∷◌, Perm, arith, ◌==◌, eq_iff, eq_refl, Bool-cases,
  Option-cases, inl, inr, sort_strings, IsSorted, sort_strings-IsSorted, sort_strings-perm,
  sort_strings_reordered,
}
use mathlib.Core.List.Perm
use mathlib.Core.Path.{ap₂}
use mathlib.Core.Option
use psk_db.Dict.{Dict, lookup, delete, Distinct, lookup-delete, delete-Distinct, delete_missing}
use psk_db.Server.State.{KeyValueInfo}
use psk_db.Server.Printing.{store_line, store_lines, print_entries, print_lines}

abbrev pub SameValue : Dict KeyValueInfo → Dict KeyValueInfo → String → Type 0
SameValue store other key =
    Option.map (λ (info : KeyValueInfo). info.value) (lookup key store)
    ≡ Option.map (λ (info : KeyValueInfo). info.value) (lookup key other)

-- Two stores have the same values under the same keys.
abbrev pub SameValues : Dict KeyValueInfo → Dict KeyValueInfo → Type 0
SameValues store other = (key : String) → SameValue store other key

store_lines-delete :
    (key : String) (store : Dict KeyValueInfo) (info : KeyValueInfo)
    → Distinct store
    → lookup key store ≡ some info
    → Perm (store_lines store) (store_line key info.value ∷ store_lines (delete key store))
unfolding store_lines lookup delete
store_lines-delete key [] info d h = absurd (ground arith)
store_lines-delete key ((k, i) ∷ store) info d h = elim (Bool-cases (k == key)) [
  | inl e ↦
      let same : info ≡ i = ground arith in
      let key_same : k ≡ key = (eq_iff k key).0 e in
      let absent : lookup key store ≡ none = subst (λ x. lookup x store ≡ none) key_same d.0 in
      rw (e, delete_missing key store absent)
        (Perm.cons' (ap₂ store_line key_same (ap (λ (x : KeyValueInfo). x.value) (sym same)))
          Perm.rfl)
  | inr e ↦ rw e (
      Perm.trans (Perm.cons _ (store_lines-delete key store info d.1 (ground arith)))
        (Perm.swap _ _ _))
]

store_lines_agree :
    (store other : Dict KeyValueInfo)
    → Distinct store
    → Distinct other
    → SameValues store other
    → Perm (store_lines store) (store_lines other)
unfolding store_lines lookup
store_lines_agree [] [] d e same = Perm.rfl
store_lines_agree [] ((k, i) ∷ other) d e same = absurd (ground (arith, same k, eq_refl k))
store_lines_agree ((k, i) ∷ store) other d e same = elim (Option-cases (lookup k other)) [
  | inl h ↦ absurd (ground (arith, same k, eq_refl k))
  | inr (j, h) ↦
      let value : i.value ≡ j.value = ground (arith, same k, eq_refl k) in
      Perm.trans
        (Perm.cons' (ap (store_line k) value) (
          store_lines_agree store (delete k other) d.1 (delete-Distinct k other e)
            (λ key. ground (arith, same key, lookup-delete k key other, eq_iff k key))))
        (Perm.symm (store_lines-delete k other j e h))
]

-- x
pub sort_strings-store_lines :
    (store : Dict KeyValueInfo)
    → IsSorted (sort_strings (store_lines store))
      × Perm (sort_strings (store_lines store)) (store_lines store)
sort_strings-store_lines store = (sort_strings-IsSorted _, sort_strings-perm _)

-- Two stores, neither with a key twice, that have the same values under the same keys are printed
-- as the same text, whatever the order of their entries and the versions.
pub print_entries_agree :
    (store other : Dict KeyValueInfo)
    → Distinct store
    → Distinct other
    → SameValues store other
    → print_entries store ≡ print_entries other
unfolding print_entries
print_entries_agree store other d e same =
    ap print_lines (sort_strings_reordered (store_lines_agree store other d e same))
