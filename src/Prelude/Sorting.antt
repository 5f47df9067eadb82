-- ===== src/Prelude/Sorting.antt =====
-- Go's sort.Strings.
use Prim.Native.String.{String}
use mathlib.Core.Path.{◌≡◌, refl, ap, ◌∙◌, sym}
use mathlib.Core.Logic.{inl, inr}
use mathlib.Core.HLevel.{hedberg}
use mathlib.Core.List
use mathlib.Core.List.{List, [], ◌∷◌, Perm, foldr}
use text.Mathlib.Text.{◌==◌}
use text.Mathlib.TextEquality.{eq_iff}
use mathlib.Core.List.Perm
use native.Mathlib.Omega.{arith}
use psk_db.Prelude.Tests.{if◌then◌else◌, Bool-cases}
use psk_db.Prelude.Lists.{All, All-map}
use psk_db.Prelude.Texts.{text_leb, TextLe, TextLe-trans, text_leb_total, TextLe-antisymm}

-- A text put before the first one that is not below it.
unfoldable pub put_in_order : String → List String → List String
put_in_order s [] = s ∷ []
put_in_order s (t ∷ ts) =
    let rest = put_in_order s ts in if text_leb s t then s ∷ t ∷ ts else t ∷ rest

unfoldable pub sort_strings : List String → List String
unfolding put_in_order
sort_strings [] = []
sort_strings (s ∷ ts) = put_in_order s (sort_strings ts)

abbrev pub IsSorted : List String → Type 0
IsSorted [] = Unit
IsSorted (s ∷ ts) = All (TextLe s) ts × IsSorted ts

put_in_order-All :
    (P : String → Type 0) (s : String) (ts : List String)
    → P s
    → All P ts
    → All P (put_in_order s ts)
unfolding put_in_order
put_in_order-All P s [] p h = (p, tt)
put_in_order-All P s (t ∷ ts) p h = elim (Bool-cases (text_leb s t)) [
  | inl e ↦ rw e (p, h)
  | inr e ↦ rw e (h.0, put_in_order-All P s ts p h.1)
]

put_in_order-IsSorted : (s : String) (ts : List String) → IsSorted ts → IsSorted (put_in_order s ts)
unfolding put_in_order
put_in_order-IsSorted s [] v = (tt, tt)
put_in_order-IsSorted s (t ∷ ts) v = elim (Bool-cases (text_leb s t)) [
  | inl e ↦ rw e ((e, All-map (TextLe t) (TextLe s) ts (λ u h. TextLe-trans s t u e h) v.0), v)
  | inr e ↦
      rw e (
        put_in_order-All (TextLe t) s ts (text_leb_total s t e) v.0,
        put_in_order-IsSorted s ts v.1,
      )
]

pub sort_strings-IsSorted : (ts : List String) → IsSorted (sort_strings ts)
unfolding sort_strings
sort_strings-IsSorted [] = tt
sort_strings-IsSorted (s ∷ ts) = put_in_order-IsSorted s _ (sort_strings-IsSorted ts)

put_in_order-perm : (s : String) (ts : List String) → Perm (put_in_order s ts) (s ∷ ts)
unfolding put_in_order
put_in_order-perm s [] = Perm.rfl
put_in_order-perm s (t ∷ ts) = elim (Bool-cases (text_leb s t)) [
  | inl e ↦ rw e Perm.rfl
  | inr e ↦ rw e (Perm.trans (Perm.cons t (put_in_order-perm s ts)) (Perm.swap s t ts))
]

pub sort_strings-perm : (ts : List String) → Perm (sort_strings ts) ts
unfolding sort_strings
sort_strings-perm [] = Perm.rfl
sort_strings-perm (s ∷ ts) = Perm.trans (put_in_order-perm s _) (Perm.cons s (sort_strings-perm ts))

put_in_order_comm :
    (s t : String) (us : List String)
    → put_in_order s (put_in_order t us) ≡ put_in_order t (put_in_order s us)
unfolding put_in_order
put_in_order_comm s t [] =
    ground (arith, TextLe-antisymm s t, text_leb_total s t, text_leb_total t s)
put_in_order_comm s t (u ∷ us) = ground (
  arith,
  TextLe-antisymm s t,
  text_leb_total s t,
  text_leb_total t s,
  TextLe-trans s t u,
  TextLe-trans t s u,
  text_leb_total s u,
  text_leb_total t u,
  TextLe-trans s u t,
  TextLe-trans t u s,
  put_in_order_comm s t us,
)

String_discrete : Discrete String
String_discrete s t = elim (Bool-cases (s == t)) [
  | inl e ↦ yes ((eq_iff s t).0 e)
  | inr e ↦ no (λ p. ground (arith, eq_iff s t))
]

sort_strings-foldr : (ts : List String) → sort_strings ts ≡ foldr put_in_order [] ts
unfolding sort_strings
sort_strings-foldr [] = refl
sort_strings-foldr (s ∷ ts) = ap (put_in_order s) (sort_strings-foldr ts)

-- The result does not depend on the order of the argument.
pub sort_strings_reordered : {ts us : List String} → Perm ts us → sort_strings ts ≡ sort_strings us
sort_strings_reordered {ts} {us} p =
    sort_strings-foldr ts
    ∙ Perm.foldr-eq (List.is_set (hedberg String_discrete)) put_in_order put_in_order_comm p []
    ∙ sym (sort_strings-foldr us)
