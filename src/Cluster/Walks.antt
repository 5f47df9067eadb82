-- ===== src/Cluster/Walks.antt =====
-- How many rounds the flood of README.md (Stabilize Mechanism) needs: walks between the servers of a
-- partition, and how long they have to be.
use psk_db.Prelude.{
  ℕ, zero, suc, ◌-◌, ◌≤◌, ◌<◌, String, false, ◌≡◌, refl, sym, subst, List, [], ◌∷◌, In, arith, ◌==◌,
  eq_iff, inl, inr, ◌⊎◌, if◌then◌else◌, if_rule, Bool-cases, length,
}
use psk_db.Cluster.Flood.{Route}

-- A walk over the links whose servers after the first are all in the list.
pub data Walk (links : List (String × String)) (ids : List String) (k : String)
    : String → Type 0 where
  here : Walk links ids k k
  step : {i j : String} → In (i, j) links → In j ids → Walk links ids k j → Walk links ids k i

unfoldable pub remove : String → List String → List String
remove x [] = []
remove x (y ∷ ys) = let rest = remove x ys in if x == y then rest else y ∷ rest

length-remove-le : (x : String) (ys : List String) → length (remove x ys) ≤ length ys
unfolding remove
length-remove-le x [] = omega arith
length-remove-le x (y ∷ ys) = ground (arith, length-remove-le x ys)

length-remove-lt : (x : String) (ys : List String) → In x ys → length (remove x ys) < length ys
unfolding remove
length-remove-lt x [] m = absurd (m tt)
length-remove-lt x (y ∷ ys) (inl e) = ground (arith, length-remove-le x ys, eq_iff x y)
length-remove-lt x (y ∷ ys) (inr m) = ground (arith, length-remove-le x ys, length-remove-lt x ys m)

In-remove : (x y : String) (ys : List String) → (x == y) ≡ false → In y ys → In y (remove x ys)
unfolding remove
In-remove x y [] n m = m
In-remove x y (z ∷ ys) n (inl e) =
    let other : (x == z) ≡ false = subst (λ w. (x == w) ≡ false) (sym e) n in rw other (inl e)
In-remove x y (z ∷ ys) n (inr m) =
    if_rule (In y) (x == z) _ _ (λ _. In-remove x y ys n m) (λ _. inr (In-remove x y ys n m))

module _ (links : List (String × String)) where
  -- A walk never comes back to `x`, or the part after its last visit there does not.
  cut :
      (x : String) {ids : List String} {k i : String}
      → Walk links ids k i
      → Walk links (remove x ids) k i ⊎ Walk links (remove x ids) k x
  cut x here = inl here
  cut x {ids} {k} (step {i} {j} l m w) = elim (cut x w) [
    | inr later ↦ inr later
    | inl later ↦ elim (Bool-cases (x == j)) [
      | inl e ↦ inr (subst (Walk links (remove x ids) k) (sym ((eq_iff x j).0 e)) later)
      | inr n ↦ inl (step l (In-remove x j ids n m) later)
    ]
  ]

  cut_self :
      (x : String) {ids : List String} {k : String}
      → Walk links ids k x
      → Walk links (remove x ids) k x
  cut_self x w = elim (cut x w) [ inl v ↦ v | inr v ↦ v ]

  Route-refl : (n : ℕ) (i : String) → Route links n i i
  Route-refl zero i = refl
  Route-refl (suc n) i = inl (Route-refl n i)

  -- A walk can be as short as the list of its servers.
  Walk-Route :
      (n : ℕ) {ids : List String} {k i : String}
      → Walk links ids k i
      → length ids ≤ n
      → Route links n i k
  Walk-Route n {k} here h = Route-refl n k
  Walk-Route zero {ids = []} (step l m w) h = absurd (m tt)
  Walk-Route zero {ids = x ∷ ids} (step l m w) h = absurd (omega arith)
  Walk-Route (suc n) {ids} (step {j} l m w) h =
      inr (j, l, Walk-Route n (cut_self j w) (omega (arith, length-remove-lt j ids m)))

  -- Between two servers of a list, one link fewer than the list is long is enough.
  pub Walk-Route_short :
      {ids : List String} {k i : String}
      → In i ids
      → Walk links ids k i
      → Route links (length ids - 1) i k
  Walk-Route_short {ids} {i} m w =
      Walk-Route (length ids - 1) (cut_self i w) (omega (arith, length-remove-lt i ids m))
