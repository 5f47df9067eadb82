-- ===== src/Server/Clock/Order.antt =====
-- When the Lamport clock of server/server.go moves forward.
use psk_db.Prelude.{
  pos, ◌+ℤ◌, ◌-ℤ◌, ◌≤ℤ◌, ◌<ℤ◌, ◌↔◌, ◌≡◌, arith, inl, inr, lt→ltb_ℤ, le→not-ltb_ℤ, ≤ℤ_total,
  int_laws,
}
use psk_db.Timestamp.{Timestamp, one, ceil}
use psk_db.Timestamp.Fraction.{frac, frac-one, frac-add_ceil}
use psk_db.Server.Clock.{conditional_increment}

pub ceil_nonpos : (d : Timestamp) → d ≤ℤ pos 0 → ceil d ≤ℤ pos 0
unfolding ceil
ceil_nonpos d h = ground arith

pub ceil-lt_add_one : (d : Timestamp) → ceil d <ℤ d +ℤ one
unfolding ceil ◌+ℤ◌
ceil-lt_add_one d = ground arith

pub le-ceil : (d : Timestamp) → d ≤ℤ ceil d
unfolding ceil
le-ceil d = ground arith

pub conditional_increment_ahead :
    (pivot clock : Timestamp)
    → pivot <ℤ clock +ℤ one
    → conditional_increment pivot clock ≡ clock +ℤ one
unfolding conditional_increment
conditional_increment_ahead pivot clock h =
    rw (lt→ltb_ℤ (pos 0) (clock +ℤ one -ℤ pivot) (omega int_laws))

pub conditional_increment_behind :
    (pivot clock : Timestamp)
    → clock +ℤ one ≤ℤ pivot
    → conditional_increment pivot clock ≡ clock +ℤ (one +ℤ ceil (clock +ℤ one -ℤ pivot))
unfolding conditional_increment
conditional_increment_behind pivot clock h =
    rw (le→not-ltb_ℤ (pos 0) (clock +ℤ one -ℤ pivot) (omega int_laws))

-- The new reading of the clock passes the pivot exactly when the pivot lies below the old reading
-- plus one.
pub conditional_increment-lt_iff :
    (pivot clock : Timestamp)
    → (pivot <ℤ conditional_increment pivot clock) ↔ (pivot <ℤ clock +ℤ one)
conditional_increment-lt_iff pivot clock = elim (≤ℤ_total (clock +ℤ one) pivot) [
  | inl h ↦ rw (conditional_increment_behind pivot clock h) (
    (λ k. absurd (omega (int_laws, ceil_nonpos (clock +ℤ one -ℤ pivot) (omega int_laws)))),
    (λ k. absurd (omega arith)),
  )
  | inr h ↦ rw (conditional_increment_ahead pivot clock h) ((λ k. h), (λ k. h))
]

pub conditional_increment-le :
    (pivot clock : Timestamp) → clock +ℤ one ≤ℤ pivot → conditional_increment pivot clock ≤ℤ pivot
conditional_increment-le pivot clock h =
    rw (conditional_increment_behind pivot clock h)
      (omega (int_laws, ceil_nonpos (clock +ℤ one -ℤ pivot) (omega int_laws)))

-- With the pivot at least three above the reading, the clock falls.
pub conditional_increment_regress :
    (pivot clock : Timestamp)
    → clock +ℤ pos 3_000_000 ≤ℤ pivot
    → conditional_increment pivot clock <ℤ clock
conditional_increment_regress pivot clock h =
    rw (conditional_increment_behind pivot clock (omega int_laws))
      (omega (int_laws, ceil-lt_add_one (clock +ℤ one -ℤ pivot)))

-- It keeps the fractional part.
pub frac-conditional_increment :
    (pivot clock : Timestamp) → frac (conditional_increment pivot clock) ≡ frac clock
frac-conditional_increment pivot clock = elim (≤ℤ_total (clock +ℤ one) pivot) [
  | inl h ↦ rw (conditional_increment_behind pivot clock h) (frac-add_ceil clock _)
  | inr h ↦ rw (conditional_increment_ahead pivot clock h) (frac-one clock)
]
