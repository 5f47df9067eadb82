-- ===== src/Timestamp/Fraction.antt =====
-- The fractional part of a timestamp (server/server.go), which names the server that issued it.
use mathlib.Core.Option.{some-injective}
use psk_db.Prelude.{
  ℕ, ◌-◌, ◌%◌, ℤ, pos, negsuc, ◌+ℤ◌, ◌≡◌, arith, ap, refl, String, Option, none, some, max_ℤ, inl,
  inr, Option-cases, sym, ◌∙◌,
}
use psk_db.Timestamp.{
  Timestamp, unit, one, of_int, ceil, id_fraction, get_lamport_timestamp_from_seqnum,
}

-- t - math.Floor(t), in millionths
unfoldable pub frac : Timestamp → ℕ
frac (pos n) = n % unit
frac (negsuc n) = unit - 1 - n % unit

pub frac-one : (t : Timestamp) → frac (t +ℤ one) ≡ frac t
unfolding frac ◌+ℤ◌
frac-one t = ground arith

pub frac-add_ceil : (t d : Timestamp) → frac (t +ℤ (one +ℤ ceil d)) ≡ frac t
unfolding frac ◌+ℤ◌ ceil
frac-add_ceil t d = ground arith

pub frac-of_int_add : (n : ℤ) (t : Timestamp) → frac (of_int n +ℤ t) ≡ frac t
unfolding frac ◌+ℤ◌ of_int
frac-of_int_add n t = ground arith

abbrev frac_of : Option Timestamp → Option ℕ
frac_of none = none
frac_of (some t) = some (frac t)

-- The fractional part that an id gives, if the id is an integer.
unfoldable pub signature : String → Option ℕ
unfolding id_fraction frac
signature id = frac_of (id_fraction id)

frac_of-some :
    (o : Option Timestamp) (f : ℕ)
    → frac_of o ≡ some f
    → (t : Timestamp) × (o ≡ some t) × (frac t ≡ f)
frac_of-some none f h = cc
frac_of-some (some t) f h = (t, refl, cc)

-- A timestamp made from an id has the id's signature.
pub get_lamport_timestamp_from_seqnum-signature :
    (seq_num : ℤ) (id : String) (f : ℕ)
    → signature id ≡ some f
    → (t : Timestamp) × (get_lamport_timestamp_from_seqnum seq_num id ≡ some t) × (frac t ≡ f)
unfolding signature
get_lamport_timestamp_from_seqnum-signature seq_num id f h =
    let (t, e, g) = frac_of-some (id_fraction id) f h in
    (
      of_int seq_num +ℤ t,
      unfold get_lamport_timestamp_from_seqnum in ground arith,
      frac-of_int_add seq_num t ∙ g,
    )

pub frac-max : (a b : Timestamp) (f : ℕ) → frac a ≡ f → frac b ≡ f → frac (max_ℤ a b) ≡ f
frac-max a b f h k = ground arith

-- The id of a timestamp that was made has its signature.
pub signature-get_lamport_timestamp_from_seqnum :
    (seq_num : ℤ) (id : String) (t : Timestamp)
    → get_lamport_timestamp_from_seqnum seq_num id ≡ some t
    → signature id ≡ some (frac t)
unfolding get_lamport_timestamp_from_seqnum signature
signature-get_lamport_timestamp_from_seqnum seq_num id t h = elim (Option-cases (id_fraction id)) [
  | inl e ↦ absurd (ground (arith, e))
  | inr (f, e) ↦
      rw (e, signature)
        (ap some
          (sym (frac-of_int_add seq_num f) ∙ ap frac (some-injective _ _ (ground (arith, e)))))
]
