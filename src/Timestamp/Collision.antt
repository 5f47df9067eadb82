-- ===== src/Timestamp/Collision.antt =====
-- Two ids whose timestamps are the same (GetLamportTimestampFromSeqnum of server/server.go).
use Prim.Native.Char.{code}
use Prim.Native.String
use Prim.Native.String.append
use native.Mathlib.Nat.{pow-succ', div-div-eq-div-mul}
use psk_db.Prelude.{
  ℕ, suc, ◌+◌, ◌-◌, ◌*◌, ◌/◌, ◌^◌, ◌≤◌, ℤ, pos, String, ◌≡◌, refl, sym, ◌∙◌, ap, Option, none, some,
  List, [], ◌∷◌, ◌++◌, arith, length, length-append,
}
use psk_db.Timestamp.{
  unit, codes, digits, number, atoi, fraction, id_fraction, get_lamport_timestamp_from_seqnum,
  max_int,
}

abbrev times_ten : Option ℕ → Option ℕ
times_ten none = none
times_ten (some n) = some (n * 10)

digits-append_zero : (n : ℕ) (cs : List ℕ) → digits n (cs ++ b'0' ∷ []) ≡ times_ten (digits n cs)
unfolding digits
digits-append_zero n [] = ground arith
digits-append_zero n (c ∷ cs) = ground (arith, digits-append_zero (n * 10 + (c - b'0')) cs)

-- A number over a power of ten, both times ten.
fraction_scale : (n len : ℕ) → fraction (pos (n * 10)) (suc len) ≡ fraction (pos n) len
unfolding fraction
fraction_scale n len = ap pos (
    rw pow-succ' (
      sym (div-div-eq-div-mul (n * 10 * unit) 10 (10 ^ len))
      ∙ ap (λ k. k / 10 ^ len) (omega arith)))

codes-append_zero : (id : String) → codes (String.◌++◌ id "0") ≡ codes id ++ b'0' ∷ []
codes-append_zero String.[] = refl
codes-append_zero (String.◌∷◌ c s) =
    ap codes (λ i. append.cons c s "0" i) ∙ ap (◌∷◌ (code c)) (codes-append_zero s)

atoi-number : (cs : List ℕ) (n : ℕ) → number cs ≡ some n → n ≤ max_int → atoi cs ≡ some (pos n)
unfolding atoi number digits
atoi-number [] n h fits = absurd (ground arith)
atoi-number (c ∷ cs) n h fits = ground arith

number-append_zero :
    (cs : List ℕ) (n : ℕ) → number cs ≡ some n → number (cs ++ b'0' ∷ []) ≡ some (n * 10)
unfolding number
number-append_zero [] n h = absurd (ground arith)
number-append_zero (c ∷ cs) n h = digits-append_zero 0 (c ∷ cs) ∙ rw h

id_fraction-number :
    (id : String) (n : ℕ)
    → number (codes id) ≡ some n
    → n ≤ max_int
    → id_fraction id ≡ some (fraction (pos n) (length (codes id)))
unfolding id_fraction
id_fraction-number id n h fits = rw (atoi-number (codes id) n h fits, id_fraction)

length-append_zero : (id : String) → length (codes (String.◌++◌ id "0")) ≡ suc (length (codes id))
length-append_zero id =
    ap length (codes-append_zero id) ∙ length-append (codes id) (b'0' ∷ []) ∙ omega arith

-- An id of digits and the same id with one more 0 at its end give the same timestamp for every
-- sequence number, as long as the longer one fits an int.
pub get_lamport_timestamp_from_seqnum-append_zero :
    (id : String) (n : ℕ) (seq_num : ℤ)
    → number (codes id) ≡ some n
    → n * 10 ≤ max_int
    → get_lamport_timestamp_from_seqnum seq_num (String.◌++◌ id "0")
      ≡ get_lamport_timestamp_from_seqnum seq_num id
unfolding get_lamport_timestamp_from_seqnum
get_lamport_timestamp_from_seqnum-append_zero id n seq_num h fits =
    let longer : id_fraction (String.◌++◌ id "0") ≡ id_fraction id =
      id_fraction-number (String.◌++◌ id "0") (n * 10)
        (rw codes-append_zero (number-append_zero (codes id) n h)) fits
      ∙ rw length-append_zero (ap some (fraction_scale n (length (codes id))))
      ∙ sym (id_fraction-number id n h (omega arith)) in
    rw (longer, get_lamport_timestamp_from_seqnum)
