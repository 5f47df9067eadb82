-- ===== src/Master/Addresses.antt =====
-- The texts of master.go for ports: strconv.Itoa, and the addresses made from it.
use Prim.Native.Char.{Char, code}
use Prim.Native.String.{◌++◌}
use text.Mathlib.TextLemmas.{append_cancel_left, cons-append, nil-append}
use psk_db.Prelude.{
  ℕ, zero, suc, ◌+◌, ◌-◌, ◌*◌, ◌/◌, ◌%◌, ◌<◌, String, ◌≡◌, sym, ap, ◌∙◌, arith, Bool-cases, ltb,
  inl, inr,
}
use psk_db.Master.State.{digit, itoa_loop, itoa, local_address}

-- The number that the digits of a text stand for, after those that make up `before`.
read : ℕ → String → ℕ
read before String.[] = before
read before (String.◌∷◌ c text) = read (before * 10 + (code c - 48)) text

read-cons :
    (before : ℕ) (c : Char) (text : String)
    → read before (String.◌∷◌ c String.[] ++ text) ≡ read (before * 10 + (code c - 48)) text
unfolding read
read-cons before c text =
    ap (read before) (cons-append c String.[] text ∙ ap (String.◌∷◌ c) (nil-append text))

read-digit :
    (before d : ℕ) (text : String)
    → d < 10
    → read before (digit d ++ text) ≡ read (before * 10 + d) text
read-digit before zero text h = read-cons before "0" text
read-digit before (suc zero) text h = read-cons before "1" text
read-digit before (suc (suc zero)) text h = read-cons before "2" text
read-digit before (suc (suc (suc zero))) text h = read-cons before "3" text
read-digit before (suc (suc (suc (suc zero)))) text h = read-cons before "4" text
read-digit before (suc (suc (suc (suc (suc zero))))) text h = read-cons before "5" text
read-digit before (suc (suc (suc (suc (suc (suc zero)))))) text h = read-cons before "6" text
read-digit before (suc (suc (suc (suc (suc (suc (suc zero))))))) text h = read-cons before "7" text
read-digit before (suc (suc (suc (suc (suc (suc (suc (suc zero)))))))) text h =
    read-cons before "8" text
read-digit before (suc (suc (suc (suc (suc (suc (suc (suc (suc zero))))))))) text h =
    read-cons before "9" text
read-digit before (suc (suc (suc (suc (suc (suc (suc (suc (suc (suc n)))))))))) text h =
    absurd (omega arith)

read-itoa_loop :
    (fuel n : ℕ) (text : String) → n < fuel → read 0 (itoa_loop fuel n text) ≡ read n text
unfolding itoa_loop
read-itoa_loop zero n text h = absurd (omega arith)
read-itoa_loop (suc fuel) n text h = elim (Bool-cases (ltb n 10)) [
  | inl e ↦ rw e (read-digit 0 n text (ground arith) ∙ ap (λ k. read k text) (omega arith))
  | inr e ↦ rw e (
      read-itoa_loop fuel (n / 10) (digit (n % 10) ++ text) (ground arith)
      ∙ read-digit (n / 10) (n % 10) text (omega arith)
      ∙ ap (λ k. read k text) (omega arith))
]

read-itoa : (n : ℕ) → read 0 (itoa n) ≡ n
unfolding itoa read
read-itoa n = read-itoa_loop (suc n) n "" (omega arith)

pub local_address-injective : (p q : ℕ) → local_address p ≡ local_address q → p ≡ q
unfolding local_address
local_address-injective p q e =
    sym (read-itoa p) ∙ ap (read 0) (append_cancel_left "localhost:" _ _ e) ∙ read-itoa q
