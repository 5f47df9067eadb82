-- ===== src/Timestamp.antt =====
-- Lamport timestamps `time.pid` (server/server.go). Go keeps them in a `float64`; here they are
-- integers that count millionths.
pub mod Fraction
pub mod Collision
use Prim.Native.Char.{code}
use psk_db.Prelude.{
  ℕ, suc, ◌+◌, ◌-◌, ◌*◌, ◌/◌, ◌^◌, ℤ, pos, negsuc, sub_ℕ, ◌+ℤ◌, String, Bool, ◌&&◌, Option, none,
  some, List, [], ◌∷◌, leb, eqb, length, if◌then◌else◌,
}

abbrev pub Timestamp : Type 0
Timestamp = ℤ

-- Millionths in 1.0.
abbrev pub unit : ℕ
unit = 1_000_000

-- float64(n)
unfoldable pub of_int : ℤ → Timestamp
of_int (pos n) = pos (n * unit)
of_int (negsuc n) = sub_ℕ 0 (suc n * unit)

-- The literals 1.0 and -1.
abbrev pub one : Timestamp
one = pos 1_000_000

abbrev pub minus_one : Timestamp
minus_one = negsuc 999_999

-- int64(math.Floor(t))
unfoldable pub floor : Timestamp → ℤ
floor (pos n) = pos (n / unit)
floor (negsuc n) = negsuc (n / unit)

-- math.Ceil(t)
unfoldable pub ceil : Timestamp → Timestamp
ceil (pos n) = pos ((n + (unit - 1)) / unit * unit)
ceil (negsuc n) = sub_ℕ 0 (suc n / unit * unit)

abbrev pub codes : String → List ℕ
codes String.[] = []
codes (String.◌∷◌ c s) = code c ∷ codes s

abbrev pub is_digit : ℕ → Bool
is_digit c = leb b'0' c && leb c b'9'

-- The digits of a number, most significant first.
unfoldable pub digits : ℕ → List ℕ → Option ℕ
digits n [] = some n
digits n (c ∷ cs) = let rest = digits (n * 10 + (c - b'0')) cs in if is_digit c then rest else none

-- At least one digit.
unfoldable pub number : List ℕ → Option ℕ
unfolding digits
number [] = none
number (c ∷ cs) = digits 0 (c ∷ cs)

abbrev pub max_int : ℕ
max_int = 2 ^ 63 - 1

abbrev non_negative : Option ℕ → Option ℤ
non_negative none = none
non_negative (some n) = if leb n max_int then some (pos n) else none

abbrev negative : Option ℕ → Option ℤ
negative none = none
negative (some n) = if leb n (max_int + 1) then some (sub_ℕ 0 n) else none

-- strconv.Atoi on the characters of the text
unfoldable pub atoi : List ℕ → Option ℤ
unfolding number
atoi [] = none
atoi (c ∷ cs) =
    if eqb c b'-'
    then negative (number cs)
    else if eqb c b'+'
    then non_negative (number cs)
    else non_negative (number (c ∷ cs))

-- num_id / math.Pow10(len(id)), to the millionth towards 0
unfoldable pub fraction : ℤ → ℕ → Timestamp
fraction (pos n) len = pos (n * unit / 10 ^ len)
fraction (negsuc n) len = sub_ℕ 0 (suc n * unit / 10 ^ len)

-- The part of a timestamp that names the server; `none` is the panic on a non-integer id.
unfoldable pub id_fraction : String → Option Timestamp
unfolding atoi fraction
id_fraction id = elim (atoi (codes id)) [
  | none ↦ none
  | some nid ↦ some (fraction nid (length (codes id)))
]

-- GetLamportTimestampFromSeqnum
unfoldable pub get_lamport_timestamp_from_seqnum : ℤ → String → Option Timestamp
unfolding id_fraction of_int
get_lamport_timestamp_from_seqnum seq_num id = elim (id_fraction id) [
  | none ↦ none
  | some num_id ↦ some (of_int seq_num +ℤ num_id)
]
