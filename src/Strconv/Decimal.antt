-- ===== src/Strconv/Decimal.antt =====
-- `strconv.AppendUint`, `AppendInt`, `ParseUint` and `ParseInt` at base 10 and 64 bits.
pub mod RoundTrip
use mysql_replay.Base.{
  ℕ, zero, suc, ◌+◌, ◌-◌, ◌*◌, ◌/◌, ◌%◌, ◌^◌, Bool, true, false, ◌||◌, [], ◌∷◌, Option, none, some,
  Bytes, ltb, leb, ◌==◌, if◌then◌else◌,
}
use mysql_replay.Base.Int.{ℤ, pos, negsuc}

abbrev pub max_u64 : ℕ
max_u64 = 2 ^ 64 - 1

-- The digits of `n` in front of `out`: a round for each, as long as `n` is not 0.
unfoldable pub digits : ℕ → ℕ → Bytes → Bytes
digits zero n out = out
digits (suc fuel) n out =
    let rest = digits fuel (n / 10) ((b'0' + n % 10) ∷ out) in if n == 0 then out else rest

-- Fuel `n + 1` is enough, since every round makes `n` smaller.
unfoldable pub format_uint : ℕ → Bytes
unfolding digits
format_uint n = if n == 0 then b'0' ∷ [] else digits (suc n) n []

unfoldable pub format_int : ℤ → Bytes
unfolding format_uint
format_int (pos n) = format_uint n
format_int (negsuc n) = b'-' ∷ format_uint (suc n)

abbrev pub is_digit : ℕ → Bool
is_digit c = if ltb c b'0' then false else leb c b'9'

-- The loop of `ParseUint`; `n * 10` and `n * 10 + d` are computed in `uint64`.
unfoldable pub scan_digits : Bytes → ℕ → Option ℕ
scan_digits [] n = some n
scan_digits (c ∷ s) n =
    let n10 = (n * 10) % 2 ^ 64 in
    let n1 = (n10 + (c - b'0')) % 2 ^ 64 in
    let rest = scan_digits s n1 in
    if is_digit c
    then (if leb (max_u64 / 10 + 1) n then none else if ltb n1 n10 then none else rest)
    else none

unfoldable pub parse_uint : Bytes → Option ℕ
unfolding scan_digits
parse_uint [] = none
parse_uint (c ∷ s) = scan_digits (c ∷ s) 0

abbrev pub cutoff : ℕ
cutoff = 2 ^ 63

-- The range check of `ParseInt` on the absolute value.
abbrev pub with_sign : Bool → Option ℕ → Option ℤ
with_sign negative none = none
with_sign true (some zero) = some (pos 0)
with_sign true (some (suc n)) = if ltb cutoff (suc n) then none else some (negsuc n)
with_sign false (some n) = if leb cutoff n then none else some (pos n)

unfoldable pub parse_int : Bytes → Option ℤ
unfolding parse_uint
parse_int [] = none
parse_int (c ∷ s) =
    if c == b'+'
    then with_sign false (parse_uint s)
    else if c == b'-'
    then with_sign true (parse_uint s)
    else with_sign false (parse_uint (c ∷ s))
