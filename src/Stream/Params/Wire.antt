-- ===== src/Stream/Params/Wire.antt =====
-- The values of the binary protocol that a client writes for NULL, 64-bit integers, floats, and short texts
-- and blobs, and how `parseExecParams` reads one of them.

use mysql_replay.Base.{
  At, ℕ, zero, suc, ◌+◌, ◌-◌, ◌/◌, ◌%◌, ◌^◌, ◌≤◌, ◌<◌, true, false, List, [], ◌∷◌, ◌++◌,
  append_assoc, some, ◌≡◌, refl, sym, ap, arith, Bytes, length, length-append, take, drop,
  take-length_append, leb, le→ltb, ne→==,
}
use mysql_replay.Base.Int.{ℤ, pos, negsuc, signed, IsI64}
use mysql_replay.Base.Result.{Result, ok, ◌>>=◌}
use mysql_replay.Event.Types.{Param, nil, i64, u64, str, f32, f64, bin, unsupported}
use mysql_replay.Stream.Params.FieldType.{
  field_type_null, field_type_long_long, field_type_float, field_type_double, field_type_var_string,
  field_type_blob,
}
use mysql_replay.Stream.Params.LenEnc.{
  parse_length_encoded_int, length_encoded, parse_length_encoded_bytes,
}
use mysql_replay.Stream.Params.Temporal.{Values, ParseError, le_at}
use mysql_replay.Stream.Params.{has_bit, need, parse_integer, parse_float, parse_value, parse_bytes}
use mysql_replay.Stream.Reader.{little_endian}

-- The lowest `n` bytes of a number.
abbrev pub le_bytes : ℕ → ℕ → Bytes
le_bytes zero x = []
le_bytes (suc n) x = x % 256 ∷ le_bytes n (x / 256)

length-le_bytes : (n x : ℕ) → length (le_bytes n x) ≡ n
length-le_bytes zero x = refl
length-le_bytes (suc n) x = ap suc (length-le_bytes n (x / 256))

-- The two's complement pattern of 64 bits.
abbrev pub pattern64 : ℤ → ℕ
pattern64 (pos n) = n
pattern64 (negsuc n) = 2 ^ 64 - n - 1

little_endian-le_bytes_eight : (x : ℕ) → x < 2 ^ 64 → little_endian (le_bytes 8 x) ≡ x
little_endian-le_bytes_eight x h = omega arith

little_endian-le_bytes_four : (x : ℕ) → x < 2 ^ 32 → little_endian (le_bytes 4 x) ≡ x
little_endian-le_bytes_four x h = omega arith

signed-pattern64 : (a : ℤ) → IsI64 a → signed 64 (pattern64 a) ≡ a
signed-pattern64 (pos n) h = ground arith
signed-pattern64 (negsuc n) h =
    let x = 2 ^ 64 - n - 1 in
    let back : 2 ^ 64 - x - 1 ≡ n = omega (arith, h.1) in
    rw (le→ltb x (2 ^ 63) (omega (arith, h.1)), back) refl

pattern64-lt : (a : ℤ) → IsI64 a → pattern64 a < 2 ^ 64
pattern64-lt (pos n) h = omega (arith, h.0)
pattern64-lt (negsuc n) h = omega arith

-- The parameters that are written here.
abbrev pub IsWire : Param → Type 0
IsWire nil = Unit
IsWire (i64 a) = IsI64 a
IsWire (u64 n) = n < 2 ^ 64
IsWire (f32 x) = x < 2 ^ 32
IsWire (f64 x) = x < 2 ^ 64
IsWire (str s) = length s ≤ 250
IsWire (bin s) = length s ≤ 250
IsWire unsupported = ⊥

abbrev pub wire_type : Param → ℕ
wire_type (i64 a) = field_type_long_long
wire_type (u64 n) = field_type_long_long
wire_type (f32 x) = field_type_float
wire_type (f64 x) = field_type_double
wire_type (str s) = field_type_var_string
wire_type (bin s) = field_type_blob
wire_type _ = field_type_null

-- The flag of an unsigned type.
abbrev pub wire_flag : Param → ℕ
wire_flag (u64 n) = 128
wire_flag _ = 0

abbrev pub wire_value : Param → Bytes
wire_value (i64 a) = le_bytes 8 (pattern64 a)
wire_value (u64 n) = le_bytes 8 n
wire_value (f32 x) = le_bytes 4 x
wire_value (f64 x) = le_bytes 8 x
wire_value (str s) = length s ∷ s
wire_value (bin s) = length s ∷ s
wire_value _ = []

abbrev pub wire_types : List Param → Bytes
wire_types [] = []
wire_types (p ∷ ps) = wire_type p ∷ wire_flag p ∷ wire_types ps

abbrev pub wire_values : List Param → Bytes
wire_values [] = []
wire_values (p ∷ ps) = wire_value p ++ wire_values ps

drop-append_left : (p : ℕ) (s t : Bytes) → p ≤ length s → drop p (s ++ t) ≡ drop p s ++ t
drop-append_left zero s t h = refl
drop-append_left (suc p) [] t h = absurd (omega arith)
drop-append_left (suc p) (c ∷ s) t h = drop-append_left p s t (omega arith)

-- The bytes at a position, as one number.
le_at-At :
    (v : Values) (p n : ℕ) (w rest : Bytes)
    → At v.text p (w ++ rest)
    → length w ≡ n
    → le_at n v p ≡ ok (little_endian w)
unfolding le_at
le_at-At v p n w rest a size =
    let before : p ≤ length v.text = omega (arith, a.size) in
    let all = length-append v.text v.spare in
    let enough : leb (p + n) (length (v.text ++ v.spare)) ≡ true =
      ground (arith, a.size, length-append w rest, all) in
    let here : take n (drop p (v.text ++ v.spare)) ≡ w =
      rw (drop-append_left p v.text v.spare before, a.tail, append_assoc w rest v.spare, sym size)
        (take-length_append w (rest ++ v.spare)) in
    rw (enough, here) refl

need-At :
    {A : Type 0} (n : ℕ) (v : Values) (p : ℕ) (w rest : Bytes) (r : Result ParseError A)
    → At v.text p (w ++ rest)
    → length w ≡ n
    → need n v p r ≡ r
need-At n v p w rest r a size =
    rw (le→ltb (length v.text) (p + n) (omega (arith, a.size, size, length-append w rest))) refl

-- A text of up to 250 bytes, behind its length in one byte.
parse_length_encoded_bytes-short :
    (s rest : Bytes)
    → length s ≤ 250
    → parse_length_encoded_bytes (length s ∷ s ++ rest) ≡ ok (some s, 1 + length s)
unfolding parse_length_encoded_bytes parse_length_encoded_int length_encoded
parse_length_encoded_bytes-short [] rest h = refl
parse_length_encoded_bytes-short (c ∷ s) rest h =
    let n = length (c ∷ s) in
    let fits : leb (2 ^ 63) (n + 1) ≡ false = ground (arith, h) in
    let whole : leb (1 + n) (length (n ∷ c ∷ s ++ rest)) ≡ true =
      ground (arith, length-append s rest) in
    rw
      (
        ne→== n 0xfb (λ e. omega arith),
        ne→== n 0xfc (λ e. omega arith),
        ne→== n 0xfd (λ e. omega arith),
        ne→== n 0xfe (λ e. omega arith),
        ◌>>=◌,
        length_encoded,
        ne→== n 0 (λ e. omega arith),
        fits,
        whole,
        take-length_append s rest,
      )
      refl

parse_bytes-At :
    (make : Bytes → Param) (s : Bytes) (v : Values) (p : ℕ) (rest : Bytes)
    → length s ≤ 250
    → At v.text p (length s ∷ s ++ rest)
    → parse_bytes make v p ≡ ok (make s, p + suc (length s))
unfolding parse_bytes
parse_bytes-At make s v p rest h a =
    rw
      (
        parse_bytes,
        need-At 1 v p (length s ∷ []) (s ++ rest) _ a refl,
        a.tail,
        parse_length_encoded_bytes-short s rest h,
        (let one : 1 + length s ≡ suc (length s) = omega arith in one),
      )
      refl

-- One value is read back, and the position moves behind it.
pub parse_value-wire_value :
    (q : Param) (v : Values) (p : ℕ) (rest : Bytes)
    → IsWire q
    → At v.text p (wire_value q ++ rest)
    → parse_value (wire_type q) (has_bit (wire_flag q) 7) v p ≡ ok (q, p + length (wire_value q))
unfolding parse_value parse_integer parse_float
parse_value-wire_value nil v p rest h a = let z : p + 0 ≡ p = omega arith in rw z refl
parse_value-wire_value (i64 x) v p rest h a =
    rw
      (
        parse_value,
        parse_integer,
        need-At 8 v p (le_bytes 8 (pattern64 x)) rest _ a refl,
        le_at-At v p 8 (le_bytes 8 (pattern64 x)) rest a refl,
        ◌>>=◌,
        little_endian-le_bytes_eight (pattern64 x) (pattern64-lt x h),
        signed-pattern64 x h,
      )
      refl
parse_value-wire_value (u64 n) v p rest h a =
    rw
      (
        parse_value,
        parse_integer,
        need-At 8 v p (le_bytes 8 n) rest _ a refl,
        le_at-At v p 8 (le_bytes 8 n) rest a refl,
        ◌>>=◌,
        little_endian-le_bytes_eight n h,
      )
      refl
parse_value-wire_value (f32 x) v p rest h a =
    rw
      (
        parse_value,
        parse_float,
        need-At 4 v p (le_bytes 4 x) rest _ a refl,
        le_at-At v p 4 (le_bytes 4 x) rest a refl,
        ◌>>=◌,
        little_endian-le_bytes_four x h,
      )
      refl
parse_value-wire_value (f64 x) v p rest h a =
    rw
      (
        parse_value,
        parse_float,
        need-At 8 v p (le_bytes 8 x) rest _ a refl,
        le_at-At v p 8 (le_bytes 8 x) rest a refl,
        ◌>>=◌,
        little_endian-le_bytes_eight x h,
      )
      refl
parse_value-wire_value (str s) v p rest h a =
    rw (parse_value, parse_bytes-At str s v p rest h a) refl
parse_value-wire_value (bin s) v p rest h a =
    rw (parse_value, parse_bytes-At bin s v p rest h a) refl
parse_value-wire_value unsupported v p rest h a = absurd h
