-- ===== src/Stream/Params.antt =====
-- stream/mysql.go: `parseExecParams`, the values of a statement's parameters in the binary protocol.
-- An index beyond the data's length is a panic, and so is a slice beyond its capacity; `spare` is what
-- stands in the buffer behind the data, up to that capacity.
pub mod FieldType
pub mod Laws
pub mod LenEnc
pub mod RoundTrip
pub mod Sequence
pub mod Temporal
pub mod Wire
use mysql_replay.Base.{
  ℕ, zero, suc, ◌+◌, ◌-◌, ◌*◌, ◌/◌, ◌%◌, ◌^◌, Bool, true, false, ◌||◌, List, [], ◌∷◌, ◌++◌, Option,
  none, some, Bytes, codes, length, take, drop, get_elem?, set, replicate, ltb, leb, ◌==◌,
  if◌then◌else◌,
}
use mysql_replay.Base.Int.{ℤ, pos, signed}
use mysql_replay.Base.Result.{Result, ok, err, panic, ◌>>=◌}
use mysql_replay.Event.Types.{Param, nil, i64, u64, str, f32, f64, bin}
use mysql_replay.Stream.Params.FieldType.{
  field_type_decimal, field_type_tiny, field_type_short, field_type_long, field_type_float,
  field_type_double, field_type_null, field_type_timestamp, field_type_long_long, field_type_int24,
  field_type_date, field_type_time, field_type_date_time, field_type_year, field_type_var_char,
  field_type_bit, field_type_new_decimal, field_type_enum, field_type_set, field_type_tiny_blob,
  field_type_medium_blob, field_type_long_blob, field_type_blob, field_type_var_string,
  field_type_string, field_type_geometry,
}
use mysql_replay.Stream.Params.LenEnc.{parse_length_encoded_bytes}
use mysql_replay.Stream.Params.Temporal.{
  Values, ParseError, malformed_types, malformed_values, malformed_packet, unknown_field_type, eof,
  Parsed, index, le_at, parse_binary_date, parse_binary_date_time, parse_binary_timestamp,
  parse_binary_time, parse_binary_time_with_ms,
}

-- `len(paramValues) < pos+n` is checked by the code.
abbrev need {ℓ} : {A : Type ℓ} → ℕ → Values → ℕ → Result ParseError A → Result ParseError A
need n v p r = if ltb (length v.text) (p + n) then err malformed_values else r

-- An integer of `n` bytes.
unfoldable pub parse_integer : ℕ → Bool → Values → ℕ → Parsed Param
parse_integer n unsigned v p =
    need n v p do x ← le_at n v p; ok ((if unsigned then u64 x else i64 (signed (8 * n) x)), p + n)

unfoldable pub parse_float : ℕ → (ℕ → Param) → Values → ℕ → Parsed Param
parse_float n make v p = need n v p do x ← le_at n v p; ok (make x, p + n)

abbrev as_text : Parsed Bytes → Parsed Param
as_text r = do t ← r; ok (str t.0, t.1)

unfoldable pub parse_date : Values → ℕ → Parsed Param
parse_date v p = need 1 v p do
  size ← index v.text p
  if size == 0
      then ok (str (codes "0000-00-00 00:00:00"), p + 1)
      else if size == 4
      then as_text (parse_binary_date (p + 1) v)
      else if size == 7
      then as_text (parse_binary_date_time (p + 1) v)
      else if size == 11
      then as_text (parse_binary_timestamp (p + 1) v)
      else err malformed_values

-- The sign byte, and the time behind it.
abbrev signed_time : (ℕ → Values → ℕ → Parsed Bytes) → Values → ℕ → Parsed Param
signed_time parse v p = do
  is_negative ← index v.text p
  if ltb 1 is_negative then err malformed_values else as_text (parse (p + 1) v is_negative)

-- A time of length 0 leaves the parameter as it was made: nil.
unfoldable pub parse_time : Values → ℕ → Parsed Param
parse_time v p = need 1 v p do
  size ← index v.text p
  if size == 0
      then ok (nil, p + 1)
      else if size == 8
      then signed_time parse_binary_time v (p + 1)
      else if size == 12
      then signed_time parse_binary_time_with_ms v (p + 1)
      else err malformed_values

abbrev pub or_nil : (Bytes → Param) → Option Bytes → Param
or_nil make none = nil
or_nil make (some s) = make s

unfoldable pub parse_bytes : (Bytes → Param) → Values → ℕ → Parsed Param
unfolding parse_length_encoded_bytes
parse_bytes make v p =
    need 1 v p do r ← parse_length_encoded_bytes (drop p v.text); ok (or_nil make r.0, p + r.1)

-- The switch on the field type.
unfoldable pub parse_value : ℕ → Bool → Values → ℕ → Parsed Param
unfolding parse_integer parse_float parse_date parse_time parse_bytes
parse_value tp unsigned v p =
    if tp == field_type_null
    then ok (nil, p)
    else if tp == field_type_tiny
    then parse_integer 1 unsigned v p
    else if tp == field_type_short || tp == field_type_year
    then parse_integer 2 unsigned v p
    else if tp == field_type_int24 || tp == field_type_long
    then parse_integer 4 unsigned v p
    else if tp == field_type_long_long
    then parse_integer 8 unsigned v p
    else if tp == field_type_float
    then parse_float 4 f32 v p
    else if tp == field_type_double
    then parse_float 8 f64 v p
    else if tp == field_type_date || tp == field_type_timestamp || tp == field_type_date_time
    then parse_date v p
    else if tp == field_type_time
    then parse_time v p
    else if tp == field_type_new_decimal
        || tp == field_type_decimal
        || tp == field_type_var_char
        || tp == field_type_var_string
    then parse_bytes str v p
    else if tp == field_type_string
        || tp == field_type_enum
        || tp == field_type_set
        || tp == field_type_geometry
        || tp == field_type_bit
    then parse_bytes str v p
    else if tp == field_type_blob
        || tp == field_type_tiny_blob
        || tp == field_type_medium_blob
        || tp == field_type_long_blob
    then parse_bytes bin v p
    else err unknown_field_type

-- `b & (1 << k) > 0`
abbrev pub has_bit : ℕ → ℕ → Bool
has_bit b k = b / 2 ^ k % 2 == 1

-- The loop over the parameters, `k` of them left; `params[i]` is nil before its round.
unfoldable pub parse_params :
    ℕ → ℕ → Bytes → Bytes → Values → ℕ → List Param → Result ParseError (List Param)
parse_params zero i nulls types v p params = ok params
parse_params (suc k) i nulls types v p params =
    let skipped = parse_params k (i + 1) nulls types v p params in
    do
      byte ← index nulls (i / 8)
      if has_bit byte (i % 8)
          then skipped
          else if leb (length types) (2 * i + 1)
          then err malformed_types
          else do
            tp ← index types (2 * i)
            flag ← index types (2 * i + 1)
            r ← parse_value tp (has_bit flag 7) v p
            parse_params k (i + 1) nulls types v r.1 (set params i r.0)

-- `recover`
abbrev pub recovered {ℓ} : {A : Type ℓ} → Result ParseError A → Result ParseError A
recovered panic = err malformed_packet
recovered r = r

unfoldable pub parse_exec_params : ℕ → Bytes → Bytes → Values → Result ParseError (List Param)
parse_exec_params n nulls types v = recovered (parse_params n 0 nulls types v 0 (replicate n nil))
