-- ===== src/Stream/Params/LenEnc.antt =====
-- stream/mysql.go: `parseLengthEncodedInt` and `parseLengthEncodedBytes`.
use mysql_replay.Base.{
  ℕ, ◌+◌, ◌^◌, Bool, true, false, [], Option, none, some, Bytes, length, take, drop, ltb, leb, ◌==◌,
  if◌then◌else◌,
}
use mysql_replay.Base.Result.{Result, ok, err, panic, ◌>>=◌}
use mysql_replay.Stream.Params.Temporal.{ParseError, eof, Parsed, index}
use mysql_replay.Stream.Reader.{little_endian}

-- `parseLengthEncodedInt`: the number, whether it is NULL, and how many bytes it took.
pub record LenEncInt : Type 0 where
  pub num : ℕ
  pub is_null : Bool
  pub size : ℕ

-- The bytes `b[1]` to `b[n]`, the lowest first.
abbrev le_after : ℕ → Bytes → Result ParseError LenEncInt
le_after n b =
    if ltb n (length b)
    then ok (record { num = little_endian (take n (drop 1 b)); is_null = false; size = n + 1 })
    else panic

unfoldable pub parse_length_encoded_int : Bytes → Result ParseError LenEncInt
parse_length_encoded_int b = do
  first ← index b 0
  if first == 0xfb
      then ok (record { num = 0; is_null = true; size = 1 })
      else if first == 0xfc
      then le_after 2 b
      else if first == 0xfd
      then le_after 3 b
      else if first == 0xfe
      then le_after 8 b
      else ok (record { num = first; is_null = false; size = 1 })

-- The result of `parseLengthEncodedBytes`: `none` is NULL.
abbrev pub or_null : Bool → Option Bytes
or_null true = none
or_null false = some []

-- `n += int(num)` is an `int`. Where it leaves that range, or `num` does, it is negative or too small
-- for the slice `b[n-int(num):n]`, which panics.
unfoldable pub length_encoded : LenEncInt → Bytes → Parsed (Option Bytes)
length_encoded l b =
    if l.num == 0
    then ok (or_null l.is_null, l.size)
    else if leb (2 ^ 63) (l.num + l.size)
    then panic
    else if leb (l.size + l.num) (length b)
    then ok (some (take l.num (drop l.size b)), l.size + l.num)
    else err eof

unfoldable pub parse_length_encoded_bytes : Bytes → Parsed (Option Bytes)
unfolding parse_length_encoded_int length_encoded
parse_length_encoded_bytes b = do l ← parse_length_encoded_int b; length_encoded l b
