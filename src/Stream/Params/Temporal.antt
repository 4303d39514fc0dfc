-- ===== src/Stream/Params/Temporal.antt =====
-- stream/mysql.go: `parseBinaryDate` and the functions like it, with `fmt.Sprintf` of padded numbers.
use mysql_replay.Base.{
  ℕ, ◌+◌, ◌-◌, [], ◌∷◌, ◌++◌, none, some, Bytes, length, take, drop, get_elem?, replicate, leb,
  ◌==◌, if◌then◌else◌,
}
use mysql_replay.Base.Result.{Result, ok, panic, ◌>>=◌}
use mysql_replay.Strconv.Decimal.{format_uint}
use mysql_replay.Stream.Reader.{little_endian}

-- A `[]byte` with the bytes that its capacity has behind its length.
pub record Values : Type 0 where
  pub text : Bytes
  pub spare : Bytes

pub data ParseError : Type 0 where
  malformed_types malformed_values malformed_packet unknown_field_type eof : ParseError

-- A value, and the position behind it.
abbrev pub Parsed : Type 0 → Type 0
Parsed A = Result ParseError (A × ℕ)

-- `values[pos]`
abbrev pub index : Bytes → ℕ → Result ParseError ℕ
index s i = elim (get_elem? s i) [ none ↦ panic | some b ↦ ok b ]

-- The little-endian number in `values[pos : pos+n]`.
unfoldable pub le_at : ℕ → Values → ℕ → Result ParseError ℕ
le_at n v p =
    let all = v.text ++ v.spare in
    if leb (p + n) (length all) then ok (little_endian (take n (drop p all))) else panic

-- `%0wd`
pub padded : ℕ → ℕ → Bytes
padded w n = let s = format_uint n in replicate (w - length s) b'0' ++ s

unfoldable pub parse_binary_date : ℕ → Values → Parsed Bytes
parse_binary_date p v = do
  year ← le_at 2 v p
  month ← index v.text (p + 2)
  day ← index v.text (p + 3)
  ok (padded 4 year ++ (b'-' ∷ (padded 2 month ++ (b'-' ∷ padded 2 day))), p + 4)

-- Three bytes as hours, minutes and seconds.
unfoldable pub clock : ℕ → Values → Parsed Bytes
clock p v = do
  hour ← index v.text p
  minute ← index v.text (p + 1)
  second ← index v.text (p + 2)
  ok (padded 2 hour ++ (b':' ∷ (padded 2 minute ++ (b':' ∷ padded 2 second))), p + 3)

unfoldable pub parse_binary_date_time : ℕ → Values → Parsed Bytes
parse_binary_date_time p v = do
  date ← parse_binary_date p v
  time ← clock date.1 v
  ok (date.0 ++ (b' ' ∷ time.0), time.1)

-- Six digits behind a dot.
unfoldable pub with_micros : Bytes → ℕ → Values → Parsed Bytes
with_micros s p v = do micro_second ← le_at 4 v p; ok (s ++ (b'.' ∷ padded 6 micro_second), p + 4)

unfoldable pub parse_binary_timestamp : ℕ → Values → Parsed Bytes
parse_binary_timestamp p v = do
  date_time ← parse_binary_date_time p v
  with_micros date_time.0 date_time.1 v

unfoldable pub parse_binary_time : ℕ → Values → ℕ → Parsed Bytes
parse_binary_time p v is_negative = do
  days ← le_at 4 v p
  time ← clock (p + 4) v
  ok ((if is_negative == 1 then b'-' ∷ [] else []) ++ (format_uint days ++ (b' ' ∷ time.0)), time.1)

unfoldable pub parse_binary_time_with_ms : ℕ → Values → ℕ → Parsed Bytes
parse_binary_time_with_ms p v is_negative = do
  dur ← parse_binary_time p v is_negative
  with_micros dur.0 dur.1 v
