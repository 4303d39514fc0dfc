-- ===== src/Strconv/Quote.antt =====
-- `strconv.AppendQuote` and `strconv.Unquote`. `strconv.IsPrint` of a rune above 0xff looks into a
-- generated table, which is a parameter.
pub mod HexEscape
pub mod Rune
pub mod RoundTrip
use mysql_replay.Base.{
  ℕ, zero, suc, ◌+◌, ◌-◌, ◌*◌, ◌/◌, ◌%◌, Bool, true, false, not, ◌&&◌, ◌||◌, [], ◌∷◌, ◌++◌, Option,
  none, some, Bytes, ltb, leb, ◌==◌, if◌then◌else◌, length, take, drop,
}
use mysql_replay.Strconv.Hex.{hex_digit, from_hex_char}
use mysql_replay.Strconv.Utf8.{rune_error, decode_rune, valid_rune, encode_rune, encode_valid}

-- The last `n` hexadecimal digits of `r`.
pub hex_digits : ℕ → ℕ → Bytes
hex_digits zero r = []
hex_digits (suc n) r = hex_digits n (r / 16) ++ hex_digit (r % 16) ∷ []

-- The escape of a control character, where it has one of its own.
pub short_escape : ℕ → Option ℕ
short_escape r =
    if r == 7
    then some b'a'
    else if r == 8
    then some b'b'
    else if r == 12
    then some b'f'
    else if r == 10
    then some b'n'
    else if r == 13
    then some b'r'
    else if r == 9
    then some b't'
    else if r == 11
    then some b'v'
    else none

module _ (table : ℕ → Bool) where
  pub is_print : ℕ → Bool
  is_print r =
      if leb r 0xff
      then (if leb 0x20 r && ltb r 0x7f then true else leb 0xa1 r && not (r == 0xad))
      else table r

-- The default case of `appendEscapedRune`.
pub long_escape : ℕ → Bytes
long_escape r =
    if ltb r b' ' || r == 0x7f
    then b'\\' ∷ b'x' ∷ hex_digits 2 r
    else let v = if valid_rune r then r else rune_error in
      if ltb v 0x10000 then b'\\' ∷ b'u' ∷ hex_digits 4 v else b'\\' ∷ b'U' ∷ hex_digits 8 v

pub escape_control : Option ℕ → ℕ → Bytes
escape_control (some e) r = b'\\' ∷ e ∷ []
escape_control none r = long_escape r

module _ (table : ℕ → Bool) where
  -- `appendEscapedRune` with the double quote.
  pub append_escaped_rune : ℕ → Bytes
  append_escaped_rune r =
      if r == b'"' || r == b'\\'
      then b'\\' ∷ r ∷ []
      else if is_print table r
      then encode_rune r
      else escape_control (short_escape r) r

  -- One round of `appendQuotedWith` at the byte `c`, which decodes to `r` of width `w`.
  pub quote_rune : ℕ → ℕ × ℕ → Bytes
  quote_rune c (r, w) =
      if w == 1 && r == rune_error then b'\\' ∷ b'x' ∷ hex_digits 2 c else append_escaped_rune r

  -- The loop; the first argument counts the bytes left of the rune that was read last.
  unfoldable pub quote_body : ℕ → Bytes → Bytes
  quote_body skip [] = []
  quote_body (suc skip) (c ∷ s) = quote_body skip s
  quote_body zero (c ∷ s) =
      let read = decode_rune (c ∷ s) in quote_rune c read ++ quote_body (read.1 - 1) s

  unfoldable pub quote : Bytes → Bytes
  quote s = b'"' ∷ (quote_body 0 s ++ b'"' ∷ [])

-- A result of `UnquoteChar`: the bytes that it stands for and the rest.
pub record Unquoted : Type 0 where
  pub text : Bytes
  pub rest : Bytes

abbrev pub unquoted : Bytes → Bytes → Option Unquoted
unquoted t s = some (record { text = t; rest = s })

-- The hexadecimal digits of an escape: exactly `n` of them.
unfoldable pub read_hex : ℕ → ℕ → Bytes → Option (ℕ × Bytes)
read_hex zero v s = some (v, s)
read_hex (suc n) v [] = none
read_hex (suc n) v (c ∷ s) = elim (from_hex_char c) [
  | none ↦ none
  | some d ↦ read_hex n (v * 16 + d) s
]

abbrev byte_escape : Option (ℕ × Bytes) → Option Unquoted
byte_escape none = none
byte_escape (some (v, s)) = unquoted (v ∷ []) s

abbrev rune_escape : Option (ℕ × Bytes) → Option Unquoted
rune_escape none = none
rune_escape (some (v, s)) = if valid_rune v then unquoted (encode_valid v) s else none

abbrev is_octal : ℕ → Bool
is_octal c = leb b'0' c && leb c b'7'

abbrev octal_value : ℕ → ℕ → ℕ → ℕ
octal_value c d e = (c - b'0') * 64 + (d - b'0') * 8 + (e - b'0')

pub octal_escape : ℕ → Bytes → Option Unquoted
octal_escape c (d ∷ e ∷ s) =
    if is_octal d && is_octal e && leb (octal_value c d e) 255
    then unquoted (octal_value c d e ∷ []) s
    else none
octal_escape c _ = none

pub control : ℕ → Option ℕ
control c =
    if c == b'a'
    then some 7
    else if c == b'b'
    then some 8
    else if c == b'f'
    then some 12
    else if c == b'n'
    then some 10
    else if c == b'r'
    then some 13
    else if c == b't'
    then some 9
    else if c == b'v'
    then some 11
    else none

-- The escapes that are no single control character.
pub other_escape : ℕ → ℕ → Bytes → Option Unquoted
other_escape mark c s =
    if c == b'x'
    then byte_escape (read_hex 2 0 s)
    else if c == b'u'
    then rune_escape (read_hex 4 0 s)
    else if c == b'U'
    then rune_escape (read_hex 8 0 s)
    else if is_octal c
    then octal_escape c s
    else if c == b'\\'
    then unquoted (b'\\' ∷ []) s
    else if (c == b'\'' || c == b'"') && c == mark
    then unquoted (c ∷ []) s
    else none

pub read_escape : ℕ → ℕ → Option ℕ → Bytes → Option Unquoted
read_escape mark c (some v) s = unquoted (v ∷ []) s
read_escape mark c none s = other_escape mark c s

pub after_backslash : ℕ → Bytes → Option Unquoted
unfolding control other_escape read_escape octal_escape
after_backslash mark [] = none
after_backslash mark (c ∷ s) = read_escape mark c (control c) s

-- `UnquoteChar` with the quoting mark `mark`, and what `Unquote` appends for its result.
unfoldable pub unquote_char : ℕ → Bytes → Option Unquoted
unfolding after_backslash
unquote_char mark [] = none
unquote_char mark (c ∷ s) =
    if c == mark
    then none
    else if leb 0x80 c
    then (let read = decode_rune (c ∷ s) in unquoted (encode_rune read.0) (drop read.1 (c ∷ s)))
    else if c == b'\\'
    then after_backslash mark s
    else unquoted (c ∷ []) s

-- The loop of `Unquote` up to the closing mark, which has to end the text. A line break is an error.
-- Every round takes a byte at least, so that the length of the text is enough fuel.
unfoldable pub unquote_body : ℕ → ℕ → Bytes → Option Bytes
unquote_body zero mark s = none
unquote_body (suc fuel) mark [] = none
unquote_body (suc fuel) mark (c ∷ s) =
    if c == mark
    then (if length s == 0 then some [] else none)
    else if c == b'\n'
    then none
    else elim (unquote_char mark (c ∷ s)) [
      | none ↦ none
      | some u ↦ elim (unquote_body fuel mark u.rest) [ none ↦ none | some t ↦ some (u.text ++ t) ]
    ]

-- Text in other marks than double quotes is left to `other`: `AppendQuote` does not write it.
unfoldable pub unquote : (Bytes → Option Bytes) → Bytes → Option Bytes
unfolding unquote_body
unquote other [] = other []
unquote other (c ∷ s) = if c == b'"' then unquote_body (length s) b'"' s else other (c ∷ s)
