-- ===== src/Strconv/Utf8.antt =====
-- `utf8.DecodeRuneInString`, `utf8.AppendRune` and `utf8.ValidRune`.
pub mod Laws
use mysql_replay.Base.{
  ℕ, ◌+◌, ◌*◌, ◌/◌, ◌%◌, Bool, true, false, ◌&&◌, [], ◌∷◌, Bytes, ltb, leb, ◌==◌, if◌then◌else◌,
}

abbrev pub rune_error : ℕ
rune_error = 0xfffd

abbrev pub within : ℕ → ℕ → ℕ → Bool
within lo hi c = leb lo c && leb c hi

abbrev pub is_continuation : ℕ → Bool
is_continuation = within 0x80 0xbf

-- The rune and its width; an invalid first byte gives `rune_error` and width 1.
abbrev pub invalid : ℕ × ℕ
invalid = (rune_error, 1)

-- The range of the second byte behind the first byte `a` (`acceptRanges`).
abbrev pub accepts : ℕ → ℕ → Bool
accepts a =
    if a == 0xe0
    then within 0xa0 0xbf
    else if a == 0xed
    then within 0x80 0x9f
    else if a == 0xf0
    then within 0x90 0xbf
    else if a == 0xf4
    then within 0x80 0x8f
    else within 0x80 0xbf

pub decode_two : ℕ → Bytes → ℕ × ℕ
decode_two a (b ∷ s) = if is_continuation b then (a % 32 * 64 + b % 64, 2) else invalid
decode_two a _ = invalid

pub decode_three : ℕ → Bytes → ℕ × ℕ
decode_three a (b ∷ c ∷ s) =
    if accepts a b && is_continuation c then (a % 16 * 4096 + b % 64 * 64 + c % 64, 3) else invalid
decode_three a _ = invalid

pub decode_four : ℕ → Bytes → ℕ × ℕ
decode_four a (b ∷ c ∷ d ∷ s) =
    if accepts a b && is_continuation c && is_continuation d
    then (a % 8 * 262144 + b % 64 * 4096 + c % 64 * 64 + d % 64, 4)
    else invalid
decode_four a _ = invalid

unfoldable pub decode_rune : Bytes → ℕ × ℕ
unfolding decode_two decode_three decode_four
decode_rune [] = (rune_error, 0)
decode_rune (a ∷ s) =
    if ltb a 0x80
    then (a, 1)
    else if ltb a 0xc2
    then invalid
    else if ltb a 0xe0
    then decode_two a s
    else if ltb a 0xf0
    then decode_three a s
    else if ltb a 0xf5
    then decode_four a s
    else invalid

abbrev pub valid_rune : ℕ → Bool
valid_rune r = if ltb r 0xd800 then true else within 0xe000 0x10ffff r

-- The bytes of a valid rune.
unfoldable pub encode_valid : ℕ → Bytes
encode_valid r =
    if ltb r 0x80
    then r ∷ []
    else if ltb r 0x800
    then (0xc0 + r / 64) ∷ (0x80 + r % 64) ∷ []
    else if ltb r 0x10000
    then (0xe0 + r / 4096) ∷ (0x80 + r / 64 % 64) ∷ (0x80 + r % 64) ∷ []
    else (0xf0 + r / 262144) ∷ (0x80 + r / 4096 % 64) ∷ (0x80 + r / 64 % 64) ∷ (0x80 + r % 64) ∷ []

unfoldable pub encode_rune : ℕ → Bytes
unfolding encode_valid
encode_rune r = encode_valid (if valid_rune r then r else rune_error)
