-- ===== src/Strconv/Hex.antt =====
-- `hex.EncodeToString` and `hex.DecodeString`.
use mysql_replay.Base.{
  ℕ, ◌+◌, ◌-◌, ◌*◌, ◌/◌, ◌%◌, ◌<◌, Bool, ◌&&◌, [], ◌∷◌, Option, none, some, ◌≡◌, refl, arith, Bytes,
  All, ltb, leb, if◌then◌else◌,
}

-- `hextable[d]`.
unfoldable pub hex_digit : ℕ → ℕ
hex_digit d = if ltb d 10 then b'0' + d else b'a' + (d - 10)

unfoldable pub encode_hex : Bytes → Bytes
unfolding hex_digit
encode_hex [] = []
encode_hex (c ∷ s) = hex_digit (c / 16) ∷ hex_digit (c % 16) ∷ encode_hex s

abbrev within : ℕ → ℕ → ℕ → Bool
within lo hi c = leb lo c && leb c hi

-- `fromHexChar`.
unfoldable pub from_hex_char : ℕ → Option ℕ
from_hex_char c =
    if within b'0' b'9' c
    then some (c - b'0')
    else if within b'a' b'f' c
    then some (c - b'a' + 10)
    else if within b'A' b'F' c
    then some (c - b'A' + 10)
    else none

join : Option ℕ → Option ℕ → Option Bytes → Option Bytes
join (some a) (some b) (some rest) = some ((a * 16 + b) ∷ rest)
join _ _ _ = none

-- An odd length is an error, as is a byte that is no hexadecimal digit.
unfoldable pub decode_hex : Bytes → Option Bytes
unfolding from_hex_char join
decode_hex [] = some []
decode_hex (c ∷ []) = none
decode_hex (c ∷ d ∷ s) = join (from_hex_char c) (from_hex_char d) (decode_hex s)

pub from_hex_char-hex_digit : (d : ℕ) → d < 16 → from_hex_char (hex_digit d) ≡ some d
unfolding from_hex_char hex_digit
from_hex_char-hex_digit d h = ground arith

-- Bytes are read back from their hexadecimal print.
pub decode_hex-encode_hex : (s : Bytes) → All (λ c. c < 256) s → decode_hex (encode_hex s) ≡ some s
unfolding encode_hex decode_hex join
decode_hex-encode_hex [] h = refl
decode_hex-encode_hex (c ∷ s) h = ground (
  arith,
  from_hex_char-hex_digit (c / 16),
  from_hex_char-hex_digit (c % 16),
  decode_hex-encode_hex s h.1,
)

hex_digit-lt : (d : ℕ) → d < 16 → hex_digit d < 256
unfolding hex_digit
hex_digit-lt d h = ground arith

-- The print is ASCII, whatever stands in the bytes' place.
pub encode_hex-IsBytes : (s : Bytes) → All (λ c. c < 256) s → All (λ c. c < 256) (encode_hex s)
unfolding encode_hex
encode_hex-IsBytes [] h = tt
encode_hex-IsBytes (c ∷ s) h = (
  hex_digit-lt (c / 16) (omega arith),
  (hex_digit-lt (c % 16) (omega arith), encode_hex-IsBytes s h.1),
)
