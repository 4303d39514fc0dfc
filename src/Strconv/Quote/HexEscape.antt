-- ===== src/Strconv/Quote/HexEscape.antt =====
-- The hexadecimal digits of an escape are read back.
use mysql_replay.Base.{
  ℕ, suc, ◌+◌, ◌*◌, ◌/◌, ◌%◌, ◌<◌, ◌≤◌, ◌∷◌, ◌++◌, ◌≡◌, ◌∙◌, ap, arith, Bytes, Lacks, All-append,
  zero, some,
}
use mysql_replay.Strconv.Hex.{hex_digit, from_hex_char-hex_digit}
use mysql_replay.Strconv.Quote.{hex_digits, read_hex}

read_hex-hex_digit :
    (n v d : ℕ) (s : Bytes)
    → d < 16
    → read_hex (suc n) v (hex_digit d ∷ s) ≡ read_hex n (v * 16 + d) s
unfolding read_hex
read_hex-hex_digit n v d s h = rw (from_hex_char-hex_digit d h, read_hex)

hex_digit_bounds : (d : ℕ) → d < 16 → b'0' ≤ hex_digit d
unfolding hex_digit
hex_digit_bounds d h = ground arith

pub read_hex_two : (r : ℕ) (t : Bytes) → r < 256 → read_hex 2 0 (hex_digits 2 r ++ t) ≡ some (r, t)
unfolding hex_digits
read_hex_two r t h =
    read_hex-hex_digit 1 0 (r / 16 % 16) _ (omega arith)
    ∙ read_hex-hex_digit 0 _ (r % 16) _ (omega arith)
    ∙ (unfold read_hex in ap (λ v. some (v, t)) (omega arith))

pub read_hex_four :
    (r : ℕ) (t : Bytes) → r < 0x10000 → read_hex 4 0 (hex_digits 4 r ++ t) ≡ some (r, t)
unfolding hex_digits
read_hex_four r t h =
    read_hex-hex_digit 3 0 (r / 16 / 16 / 16 % 16) _ (omega arith)
    ∙ read_hex-hex_digit 2 _ (r / 16 / 16 % 16) _ (omega arith)
    ∙ read_hex-hex_digit 1 _ (r / 16 % 16) _ (omega arith)
    ∙ read_hex-hex_digit 0 _ (r % 16) _ (omega arith)
    ∙ (unfold read_hex in ap (λ v. some (v, t)) (omega arith))

pub read_hex_eight :
    (r : ℕ) (t : Bytes) → r < 0x110000 → read_hex 8 0 (hex_digits 8 r ++ t) ≡ some (r, t)
unfolding hex_digits
read_hex_eight r t h =
    read_hex-hex_digit 7 0 (r / 16 / 16 / 16 / 16 / 16 / 16 / 16 % 16) _ (omega arith)
    ∙ read_hex-hex_digit 6 _ (r / 16 / 16 / 16 / 16 / 16 / 16 % 16) _ (omega arith)
    ∙ read_hex-hex_digit 5 _ (r / 16 / 16 / 16 / 16 / 16 % 16) _ (omega arith)
    ∙ read_hex-hex_digit 4 _ (r / 16 / 16 / 16 / 16 % 16) _ (omega arith)
    ∙ read_hex-hex_digit 3 _ (r / 16 / 16 / 16 % 16) _ (omega arith)
    ∙ read_hex-hex_digit 2 _ (r / 16 / 16 % 16) _ (omega arith)
    ∙ read_hex-hex_digit 1 _ (r / 16 % 16) _ (omega arith)
    ∙ read_hex-hex_digit 0 _ (r % 16) _ (omega arith)
    ∙ (unfold read_hex in ap (λ v. some (v, t)) (omega arith))

pub hex_digits-Lacks : (n r : ℕ) → Lacks b'\t' (hex_digits n r)
unfolding hex_digits
hex_digits-Lacks zero r = tt
hex_digits-Lacks (suc n) r =
    All-append _ (hex_digits n (r / 16)) _ (hex_digits-Lacks n (r / 16))
      (omega (arith, hex_digit_bounds (r % 16) (omega arith)), tt)
