-- ===== src/Stream/Reader/LenEnc.antt =====
-- stream/mysql.go: `readLenEncUint` and `parseLengthEncodedInt`, which read the same format, compared.
use mysql_replay.Base.{
  ℕ, ◌+◌, ◌*◌, ◌↔◌, false, ◌∷◌, ◌≡◌, refl, arith, Bytes, length, lt→ltb, le→ltb,
}
use mysql_replay.Base.Result.{ok}
use mysql_replay.Stream.Params.LenEnc.{LenEncInt, parse_length_encoded_int}
use mysql_replay.Stream.Reader.{read_len_enc_uint}

read_len_enc_uint-two :
    (a b : ℕ) (s : Bytes) → read_len_enc_uint (0xfc ∷ a ∷ b ∷ s) ≡ ok (256 * a + b, s)
unfolding read_len_enc_uint
read_len_enc_uint-two a b s =
    let value : (0 + a) * 256 + b ≡ 256 * a + b = omega arith in
    rw (le→ltb (length (a ∷ b ∷ s)) 2 (omega arith), value) refl

parse_length_encoded_int-two :
    (a b : ℕ) (s : Bytes)
    → parse_length_encoded_int (0xfc ∷ a ∷ b ∷ s)
      ≡ ok (record { num = a + 256 * b; is_null = false; size = 3 })
unfolding parse_length_encoded_int
parse_length_encoded_int-two a b s =
    let value : a + 256 * (b + 256 * 0) ≡ a + 256 * b = omega arith in
    rw (lt→ltb 2 (length (0xfc ∷ a ∷ b ∷ s)) (omega arith), value) refl

-- The numbers that the two functions read from the same bytes.
abbrev pub Agree : Bytes → Type 0
Agree s =
    (n : ℕ) × (rest : Bytes) × (l : LenEncInt) × (read_len_enc_uint s ≡ ok (n, rest))
    × (parse_length_encoded_int s ≡ ok l)
    × (l.num ≡ n)

-- The two readers of a length-encoded integer, on a two-byte integer with two different bytes, give
-- different numbers: they agree exactly where the two bytes are the same.
pub Agree-two : (a b : ℕ) (s : Bytes) → Agree (0xfc ∷ a ∷ b ∷ s) ↔ (a ≡ b)
Agree-two a b s = (
  same,
  λ e. (
    256 * a + b,
    s,
    _,
    read_len_enc_uint-two a b s,
    parse_length_encoded_int-two a b s,
    omega (arith, e),
  ),
)
  where
    same : Agree (0xfc ∷ a ∷ b ∷ s) → a ≡ b
    same (n, rest, l, f, g, e) =
        let left : 256 * a + b ≡ n = cc (f, read_len_enc_uint-two a b s) in
        let right : l.num ≡ a + 256 * b = cc (g, parse_length_encoded_int-two a b s) in
        omega (arith, left, right, e)
