-- ===== src/Strconv/Quote/Rune.antt =====
-- One rune of a quoted text is read back by `UnquoteChar`.
use mysql_replay.Base.{
  ℕ, suc, ◌+◌, ◌/◌, ◌%◌, ◌<◌, ◌≤◌, Bool, true, false, [], ◌∷◌, ◌++◌, ◌||◌, ◌&&◌, ◌≡◌, ◌≢◌, ◌∙◌, inl,
  inr, refl, sym, ap, arith, Bytes, Lacks, All, ltb, ◌==◌, length, take, Bool-cases, some,
  Option-cases, drop-length_append,
}
use mysql_replay.Strconv.Utf8.Laws.{decode_rune-encode_valid, decode_rune_cases}
use mysql_replay.Strconv.Utf8.{rune_error, decode_rune, valid_rune, encode_rune, encode_valid}
use mysql_replay.Strconv.Quote.{
  hex_digits, short_escape, is_print, long_escape, escape_control, append_escaped_rune, quote_rune,
  unquoted, unquote_char,
}
use mysql_replay.Strconv.Quote.HexEscape.{
  read_hex_two, read_hex_four, read_hex_eight, hex_digits-Lacks,
}

-- The piece `e` of a quoted text stands for `text`: `UnquoteChar` takes just `e` off.
pub record Escaped (e text : Bytes) : Type 0 where
  pub first : ℕ
  pub others : Bytes
  pub shape : e ≡ first ∷ others
  pub not_mark : first ≢ b'"'
  pub not_newline : first ≢ b'\n'
  pub no_tab : Lacks b'\t' e
  pub reads : (t : Bytes) → unquote_char b'"' (e ++ t) ≡ unquoted text t

byte_Escaped : (c : ℕ) → c < 256 → Escaped (b'\\' ∷ b'x' ∷ hex_digits 2 c) (c ∷ [])
byte_Escaped c h = record {
  first = b'\\';
  others = b'x' ∷ hex_digits 2 c;
  shape = refl;
  not_mark = omega arith;
  not_newline = omega arith;
  no_tab = (omega arith, (omega arith, hex_digits-Lacks 2 c));
  reads = λ t. unfold unquote_char in rw (read_hex_two c t h);
}

rune_Escaped_four :
    (r : ℕ)
    → r < 0x10000
    → valid_rune r ≡ true
    → Escaped (b'\\' ∷ b'u' ∷ hex_digits 4 r) (encode_valid r)
rune_Escaped_four r h v = record {
  first = b'\\';
  others = b'u' ∷ hex_digits 4 r;
  shape = refl;
  not_mark = omega arith;
  not_newline = omega arith;
  no_tab = (omega arith, (omega arith, hex_digits-Lacks 4 r));
  reads = λ t. unfold unquote_char in rw (read_hex_four r t h) (rw v);
}

rune_Escaped_eight :
    (r : ℕ)
    → r < 0x110000
    → valid_rune r ≡ true
    → Escaped (b'\\' ∷ b'U' ∷ hex_digits 8 r) (encode_valid r)
rune_Escaped_eight r h v = record {
  first = b'\\';
  others = b'U' ∷ hex_digits 8 r;
  shape = refl;
  not_mark = omega arith;
  not_newline = omega arith;
  no_tab = (omega arith, (omega arith, hex_digits-Lacks 8 r));
  reads = λ t. unfold unquote_char in rw (read_hex_eight r t h) (rw v);
}

-- A rune below 0x80 is one byte.
encode_valid_ascii : (r : ℕ) → r < 0x80 → encode_valid r ≡ r ∷ []
unfolding encode_valid
encode_valid_ascii r h = ground arith

long_escape-Escaped : (r : ℕ) → valid_rune r ≡ true → Escaped (long_escape r) (encode_valid r)
unfolding long_escape
long_escape-Escaped r v = elim (Bool-cases (ltb r b' ' || r == 0x7f)) [
  | inl e ↦ rw (e, encode_valid_ascii r (ground arith)) (byte_Escaped r (ground arith))
  | inr e ↦
      rw (e, v)
        (elim (Bool-cases (ltb r 0x10000)) [
          | inl f ↦ rw f (rune_Escaped_four r (ground arith) v)
          | inr f ↦ rw f (rune_Escaped_eight r (ground arith) v)
        ])
]

-- A control character with an escape of its own.
short_Escaped : (e r : ℕ) → short_escape r ≡ some e → Escaped (b'\\' ∷ e ∷ []) (encode_valid r)
unfolding short_escape
short_Escaped e r h = rw (encode_valid_ascii r (ground arith)) (record {
  first = b'\\';
  others = e ∷ [];
  shape = refl;
  not_mark = omega arith;
  not_newline = omega arith;
  no_tab = (omega arith, (ground arith, tt));
  reads = λ t. unfold unquote_char in ground arith;
})

marked_Escaped :
    (r : ℕ) → (r == b'"' || r == b'\\') ≡ true → Escaped (b'\\' ∷ r ∷ []) (encode_valid r)
marked_Escaped r h = rw (encode_valid_ascii r (ground arith)) (record {
  first = b'\\';
  others = r ∷ [];
  shape = refl;
  not_mark = omega arith;
  not_newline = omega arith;
  no_tab = (omega arith, (ground arith, tt));
  reads = λ t. unfold unquote_char in ground arith;
})

plain_Escaped :
    (r : ℕ)
    → (r == b'"' || r == b'\\') ≡ false
    → 0x20 ≤ r
    → r < 0x7f
    → Escaped (encode_valid r) (encode_valid r)
plain_Escaped r h lo hi = rw (encode_valid_ascii r (ground arith)) (record {
  first = r;
  others = [];
  shape = refl;
  not_mark = ground arith;
  not_newline = ground arith;
  no_tab = (ground arith, tt);
  reads = λ t. unfold unquote_char in ground arith;
})

-- The encoding of a longer rune has no byte below 0x80.
encode_valid_high :
    (r : ℕ)
    → 0x80 ≤ r
    → (a : ℕ) × (s : Bytes) × (encode_valid r ≡ a ∷ s) × (0x80 ≤ a) × All (λ b. 0x80 ≤ b) s
unfolding encode_valid
encode_valid_high r h = elim (Bool-cases (ltb r 0x800)) [
  | inl f ↦ (0xc0 + r / 64, (0x80 + r % 64) ∷ [], ground arith, omega arith, (omega arith, tt))
  | inr f ↦ elim (Bool-cases (ltb r 0x10000)) [
    | inl g ↦ (
      0xe0 + r / 4096,
      (0x80 + r / 64 % 64) ∷ (0x80 + r % 64) ∷ [],
      ground arith,
      omega arith,
      (omega arith, (omega arith, tt)),
    )
    | inr g ↦ (
      0xf0 + r / 262144,
      (0x80 + r / 4096 % 64) ∷ (0x80 + r / 64 % 64) ∷ (0x80 + r % 64) ∷ [],
      ground arith,
      omega arith,
      (omega arith, (omega arith, (omega arith, tt))),
    )
  ]
]

high-Lacks : (s : Bytes) → All (λ b. 0x80 ≤ b) s → Lacks b'\t' s
high-Lacks [] h = tt
high-Lacks (c ∷ s) h = (omega arith, high-Lacks s h.1)

unquote_char_multi :
    (a r : ℕ) (s t : Bytes)
    → 0x80 ≤ a
    → valid_rune r ≡ true
    → encode_valid r ≡ a ∷ s
    → decode_rune (a ∷ (s ++ t)) ≡ (r, suc (length s))
    → unquote_char b'"' (a ∷ (s ++ t)) ≡ unquoted (a ∷ s) t
unfolding unquote_char encode_rune
unquote_char_multi a r s t h v e d = ground (arith, drop-length_append s t)

high_Escaped : (r : ℕ) → 0x80 ≤ r → valid_rune r ≡ true → Escaped (encode_valid r) (encode_valid r)
high_Escaped r h v =
    let (a, s, e, ha, hs) = encode_valid_high r h in
    rw e (record {
      first = a;
      others = s;
      shape = refl;
      not_mark = omega arith;
      not_newline = omega arith;
      no_tab = (omega arith, high-Lacks s hs);
      reads = λ t. unquote_char_multi a r s t ha v e (rw e at (decode_rune-encode_valid r t v));
    })

error_long : (c : ℕ) (s : Bytes) → encode_valid rune_error ≢ take 1 (c ∷ s)
unfolding encode_valid
error_long c s e = omega (arith, ap length e)

not_error :
    (r w c : ℕ) (s : Bytes) → encode_valid r ≡ take w (c ∷ s) → (w == 1 && r == rune_error) ≡ false
not_error r w c s e = elim (Bool-cases (w == 1 && r == rune_error)) [
  | inl h ↦
      let ew : w ≡ 1 = ground arith in
      let er : r ≡ rune_error = ground arith in
      absurd (error_long c s (sym (ap encode_valid er) ∙ e ∙ ap (λ k. take k (c ∷ s)) ew))
  | inr h ↦ h
]

module _ (table : ℕ → Bool) where
  print_Escaped :
      (r : ℕ)
      → (r == b'"' || r == b'\\') ≡ false
      → is_print table r ≡ true
      → valid_rune r ≡ true
      → Escaped (encode_valid r) (encode_valid r)
  unfolding is_print
  print_Escaped r h p v = elim (Bool-cases (ltb r 0x80)) [
    | inl e ↦ plain_Escaped r h (ground arith) (ground arith)
    | inr e ↦ high_Escaped r (ground arith) v
  ]

  control_Escaped :
      (r : ℕ) → valid_rune r ≡ true → Escaped (escape_control (short_escape r) r) (encode_valid r)
  unfolding escape_control
  control_Escaped r v = elim (Option-cases (short_escape r)) [
    | inl e ↦ rw (e, escape_control) (long_escape-Escaped r v)
    | inr (c, e) ↦ rw (e, escape_control) (short_Escaped c r e)
  ]

  append_escaped_rune-Escaped :
      (r : ℕ) → valid_rune r ≡ true → Escaped (append_escaped_rune table r) (encode_valid r)
  unfolding append_escaped_rune encode_rune
  append_escaped_rune-Escaped r v = elim (Bool-cases (r == b'"' || r == b'\\')) [
    | inl e ↦ rw e (marked_Escaped r e)
    | inr e ↦ rw e (elim (Bool-cases (is_print table r)) [
      | inl p ↦ rw (p, v) (print_Escaped r e p v)
      | inr p ↦ rw p (control_Escaped r v)
    ])
  ]

  -- The piece that is written at the byte `c` stands for the bytes of the rune that begins there.
  pub quote_rune-Escaped :
      (c : ℕ) (s : Bytes)
      → c < 256
      → Escaped (quote_rune table c (decode_rune (c ∷ s))) (take (decode_rune (c ∷ s)).1 (c ∷ s))
  unfolding quote_rune
  quote_rune-Escaped c s h = elim (decode_rune_cases c s) [
    | inl e ↦ rw e (byte_Escaped c h)
    | inr d ↦ rw (not_error _ _ c s d.bytes, ← d.bytes) (append_escaped_rune-Escaped _ d.valid)
  ]
