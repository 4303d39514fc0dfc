-- ===== src/Strconv/Utf8/Laws.antt =====
-- Decoding and encoding of runes undo one another.
use mysql_replay.Base.{
  ℕ, ◌<◌, ◌≤◌, true, [], ◌∷◌, ◌++◌, ◌≡◌, ◌⊎◌, inl, inr, ◌&&◌, refl, arith, Bytes, ltb, take, length,
  Bool-cases,
}
use mysql_replay.Strconv.Utf8.{
  decode_rune, encode_valid, decode_two, decode_three, decode_four, invalid, valid_rune, accepts,
  is_continuation,
}

-- What a successful decoding read: a valid rune, whose encoding is the bytes read.
pub record Reads (s : Bytes) (r w : ℕ) : Type 0 where
  pub valid : valid_rune r ≡ true
  pub bytes : encode_valid r ≡ take w s
  pub width : 1 ≤ w

module _ (a : ℕ) where
  two :
      (s : Bytes)
      → 0xc2 ≤ a
      → a < 0xe0
      → (decode_two a s ≡ invalid) ⊎ Reads (a ∷ s) (decode_two a s).0 (decode_two a s).1
  unfolding decode_two encode_valid
  two [] p q = inl refl
  two (b ∷ s) p q = elim (Bool-cases (ltb b 0x80)) [
    | inl e ↦ inl (ground arith)
    | inr e ↦ elim (Bool-cases (ltb 0xbf b)) [
      | inl f ↦ inl (ground arith)
      | inr f ↦ inr (record { valid = ground arith; bytes = ground arith; width = ground arith })
    ]
  ]

  three :
      (s : Bytes)
      → 0xe0 ≤ a
      → a < 0xf0
      → (decode_three a s ≡ invalid) ⊎ Reads (a ∷ s) (decode_three a s).0 (decode_three a s).1
  unfolding decode_three encode_valid
  three [] p q = inl refl
  three (b ∷ []) p q = inl refl
  three (b ∷ c ∷ s) p q = elim (Bool-cases (accepts a b && is_continuation c)) [
    | inl e ↦
        inr (rw e (record { valid = ground arith; bytes = ground arith; width = ground arith }))
    | inr e ↦ inl (rw e)
  ]

  four :
      (s : Bytes)
      → 0xf0 ≤ a
      → a < 0xf5
      → (decode_four a s ≡ invalid) ⊎ Reads (a ∷ s) (decode_four a s).0 (decode_four a s).1
  unfolding decode_four encode_valid
  four [] p q = inl refl
  four (b ∷ []) p q = inl refl
  four (b ∷ c ∷ []) p q = inl refl
  four (b ∷ c ∷ d ∷ s) p q =
      elim (Bool-cases (accepts a b && is_continuation c && is_continuation d)) [
        | inl e ↦
            inr (rw e (record { valid = ground arith; bytes = ground arith; width = ground arith }))
        | inr e ↦ inl (rw e)
      ]

-- At a byte that begins no rune decoding gives `invalid`; else it reads a valid rune.
pub decode_rune_cases :
    (a : ℕ) (s : Bytes)
    → (decode_rune (a ∷ s) ≡ invalid)
      ⊎ Reads (a ∷ s) (decode_rune (a ∷ s)).0 (decode_rune (a ∷ s)).1
unfolding decode_rune
decode_rune_cases a s = elim (Bool-cases (ltb a 0x80)) [
  | inl e ↦ rw e (
      inr (
        unfold encode_valid in
        record { valid = ground arith; bytes = ground arith; width = omega arith }))
  | inr e ↦ rw e (elim (Bool-cases (ltb a 0xc2)) [
    | inl f ↦ rw f (inl refl)
    | inr f ↦ rw f (elim (Bool-cases (ltb a 0xe0)) [
      | inl g ↦ rw g (two a s (ground arith) (ground arith))
      | inr g ↦ rw g (elim (Bool-cases (ltb a 0xf0)) [
        | inl h ↦ rw h (three a s (ground arith) (ground arith))
        | inr h ↦ rw h (elim (Bool-cases (ltb a 0xf5)) [
          | inl k ↦ rw k (four a s (ground arith) (ground arith))
          | inr k ↦ rw k (inl refl)
        ])
      ])
    ])
  ])
]

-- A valid rune is read back from its encoding, whatever follows.
pub decode_rune-encode_valid :
    (r : ℕ) (t : Bytes)
    → valid_rune r ≡ true
    → decode_rune (encode_valid r ++ t) ≡ (r, length (encode_valid r))
unfolding decode_rune encode_valid
decode_rune-encode_valid r t v = elim (Bool-cases (ltb r 0x80)) [
  | inl e ↦ rw e (rw e)
  | inr e ↦ rw e (elim (Bool-cases (ltb r 0x800)) [
    | inl f ↦ rw f (ground arith)
    | inr f ↦ rw f (elim (Bool-cases (ltb r 0x10000)) [
      | inl g ↦ rw g (ground arith)
      | inr g ↦ rw g (ground arith)
    ])
  ])
]
