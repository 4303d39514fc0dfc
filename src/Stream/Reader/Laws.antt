-- ===== src/Stream/Reader/Laws.antt =====
-- stream/mysql.go: panics of the `read…` helpers, and what they read in front of a text.
use mysql_replay.Base.{
  Lacks, ne→==, ℕ, Bool, true, false, [], ◌∷◌, ◌++◌, ◌≡◌, inl, inr, refl, arith, Bytes, length, ltb,
  ◌==◌, if◌then◌else◌, Bool-cases, sym, le→ltb, length-append, take-length_append,
  drop-length_append,
}
use mysql_replay.Base.Int.{pos}
use mysql_replay.Base.Result.{Result, ok, err, panic}
use mysql_replay.Stream.Reader.{
  Failed, consed, little_endian, read_uint16, read_uint32, read_bytes_n, read_bytes_nul,
  read_len_enc_uint,
}

-- Read or refused.
abbrev pub Calm {ℓ κ} : {E : Type ℓ} {A : Type κ} → Result E A → Type 0
Calm (ok a) = Unit
Calm (err e) = Unit
Calm panic = ⊥

if-Calm : {A : Type 0} (b : Bool) (r : Result Failed A) → Calm r → Calm (if b then err tt else r)
if-Calm true r h = tt
if-Calm false r h = h

pub read_uint16-Calm : (s : Bytes) → Calm (read_uint16 s)
unfolding read_uint16
read_uint16-Calm s = if-Calm (ltb (length s) 2) _ tt

pub read_uint32-Calm : (s : Bytes) → Calm (read_uint32 s)
unfolding read_uint32
read_uint32-Calm s = if-Calm (ltb (length s) 4) _ tt

-- A number of bytes that is not negative.
pub read_bytes_n-Calm : (s : Bytes) (n : ℕ) → Calm (read_bytes_n s (pos n))
unfolding read_bytes_n
read_bytes_n-Calm s n = if-Calm (ltb (length s) n) _ tt

consed-Calm : (b : ℕ) (r : Result Failed (Bytes × Bytes)) → Calm r → Calm (consed b r)
consed-Calm b (ok a) h = tt
consed-Calm b (err e) h = tt
consed-Calm b panic h = h

pub read_bytes_nul-Calm : (s : Bytes) → Calm (read_bytes_nul s)
unfolding read_bytes_nul
read_bytes_nul-Calm [] = tt
read_bytes_nul-Calm (b ∷ s) = elim (Bool-cases (b == 0)) [
  | inl e ↦ rw e tt
  | inr e ↦ rw e (consed-Calm b (read_bytes_nul s) (read_bytes_nul-Calm s))
]

pub read_len_enc_uint-Calm : (s : Bytes) → Calm (read_len_enc_uint s)
unfolding read_len_enc_uint
read_len_enc_uint-Calm [] = tt
read_len_enc_uint-Calm (b ∷ s) = elim (Bool-cases (ltb b 0xfb)) [
  | inl e ↦ rw e tt
  | inr e ↦ rw e (elim (Bool-cases (b == 0xfc)) [
    | inl f ↦ rw f (if-Calm (ltb (length s) 2) _ tt)
    | inr f ↦ rw f (elim (Bool-cases (b == 0xfd)) [
      | inl g ↦ rw g (if-Calm (ltb (length s) 3) _ tt)
      | inr g ↦ rw g (elim (Bool-cases (b == 0xfe)) [
        | inl h ↦ rw h (if-Calm (ltb (length s) 8) _ tt)
        | inr h ↦ rw h tt
      ])
    ])
  ])
]

-- What stands in front is read, and the rest is left.
pub read_bytes_n-append :
    (w s : Bytes) (n : ℕ) → length w ≡ n → read_bytes_n (w ++ s) (pos n) ≡ ok (w, s)
unfolding read_bytes_n
read_bytes_n-append w s n e =
    rw
      (
        sym e,
        le→ltb (length (w ++ s)) (length w) (omega (arith, length-append w s)),
        take-length_append w s,
        drop-length_append w s,
      )
      refl

pub read_uint32-append :
    (w s : Bytes) → length w ≡ 4 → read_uint32 (w ++ s) ≡ ok (little_endian w, s)
unfolding read_uint32
read_uint32-append w s e =
    rw
      (
        sym e,
        le→ltb (length (w ++ s)) (length w) (omega (arith, length-append w s)),
        take-length_append w s,
        drop-length_append w s,
      )
      refl

pub read_uint16-append :
    (w s : Bytes) → length w ≡ 2 → read_uint16 (w ++ s) ≡ ok (little_endian w, s)
unfolding read_uint16
read_uint16-append w s e =
    rw
      (
        sym e,
        le→ltb (length (w ++ s)) (length w) (omega (arith, length-append w s)),
        take-length_append w s,
        drop-length_append w s,
      )
      refl

-- As far as the first zero.
pub read_bytes_nul-append : (w s : Bytes) → Lacks 0 w → read_bytes_nul (w ++ 0 ∷ s) ≡ ok (w, s)
unfolding read_bytes_nul
read_bytes_nul-append [] s h = refl
read_bytes_nul-append (b ∷ w) s h =
    rw (read_bytes_nul, ne→== b 0 h.0, read_bytes_nul-append w s h.1) refl
