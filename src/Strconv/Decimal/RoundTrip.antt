-- ===== src/Strconv/Decimal/RoundTrip.antt =====
-- The decimal print of a number is read back, and holds digits only.
use mysql_replay.Base.{
  ℕ, zero, suc, ◌+◌, ◌/◌, ◌%◌, ◌<◌, ◌≤◌, [], ◌∷◌, some, ◌≡◌, ◌≢◌, refl, arith, Bytes, All, false,
  inl, inr, Bool-cases, ◌==◌, Lacks,
}
use mysql_replay.Base.Int.{ℤ, pos, negsuc, IsI64}
use mysql_replay.Strconv.Decimal.{
  max_u64, digits, format_uint, format_int, scan_digits, parse_uint, parse_int, with_sign,
}

abbrev pub IsDigit : ℕ → Type 0
IsDigit c = (b'0' ≤ c) × (c ≤ b'9')

scan_last :
    (n : ℕ) (out : Bytes)
    → n ≤ max_u64
    → scan_digits ((b'0' + n % 10) ∷ out) (n / 10) ≡ scan_digits out n
unfolding scan_digits
scan_last n out h = ground arith

scan_digits-digits :
    (fuel n : ℕ) (out : Bytes)
    → n < fuel
    → n ≤ max_u64
    → scan_digits (digits fuel n out) 0 ≡ scan_digits out n
unfolding digits
scan_digits-digits zero n out h _ = absurd (omega arith)
scan_digits-digits (suc fuel) n out h fits =
    ground (arith, scan_digits-digits fuel (n / 10) ((b'0' + n % 10) ∷ out), scan_last n out fits)

digits-IsDigit : (fuel n : ℕ) (out : Bytes) → All IsDigit out → All IsDigit (digits fuel n out)
unfolding digits
digits-IsDigit zero n out h = h
digits-IsDigit (suc fuel) n out h = elim (Bool-cases (n == 0)) [
  | inl e ↦ rw e h
  | inr e ↦ rw e (digits-IsDigit fuel (n / 10) _ ((omega arith, omega arith), h))
]

digits-ne-nil : (fuel n : ℕ) (out : Bytes) → out ≢ [] → digits fuel n out ≢ []
unfolding digits
digits-ne-nil zero n out h = h
digits-ne-nil (suc fuel) n out h = elim (Bool-cases (n == 0)) [
  | inl e ↦ rw e h
  | inr e ↦ rw e (digits-ne-nil fuel (n / 10) _ (λ x. cc))
]

pub format_uint-IsDigit : (n : ℕ) → All IsDigit (format_uint n)
unfolding format_uint
format_uint-IsDigit n = elim (Bool-cases (n == 0)) [
  | inl e ↦ rw e ((omega arith, omega arith), tt)
  | inr e ↦ rw e (digits-IsDigit n (n / 10) _ ((omega arith, omega arith), tt))
]

pub format_uint-ne-nil : (n : ℕ) → format_uint n ≢ []
unfolding format_uint
format_uint-ne-nil n = elim (Bool-cases (n == 0)) [
  | inl e ↦ rw e (λ x. cc)
  | inr e ↦ rw e (digits-ne-nil n (n / 10) _ (λ x. cc))
]

scan_digits-format_uint : (n : ℕ) → n ≤ max_u64 → scan_digits (format_uint n) 0 ≡ some n
unfolding format_uint scan_digits
scan_digits-format_uint n h = elim (Bool-cases (n == 0)) [
  | inl e ↦ ground arith
  | inr e ↦ rw e (ground (arith, scan_digits-digits (suc n) n []))
]

-- Every `uint64` is read back from its decimal print.
pub parse_uint-format_uint : (n : ℕ) → n ≤ max_u64 → parse_uint (format_uint n) ≡ some n
unfolding parse_uint
parse_uint-format_uint n h = ground (arith, format_uint-ne-nil n, scan_digits-format_uint n h)

-- A print begins with a digit, so that `ParseInt` sees no sign in it.
parse_int_digits :
    (s : Bytes) → All IsDigit s → s ≢ [] → parse_int s ≡ with_sign false (parse_uint s)
unfolding parse_int
parse_int_digits [] d h = absurd (h refl)
parse_int_digits (c ∷ s) d h = ground arith

-- Every `int64` is read back from its decimal print.
pub parse_int-format_int : (a : ℤ) → IsI64 a → parse_int (format_int a) ≡ some a
unfolding format_int
parse_int-format_int (pos n) h =
    rw (parse_int_digits _ (format_uint-IsDigit n) (format_uint-ne-nil n))
      (rw (parse_uint-format_uint n (omega arith)) (ground arith))
parse_int-format_int (negsuc n) h =
    unfold parse_int in rw (parse_uint-format_uint (suc n) (omega arith)) (ground arith)

IsDigit-Lacks : (s : Bytes) (b : ℕ) → b < b'0' → All IsDigit s → Lacks b s
IsDigit-Lacks [] b lt h = tt
IsDigit-Lacks (c ∷ s) b lt h = (omega arith, IsDigit-Lacks s b lt h.1)

pub format_uint-Lacks : (n : ℕ) → Lacks b'\t' (format_uint n)
format_uint-Lacks n = IsDigit-Lacks _ _ (omega arith) (format_uint-IsDigit n)

pub format_int-Lacks : (a : ℤ) → Lacks b'\t' (format_int a)
unfolding format_int
format_int-Lacks (pos n) = format_uint-Lacks n
format_int-Lacks (negsuc n) = (omega arith, format_uint-Lacks (suc n))

pub format_int-ne-nil : (a : ℤ) → format_int a ≢ []
unfolding format_int
format_int-ne-nil (pos n) = format_uint-ne-nil n
format_int-ne-nil (negsuc n) = λ x. cc
