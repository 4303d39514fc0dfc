-- ===== src/Event/Safety.antt =====
-- event/event.go: panics and positions of `ScanEvent`.
use native.Mathlib.Nat.{le_refl}
use mysql_replay.Base.{
  ℕ, ◌+◌, ◌-◌, ◌≤◌, ◌<◌, [], ◌∷◌, Option, some, ◌≡◌, ◌≢◌, ◌⊎◌, inl, inr, arith, Bytes, length,
  length-drop, take, drop, ◌==◌, leb, ==_iff, Bool-cases, Option-cases, ltb,
}
use mysql_replay.Base.Int.{ℤ}
use mysql_replay.Base.Result.{Result, ok, err, panic, ◌>>=◌}
use mysql_replay.Strconv.Decimal.{parse_uint, parse_int}
use mysql_replay.Strconv.Library.{Library}
use mysql_replay.Event.Scan.{
  index_byte, next_sep, slice, Field, time, type, query, stmt_id, db, ScanFail, empty_field,
  bad_field, scan_field, scan_query, scan_prepare, scan_close, scan_handshake, scan_body,
  scan_event,
}
use mysql_replay.Event.Types.{
  MysqlEvent, sep, event_stmt_execute, event_query, event_stmt_prepare, event_stmt_close,
  event_handshake, event_quit,
}

index_byte-lt : (s : Bytes) (b : ℕ) {i : ℕ} → index_byte s b ≡ some i → i < length s
unfolding index_byte
index_byte-lt [] b h = cc
index_byte-lt (c ∷ s) b {i} h = elim (Option-cases (index_byte s b)) [
  | inl e ↦ ground arith
  | inr (j, e) ↦ ground (arith, index_byte-lt s b e)
]

-- The end of a field lies between its start and the end of the text.
pub next_sep_bounds :
    (s : Bytes) (pos : ℕ) → pos ≤ length s → (pos ≤ next_sep s pos) × (next_sep s pos ≤ length s)
unfolding next_sep
next_sep_bounds s pos h = elim (Bool-cases (leb (length s) pos)) [
  | inl e ↦ rw e (h, omega arith)
  | inr e ↦ rw e (elim (Option-cases (index_byte (drop pos s) sep)) [
    | inl f ↦ rw f (h, omega arith)
    | inr (i, f) ↦ rw f (omega arith, omega (arith, index_byte-lt _ _ f, length-drop pos s))
  ])
]

slice_inside :
    {E : Type 0} (s : Bytes) (i j : ℕ)
    → i ≤ j
    → j ≤ length s
    → (w : Bytes) × (slice {E = E} s i j ≡ ok w)
unfolding slice
slice_inside s i j h k = (take (j - i) (drop i s), ground arith)

-- A field is read or refused, without a panic, and ends inside the text behind its start.
pub scan_field_cases :
    {A : Type 0} (parse : Bytes → Option A) (f : Field) (s : Bytes) (pos : ℕ)
    → ((x : ScanFail) × (scan_field parse f s pos ≡ err x))
      ⊎ ((a : A) × (q : ℕ) × (scan_field parse f s pos ≡ ok (a, q)) × (pos ≤ q) × (q ≤ length s))
unfolding scan_field
scan_field_cases parse f s pos = elim (Bool-cases (ltb (length s) (pos + 1))) [
  | inl e ↦ inl (record { pos = pos; why = empty_field f }, rw e)
  | inr e ↦
      let (lo, hi) = next_sep_bounds s pos (ground arith) in
      let (w, sl) = slice_inside {E = ScanFail} s pos (next_sep s pos) lo hi in
      elim (Option-cases (parse w)) [
        | inl g ↦ inl (record { pos = pos; why = bad_field f }, rw (e, sl, ◌>>=◌, g))
        | inr (a, g) ↦ inr (a, next_sep s pos, rw (e, sl, ◌>>=◌, g), lo, hi)
      ]
]

-- The outcome is no panic, and a success ends inside the text, at `pos` or later.
abbrev pub Within {ℓ} : {A : Type ℓ} → Bytes → ℕ → Result ScanFail (A × ℕ) → Type 0
Within s pos (ok r) = (pos ≤ r.1) × (r.1 ≤ length s)
Within s pos (err x) = Unit
Within s pos panic = ⊥

scan_field-bind :
    {A : Type 0} {B : Type 0} (parse : Bytes → Option A) (f : Field) (s : Bytes) (pos : ℕ)
    (k : A × ℕ → Result ScanFail (B × ℕ))
    → ((a : A) (q : ℕ) → pos ≤ q → q ≤ length s → Within s pos (k (a, q)))
    → Within s pos (scan_field parse f s pos >>= k)
scan_field-bind parse f s pos k h = elim (scan_field_cases parse f s pos) [
  | inl (x, e) ↦ rw e tt
  | inr (a, q, e, lo, hi) ↦ rw e (h a q lo hi)
]

module _ {A : Type 0} (s : Bytes) where
  Within-earlier : (p q : ℕ) (r : Result ScanFail (A × ℕ)) → p ≤ q → Within s q r → Within s p r
  Within-earlier p q (ok a) h w = (omega arith, w.1)
  Within-earlier p q (err x) h w = tt
  Within-earlier p q panic h w = w

scan_close-Within : (s : Bytes) (p : ℕ) (e : MysqlEvent) → Within s p (scan_close s p e)
unfolding scan_close
scan_close-Within s p e = scan_field-bind _ stmt_id s p _ (λ a q lo hi. (lo, hi))

module _ (lib : Library) (s : Bytes) where
  scan_query-Within : (p : ℕ) (e : MysqlEvent) → Within s p (scan_query lib s p e)
  unfolding scan_query
  scan_query-Within p e = scan_field-bind _ query s p _ (λ a q lo hi. (lo, hi))

  scan_handshake-Within : (p : ℕ) (e : MysqlEvent) → Within s p (scan_handshake lib s p e)
  unfolding scan_handshake
  scan_handshake-Within p e = scan_field-bind _ db s p _ (λ a q lo hi. (lo, hi))

  scan_prepare-Within : (p : ℕ) (e : MysqlEvent) → Within s p (scan_prepare lib s p e)
  unfolding scan_prepare
  scan_prepare-Within p e = scan_field-bind _ stmt_id s p _ (λ a q lo hi.
      Within-earlier s p (q + 1) (scan_query lib s (q + 1) _) (omega arith)
        (scan_query-Within (q + 1) _))

  scan_body-Within :
      (p : ℕ) (e : MysqlEvent)
      → p ≤ length s
      → e.type ≢ event_stmt_execute
      → Within s p (scan_body lib s p e)
  unfolding scan_body
  scan_body-Within p e h ne =
      let later = λ (r : Result ScanFail (MysqlEvent × ℕ)) (w : Within s (p + 1) r).
        Within-earlier s p (p + 1) r (omega arith) w in
      elim (Bool-cases (e.type == event_query)) [
        | inl c0 ↦ rw c0 (later _ (scan_query-Within (p + 1) e))
        | inr d0 ↦ rw d0 (elim (Bool-cases (e.type == event_stmt_execute)) [
          | inl c ↦ absurd (ne ((==_iff _ _).0 c))
          | inr d1 ↦ rw d1 (elim (Bool-cases (e.type == event_stmt_prepare)) [
            | inl c2 ↦ rw c2 (later _ (scan_prepare-Within (p + 1) e))
            | inr d2 ↦ rw d2 (elim (Bool-cases (e.type == event_stmt_close)) [
              | inl c3 ↦ rw c3 (later _ (scan_close-Within s (p + 1) e))
              | inr d3 ↦ rw d3 (elim (Bool-cases (e.type == event_handshake)) [
                | inl c4 ↦ rw c4 (later _ (scan_handshake-Within (p + 1) e))
                | inr d4 ↦ rw d4 (elim (Bool-cases (e.type == event_quit)) [
                  | inl c5 ↦ rw c5 ((le_refl p, h))
                  | inr d5 ↦ rw d5 tt
                ])
              ])
            ])
          ])
        ])
      ]

-- The time and the type of an event, when both can be read.
abbrev pub HasType : Bytes → ℕ → ℕ → Type 0
HasType s pos t =
    (a : ℤ) × (q : ℕ) × (n : ℕ) × (scan_field parse_int time s pos ≡ ok (a, q))
    × (scan_field parse_uint type s (q + 1) ≡ ok (t, n))

-- A scan that is not of an execute event does not panic, whatever the text; where it succeeds it
-- ends inside the text, at the starting position or later.
pub scan_event-Within :
    (lib : Library) (s : Bytes) (pos : ℕ) (e : MysqlEvent)
    → ¬ HasType s pos event_stmt_execute
    → Within s pos (scan_event lib s pos e)
unfolding scan_event
scan_event-Within lib s pos e ne = elim (scan_field_cases parse_int time s pos) [
  | inl (x, h) ↦ rw (h, ◌>>=◌) tt
  | inr (a, q, h, lo, hi) ↦
      rw (h, ◌>>=◌)
        (elim (scan_field_cases parse_uint type s (q + 1)) [
          | inl (x, g) ↦ rw (g, ◌>>=◌) tt
          | inr (t, n, g, lo', hi') ↦
              rw (g, ◌>>=◌)
                (Within-earlier s pos n (scan_body lib s n (record e { time = a; type = t }))
                  (omega arith)
                  (scan_body-Within lib s n (record e { time = a; type = t }) hi'
                    λ four. ne (a, q, n, h, rw four at g)))
        ])
]
