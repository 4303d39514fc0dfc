-- ===== src/Strconv/Quote/RoundTrip.antt =====
-- A quoted text is read back whole, and holds no separator.
use mysql_replay.Base.{
  ℕ, zero, suc, ◌+◌, ◌-◌, ◌<◌, ◌≤◌, Bool, [], ◌∷◌, ◌++◌, append_assoc, Option, none, some, ◌≡◌, ◌≢◌,
  ◌∙◌, inl, inr, refl, ap, arith, Bytes, Lacks, All, All-append, length, length-append, length-drop,
  take, drop, take-append-drop,
}
use mysql_replay.Strconv.Utf8.Laws.{decode_rune_cases}
use mysql_replay.Strconv.Utf8.{decode_rune}
use mysql_replay.Strconv.Quote.Rune.{Escaped, quote_rune-Escaped}
use mysql_replay.Strconv.Quote.{quote_rune, quote_body, quote, unquote_char, unquote_body, unquote}

abbrev pub IsBytes : Bytes → Type 0
IsBytes = All (λ c. c < 256)

-- What the loop of `Unquote` makes of the rest of the text, behind one piece.
abbrev behind : Bytes → Option Bytes → Option Bytes
behind t none = none
behind t (some u) = some (t ++ u)

unquote_body-Escaped :
    {e text : Bytes} (fuel : ℕ) (t : Bytes)
    → Escaped e text
    → unquote_body (suc fuel) b'"' (e ++ t) ≡ behind text (unquote_body fuel b'"' t)
unfolding unquote_body
unquote_body-Escaped {e} {text} fuel t p =
    let reads : unquote_char b'"' (p.first ∷ (p.others ++ t)) ≡ _ = rw p.shape at (p.reads t) in
    rw p.shape (ground (arith, p.not_mark, p.not_newline, reads))

decode_rune_width : (c : ℕ) (s : Bytes) → 1 ≤ (decode_rune (c ∷ s)).1
decode_rune_width c s = elim (decode_rune_cases c s) [
  | inl e ↦ rw e (omega arith)
  | inr d ↦ d.width
]

take-drop_width : (w c : ℕ) (s : Bytes) → 1 ≤ w → take w (c ∷ s) ++ drop (w - 1) s ≡ c ∷ s
take-drop_width zero c s h = absurd (omega arith)
take-drop_width (suc w) c s h =
    let e : suc w - 1 ≡ w = omega arith in rw e (ap (◌∷◌ c) (take-append-drop w s))

drop-IsBytes : (k : ℕ) (s : Bytes) → IsBytes s → IsBytes (drop k s)
drop-IsBytes zero s h = h
drop-IsBytes (suc k) [] h = h
drop-IsBytes (suc k) (c ∷ s) h = drop-IsBytes k s h.1

Escaped-length : {e t : Bytes} → Escaped e t → 1 ≤ length e
Escaped-length p = rw p.shape (omega arith)

module _ (table : ℕ → Bool) where
  quote_body-drop : (k : ℕ) (s : Bytes) → quote_body table k s ≡ quote_body table 0 (drop k s)
  unfolding quote_body
  quote_body-drop zero s = refl
  quote_body-drop (suc k) [] = refl
  quote_body-drop (suc k) (c ∷ s) = quote_body-drop k s

  quote_body-Lacks : (k : ℕ) (s : Bytes) → IsBytes s → Lacks b'\t' (quote_body table k s)
  unfolding quote_body
  quote_body-Lacks k [] h = tt
  quote_body-Lacks (suc k) (c ∷ s) h = quote_body-Lacks k s h.1
  quote_body-Lacks zero (c ∷ s) h =
      All-append _ (quote_rune table c (decode_rune (c ∷ s))) _
        (quote_rune-Escaped table c s h.0).no_tab (quote_body-Lacks _ s h.1)

  -- With fuel for each byte the loop reads back what was quoted.
  unquote_body-quote_body :
      (n : ℕ) (s : Bytes) (fuel : ℕ)
      → length s < n
      → IsBytes s
      → length (quote_body table 0 s) < fuel
      → unquote_body fuel b'"' (quote_body table 0 s ++ b'"' ∷ []) ≡ some s
  unquote_body-quote_body zero s fuel h b f = absurd (omega arith)
  unquote_body-quote_body (suc n) s zero h b f = absurd (omega arith)
  unquote_body-quote_body (suc n) [] (suc fuel) h b f = unfold quote_body unquote_body in refl
  unquote_body-quote_body (suc n) (c ∷ s) (suc fuel) h b f =
      let w = (decode_rune (c ∷ s)).1 in
      let p = quote_rune-Escaped table c s b.0 in
      let e = quote_rune table c (decode_rune (c ∷ s)) in
      let rest = drop (w - 1) s in
      let shape : quote_body table 0 (c ∷ s) ≡ e ++ quote_body table 0 rest =
        unfold quote_body in ap (λ t. e ++ t) (quote_body-drop (w - 1) s) in
      let sizes : length e + length (quote_body table 0 rest) < suc fuel =
        rw (← length-append e (quote_body table 0 rest), ← shape) f in
      let ih =
        unquote_body-quote_body n rest fuel (omega (arith, length-drop (w - 1) s))
          (drop-IsBytes (w - 1) s b.1) (omega (arith, Escaped-length p)) in
      rw (shape, append_assoc)
        (unquote_body-Escaped fuel _ p
          ∙ ap (behind _) ih
          ∙ ap some (take-drop_width w c s (decode_rune_width c s)))

  -- `Unquote` reads back what `AppendQuote` wrote, whatever bytes the text holds.
  pub unquote-quote :
      (other : Bytes → Option Bytes) (s : Bytes)
      → IsBytes s
      → unquote other (quote table s) ≡ some s
  unfolding unquote quote
  unquote-quote other s b =
      unquote_body-quote_body (suc (length s)) s _ (omega arith) b
        (omega (arith, length-append (quote_body table 0 s) (b'"' ∷ [])))

  pub quote-Lacks : (s : Bytes) → IsBytes s → Lacks b'\t' (quote table s)
  unfolding quote
  quote-Lacks s b = (
    omega arith,
    All-append _ (quote_body table 0 s) _ (quote_body-Lacks 0 s b) (omega arith, tt),
  )

  pub quote-ne-nil : (s : Bytes) → quote table s ≢ []
  unfolding quote
  quote-ne-nil s = λ e. cc
