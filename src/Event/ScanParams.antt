-- ===== src/Event/ScanParams.antt =====
-- event/event.go: `AppendStmtParams`, then `ScanStmtParams`.
use mysql_replay.Base.{
  At, At-skip, ℕ, suc, zero, ◌+◌, false, List, [], ◌∷◌, ◌++◌, append_assoc, append-nil, ◌≡◌, ◌≢◌,
  ◌∙◌, inl, inr, refl, sym, arith, Bytes, Lacks, All, All-append, length, length-append, ◌==◌,
  Bool-cases, ltb, get_or, drop, length-eq-zero,
}
use mysql_replay.Base.Result.{ok, ◌>>=◌}
use mysql_replay.Strconv.Decimal.RoundTrip.{
  parse_uint-format_uint, parse_int-format_int, format_uint-Lacks, format_int-Lacks,
  format_uint-ne-nil, format_int-ne-nil,
}
use mysql_replay.Strconv.Hex.{decode_hex-encode_hex, encode_hex-IsBytes}
use mysql_replay.Strconv.Library.{Library, FloatLaws}
use mysql_replay.Strconv.Quote.RoundTrip.{unquote-quote, quote-Lacks, quote-ne-nil}
use mysql_replay.Event.Fields.{Boundary, at_sep, At-next, next_sep-At, slice-At}
use mysql_replay.Event.Layout.{tag, tags, text, fields}
use mysql_replay.Event.Scan.{next_sep, slice, ParamFail, scan_param, scan_params, scan_stmt_params}
use mysql_replay.Event.Types.{
  Param, nil, i64, u64, str, f32, f64, bin, unsupported, sep, type_lst, IsParam,
}

get_or-drop : (s : Bytes) (n c : ℕ) (t : Bytes) → drop n s ≡ c ∷ t → get_or s n 0 ≡ c
get_or-drop [] zero c t e = cc
get_or-drop [] (suc n) c t e = cc
get_or-drop (x ∷ s) zero c t e = cc
get_or-drop (x ∷ s) (suc n) c t e = get_or-drop s n c t e

module _ {lib : Library} (laws : FloatLaws lib) where
  pub text-Lacks : (p : Param) → IsParam p → Lacks sep (text lib p)
  text-Lacks nil h = omega arith
  text-Lacks (i64 a) h = format_int-Lacks a
  text-Lacks (u64 n) h = format_uint-Lacks n
  text-Lacks (str s) h = quote-Lacks _ s h
  text-Lacks (f32 x) h = laws.no_tab 32 x
  text-Lacks (f64 x) h = laws.no_tab 64 x
  text-Lacks (bin s) h = quote-Lacks _ _ (encode_hex-IsBytes s h)
  text-Lacks unsupported h = tt

  text-ne-nil : (p : Param) → IsParam p → text lib p ≢ []
  text-ne-nil nil h = λ e. cc
  text-ne-nil (i64 a) h = format_int-ne-nil a
  text-ne-nil (u64 n) h = format_uint-ne-nil n
  text-ne-nil (str s) h = quote-ne-nil _ s
  text-ne-nil (f32 x) h = laws.not_empty 32 x
  text-ne-nil (f64 x) h = laws.not_empty 64 x
  text-ne-nil (bin s) h = quote-ne-nil _ _
  text-ne-nil unsupported h = absurd h

  scan_param-text :
      (p : Param) (pos i : ℕ) → IsParam p → scan_param lib pos i (tag p) (text lib p) ≡ ok p
  unfolding scan_param
  scan_param-text nil pos i h = refl
  scan_param-text (i64 a) pos i h = rw (parse_int-format_int a h)
  scan_param-text (u64 n) pos i h = rw (parse_uint-format_uint n h)
  scan_param-text (str s) pos i h = rw (unquote-quote _ _ s h)
  scan_param-text (f32 x) pos i h = rw (laws.read_back32 x h.0 h.1)
  scan_param-text (f64 x) pos i h = rw (laws.read_back64 x h.0 h.1)
  scan_param-text (bin s) pos i h =
      rw (unquote-quote _ _ _ (encode_hex-IsBytes s h), decode_hex-encode_hex s h)
  scan_param-text unsupported pos i h = absurd h

  pub fields-Boundary :
      (ps : List Param) (rest : Bytes) → Boundary rest → Boundary (fields lib ps ++ rest)
  fields-Boundary [] rest b = b
  fields-Boundary (p ∷ ps) rest b = at_sep _

  text_not_here : (p : Param) (n : ℕ) → IsParam p → (n == n + length (text lib p)) ≡ false
  text_not_here p n h = elim (Bool-cases (n == n + length (text lib p))) [
    | inl e ↦ absurd (text-ne-nil p h (length-eq-zero (text lib p) (ground arith)))
    | inr e ↦ e
  ]

  -- One round of the loop, where the field is there and is read.
  scan_params_step :
      (s types raw : Bytes) (t i pos end : ℕ) (acc : List Param) (p : Param)
      → next_sep s (pos + 1) ≡ end
      → (pos + 1 == end) ≡ false
      → slice {E = ParamFail} s (pos + 1) end ≡ ok raw
      → scan_param lib (pos + 1) i t raw ≡ ok p
      → scan_params lib s (t ∷ types) i pos acc
        ≡ scan_params lib s types (i + 1) end (acc ++ p ∷ [])
  unfolding scan_params
  scan_params_step s types raw t i pos end acc p n z sl h = rw n (rw (z, sl, ◌>>=◌) (rw h))

  -- The loop reads the fields that are there, and goes on with the type bytes behind theirs.
  pub scan_params_prefix :
      (ps : List Param) (types : Bytes) {s : Bytes} {pos : ℕ} (i : ℕ) (acc : List Param)
      (rest : Bytes)
      → All IsParam ps
      → At s pos (fields lib ps ++ rest)
      → Boundary rest
      → scan_params lib s (tags ps ++ types) i pos acc
        ≡ scan_params lib s types (i + length ps) (pos + length (fields lib ps)) (acc ++ ps)
  scan_params_prefix [] types {s} {pos} i acc rest h a b =
      let z : pos + 0 ≡ pos = omega arith in
      let z' : i + 0 ≡ i = omega arith in rw (append-nil, z, z')
  scan_params_prefix (p ∷ ps) types {s} {pos} i acc rest h a b =
      let w = text lib p in
      let a1 : At s (pos + 1) (w ++ (fields lib ps ++ rest)) =
        rw (← append_assoc w (fields lib ps) rest) (At-next _ a) in
      let next = next_sep-At w _ a1 (text-Lacks p h.0) (fields-Boundary ps rest b) in
      let size : pos + 1 + length w + length (fields lib ps)
          ≡ pos + length (sep ∷ (w ++ fields lib ps)) =
        omega (arith, length-append w (fields lib ps)) in
      let count : i + 1 + length ps ≡ i + length (p ∷ ps) = omega arith in
      scan_params_step s (tags ps ++ types) w (tag p) i pos _ acc p next
        (text_not_here p (pos + 1) h.0) (slice-At w _ a1) (scan_param-text p (pos + 1) i h.0)
      ∙ scan_params_prefix ps types (i + 1) (acc ++ p ∷ []) rest h.1 (At-skip w _ a1) b
      ∙ rw (append_assoc, size, count)

  tags-Lacks : (ps : List Param) → Lacks sep (tags ps)
  tags-Lacks [] = tt
  tags-Lacks (nil ∷ ps) = (omega arith, tags-Lacks ps)
  tags-Lacks (i64 a ∷ ps) = (omega arith, tags-Lacks ps)
  tags-Lacks (u64 n ∷ ps) = (omega arith, tags-Lacks ps)
  tags-Lacks (str s ∷ ps) = (omega arith, tags-Lacks ps)
  tags-Lacks (f32 x ∷ ps) = (omega arith, tags-Lacks ps)
  tags-Lacks (f64 x ∷ ps) = (omega arith, tags-Lacks ps)
  tags-Lacks (bin s ∷ ps) = (omega arith, tags-Lacks ps)
  tags-Lacks (unsupported ∷ ps) = (omega arith, tags-Lacks ps)

  -- The list is entered, with any type bytes behind those of the fields.
  pub scan_stmt_params_types :
      (ps : List Param) (types : Bytes) {s : Bytes} {pos : ℕ} (acc : List Param) (rest : Bytes)
      → All IsParam ps
      → Lacks sep types
      → At s pos (type_lst ∷ ((tags ps ++ types) ++ (fields lib ps ++ rest)))
      → Boundary (fields lib ps ++ rest)
      → Boundary rest
      → scan_stmt_params lib s pos acc
        ≡ scan_params lib s types
            (length ps)
            (pos + 1 + length (tags ps ++ types) + length (fields lib ps))
            (acc ++ ps)
  unfolding scan_stmt_params
  scan_stmt_params_types ps types {s} {pos} acc rest h l a b b' =
      let ts = tags ps ++ types in
      let a1 : At s (pos + 1) (ts ++ (fields lib ps ++ rest)) = At-skip (type_lst ∷ []) _ a in
      let there : ltb (length s) (pos + 1) ≡ false = ground (arith, a.size) in
      let first : get_or s pos 0 ≡ type_lst = get_or-drop s pos type_lst _ a.tail in
      let next = next_sep-At ts _ a1 (All-append _ (tags ps) types (tags-Lacks ps) l) b in
      let z : 0 + length ps ≡ length ps = omega arith in
      rw (there, first)
        (rw next (
          rw (slice-At ts _ a1, ◌>>=◌)
            (scan_params_prefix ps types 0 acc rest h (At-skip ts _ a1) b' ∙ rw z)))

  -- `ScanStmtParams` reads back the parameters and stops at their end.
  pub scan_stmt_params-fields :
      (ps : List Param) {s : Bytes} {pos : ℕ} (acc : List Param) (rest : Bytes)
      → All IsParam ps
      → At s pos ((type_lst ∷ (tags ps ++ fields lib ps)) ++ rest)
      → Boundary rest
      → scan_stmt_params lib s pos acc
        ≡ ok (acc ++ ps, pos + length (type_lst ∷ (tags ps ++ fields lib ps)))
  scan_stmt_params-fields ps {s} {pos} acc rest h a b =
      let shape : (tags ps ++ []) ++ (fields lib ps ++ rest) ≡ (tags ps ++ fields lib ps) ++ rest =
        rw append-nil (sym (append_assoc (tags ps) (fields lib ps) rest)) in
      let size : pos + 1 + length (tags ps ++ []) + length (fields lib ps)
          ≡ pos + length (type_lst ∷ (tags ps ++ fields lib ps)) =
        rw append-nil (omega (arith, length-append (tags ps) (fields lib ps))) in
      scan_stmt_params_types ps [] acc rest h tt (rw shape a) (fields-Boundary ps rest b) b
      ∙ (unfold scan_params in rw size)
