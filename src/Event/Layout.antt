-- ===== src/Event/Layout.antt =====
-- The text that `AppendEvent` and `AppendStmtParams` write, with no buffer: the type bytes of the
-- parameters in a row, then a field for each. The code reserves the type bytes and fills them later.
use mysql_replay.Base.{
  ℕ, ◌+◌, List, [], ◌∷◌, ◌++◌, append_assoc, append-nil, ◌≡◌, ◌∙◌, refl, sym, ap, arith, Bytes,
  codes, All, length, length-append, replicate, set, set-length_append,
}
use mysql_replay.Base.Result.{ok, err}
use mysql_replay.Strconv.Decimal.{format_uint, format_int}
use mysql_replay.Strconv.Hex.{encode_hex}
use mysql_replay.Strconv.Library.{Library}
use mysql_replay.Strconv.Quote.{quote}
use mysql_replay.Event.Append.{unsupported_param, append_params, append_stmt_params}
use mysql_replay.Event.Types.{
  Param, nil, i64, u64, str, f32, f64, bin, unsupported, sep, type_i64, type_u64, type_f32,
  type_f64, type_str, type_bin, type_nil, type_lst,
}

abbrev pub tag : Param → ℕ
tag nil = type_nil
tag (i64 a) = type_i64
tag (u64 n) = type_u64
tag (str s) = type_str
tag (f32 x) = type_f32
tag (f64 x) = type_f64
tag (bin s) = type_bin
tag unsupported = 0

abbrev pub tags : List Param → Bytes
tags [] = []
tags (p ∷ ps) = tag p ∷ tags ps

abbrev pub IsSupported : Param → Type 0
IsSupported unsupported = ⊥
IsSupported _ = Unit

module _ (lib : Library) where
  abbrev pub text : Param → Bytes
  text nil = codes "nil"
  text (i64 a) = format_int a
  text (u64 n) = format_uint n
  text (str s) = quote lib.is_print_table s
  text (f32 x) = lib.format_float 32 x
  text (f64 x) = lib.format_float 64 x
  text (bin s) = quote lib.is_print_table (encode_hex s)
  text unsupported = []

  abbrev pub fields : List Param → Bytes
  fields [] = []
  fields (p ∷ ps) = sep ∷ (text p ++ fields ps)

  -- One round: the type byte is written into its place and the field behind all.
  append_params-cons :
      (p : Param) (ps : List Param) (at : ℕ) (buf : Bytes)
      → IsSupported p
      → append_params lib at (p ∷ ps) buf
        ≡ append_params lib (at + 1) ps (set buf at (tag p) ++ sep ∷ text p)
  unfolding append_params
  append_params-cons unsupported ps at buf h = absurd h
  append_params-cons _ ps at buf h = refl

  round :
      (p : Param) (pre more out : Bytes)
      → set (pre ++ (0 ∷ (more ++ out))) (length pre) (tag p) ++ sep ∷ text p
        ≡ (pre ++ tag p ∷ []) ++ (more ++ (out ++ sep ∷ text p))
  round p pre more out = rw (set-length_append pre 0 (tag p) (more ++ out)) (simp append_assoc)

  -- The loop, with the type bytes of the parameters that are done in `pre`.
  append_params-fields :
      (ps : List Param) (at : ℕ) (pre out : Bytes)
      → All IsSupported ps
      → at ≡ length pre
      → append_params lib at ps (pre ++ (replicate (length ps) 0 ++ out))
        ≡ ok (pre ++ (tags ps ++ (out ++ fields ps)))
  append_params-fields [] at pre out h e = unfold append_params in rw append-nil
  append_params-fields (p ∷ ps) at pre out h e =
      append_params-cons p ps at _ h.0
      ∙ ap (append_params lib (at + 1) ps) (rw e (round p pre (replicate (length ps) 0) out))
      ∙ append_params-fields ps (at + 1) (pre ++ tag p ∷ []) (out ++ sep ∷ text p) h.1
          (omega (arith, e, length-append pre (tag p ∷ [])))
      ∙ ap ok (simp append_assoc)

  -- For parameters of the supported types `AppendStmtParams` writes, behind the buffer that it is given, the
  -- mark of a list, the type bytes of the parameters in a row, and then a field for each.
  pub append_stmt_params-fields :
      (buf : Bytes) (ps : List Param)
      → All IsSupported ps
      → append_stmt_params lib buf ps ≡ ok (buf ++ (type_lst ∷ (tags ps ++ fields ps)))
  unfolding append_stmt_params
  append_stmt_params-fields buf ps h =
      ap (λ b. append_params lib (length buf + 1) ps ((buf ++ type_lst ∷ []) ++ b))
        (sym (append-nil (replicate (length ps) 0)))
      ∙ append_params-fields ps (length buf + 1) (buf ++ type_lst ∷ []) [] h
          (sym (length-append buf (type_lst ∷ [])))
      ∙ ap ok (simp append_assoc)

  -- A parameter of an unsupported type, behind any parameters of supported types, is an error.
  pub append_params_unsupported :
      (ps qs : List Param) (at : ℕ) (buf : Bytes)
      → All IsSupported ps
      → append_params lib at (ps ++ unsupported ∷ qs) buf ≡ err unsupported_param
  append_params_unsupported [] qs at buf h = unfold append_params in refl
  append_params_unsupported (p ∷ ps) qs at buf h =
      append_params-cons p _ at buf h.0 ∙ append_params_unsupported ps qs (at + 1) _ h.1
