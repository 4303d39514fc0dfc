-- ===== src/Stream/Params/RoundTrip.antt =====
-- stream/mysql.go: `parseExecParams` at the values that a client of the binary protocol writes.
use native.Mathlib.Nat.{zero-div}
use mysql_replay.Base.{
  At, At-here, At-skip, At-suc, At-get_elem?, ℕ, zero, suc, ◌+◌, ◌*◌, ◌/◌, ◌%◌, ◌^◌, ◌≤◌, ◌<◌,
  false, List, [], ◌∷◌, ◌++◌, append_assoc, some, ◌≡◌, ◌∙◌, refl, sym, ap, arith, Bytes, All,
  length, length-append, get_elem?, set, set-length_append, replicate, leb,
}
use mysql_replay.Base.Result.{ok, ◌>>=◌}
use mysql_replay.Event.Types.{Param, nil}
use mysql_replay.Stream.Params.Temporal.{Values}
use mysql_replay.Stream.Params.{has_bit, parse_params, parse_exec_params}
use mysql_replay.Stream.Params.Wire.{
  IsWire, wire_type, wire_flag, wire_value, wire_types, wire_values, parse_value-wire_value,
}

get_elem?-replicate : (n i : ℕ) (b : ℕ) → i < n → get_elem? (replicate n b) i ≡ some b
get_elem?-replicate zero i b h = absurd (omega arith)
get_elem?-replicate (suc n) zero b h = refl
get_elem?-replicate (suc n) (suc i) b h = get_elem?-replicate n i b (omega arith)

no_bits : (k : ℕ) → has_bit 0 k ≡ false
no_bits k = let none_left : 0 / 2 ^ k ≡ 0 = zero-div (2 ^ k) in rw none_left refl

-- The round of one parameter, with no bit of the bitmap set.
parse_params-cons :
    (k i size : ℕ) (types : Bytes) (v : Values) (p : ℕ) (out : List Param) (q : Param)
    (type_rest rest : Bytes)
    → i / 8 < size
    → IsWire q
    → At types (2 * i) (wire_type q ∷ wire_flag q ∷ type_rest)
    → At v.text p (wire_value q ++ rest)
    → parse_params (suc k) i (replicate size 0) types v p out
      ≡ parse_params k (i + 1) (replicate size 0) types v (p + length (wire_value q)) (set out i q)
unfolding parse_params
parse_params-cons k i size types v p out q type_rest rest inside h t a =
    let flag = At-suc _ _ t in
    rw
      (
        parse_params,
        get_elem?-replicate size (i / 8) 0 inside,
        ◌>>=◌,
        no_bits (i % 8),
        (let far : leb (length types) (2 * i + 1) ≡ false = ground (arith, t.size) in far),
        At-get_elem? t,
        At-get_elem? flag,
        parse_value-wire_value q v p rest h a,
      )
      refl

length-wire_types : (ps : List Param) → length (wire_types ps) ≡ 2 * length ps
length-wire_types [] = refl
length-wire_types (q ∷ ps) = omega (arith, length-wire_types ps)

-- The loop, with the parameters in `before` done.
parse_params-wire :
    (before ps : List Param) (i size : ℕ) (types : Bytes) (v : Values) (p : ℕ)
    → i ≡ length before
    → i + length ps ≤ 8 * size
    → All IsWire ps
    → At types (2 * i) (wire_types ps)
    → At v.text p (wire_values ps)
    → parse_params (length ps) i (replicate size 0) types v p (before ++ replicate (length ps) nil)
      ≡ ok (before ++ ps)
parse_params-wire before [] i size types v p here inside h t a = unfold parse_params in refl
parse_params-wire before (q ∷ ps) i size types v p here inside h t a =
    let next : 2 * i + 2 ≡ 2 * (i + 1) = omega arith in
    let written : set (before ++ nil ∷ replicate (length ps) nil) i q
        ≡ (before ++ q ∷ []) ++ replicate (length ps) nil =
      rw here (
        set-length_append before nil q (replicate (length ps) nil)
        ∙ sym (append_assoc before (q ∷ []) _)) in
    parse_params-cons (length ps) i size types v p _ q (wire_types ps) (wire_values ps)
      (omega arith) h.0 t a
    ∙ rw written (
        parse_params-wire (before ++ q ∷ []) ps (i + 1) size types v (p + length (wire_value q))
          (omega (arith, here, length-append before (q ∷ []))) (omega arith) h.1
          (rw (sym next) (At-skip (wire_type q ∷ wire_flag q ∷ []) (wire_types ps) t))
          (At-skip (wire_value q) (wire_values ps) a)
        ∙ ap ok (append_assoc before (q ∷ []) ps))

-- Parameters that are NULL, 64-bit integers, floats, or texts or blobs of 250 bytes at most, written in the
-- binary protocol with a bitmap that has no bit set, two bytes of type each and the values one behind the
-- other, are read back, whatever stands behind the values in the buffer.
pub parse_exec_params-wire :
    (ps : List Param) (spare : Bytes)
    → All IsWire ps
    → parse_exec_params
        (length ps)
        (replicate ((length ps + 7) / 8) 0)
        (wire_types ps)
        (record { text = wire_values ps; spare = spare })
      ≡ ok ps
unfolding parse_exec_params
parse_exec_params-wire ps spare h =
    rw
      (parse_params-wire [] ps 0 ((length ps + 7) / 8) (wire_types ps)
        (record { text = wire_values ps; spare = spare }) 0 refl (omega arith) h
        (At-here [] (wire_types ps)) (At-here [] (wire_values ps)))
      refl
