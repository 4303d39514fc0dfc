-- ===== src/Event/Malformed.antt =====
-- Texts at which `ScanEvent` or `ScanStmtParams` slices out of range.
use mysql_replay.Base.{
  At, At-here, At-skip, ℕ, ◌+◌, ◌≤◌, ◌<◌, true, false, List, [], ◌∷◌, ◌++◌, append-nil, ◌≡◌, ◌∙◌,
  arith, Bytes, Lacks, All, length, length-append, ◌==◌, leb, ltb,
}
use mysql_replay.Base.Int.{ℤ, IsI64}
use mysql_replay.Base.Result.{panic, ◌>>=◌}
use mysql_replay.Strconv.Decimal.RoundTrip.{
  parse_uint-format_uint, parse_int-format_int, format_uint-Lacks, format_int-Lacks,
  format_uint-ne-nil, format_int-ne-nil,
}
use mysql_replay.Strconv.Decimal.{format_uint, format_int, parse_uint, parse_int, max_u64}
use mysql_replay.Strconv.Library.{Library, FloatLaws}
use mysql_replay.Event.Fields.{at_end, at_sep, At-next, scan_field-At}
use mysql_replay.Event.Layout.{tags, fields}
use mysql_replay.Event.Scan.{
  next_sep, slice, time, type, stmt_id, scan_params, scan_stmt_params, with_params, scan_execute,
  scan_body, scan_event, ParamFail,
}
use mysql_replay.Event.ScanParams.{scan_stmt_params_types, fields-Boundary}
use mysql_replay.Event.Types.{Param, MysqlEvent, sep, type_lst, event_stmt_execute, IsParam}

slice_past : {E : Type 0} (s : Bytes) (i j : ℕ) → length s < i → slice {E = E} s i j ≡ panic
unfolding slice
slice_past s i j h = ground arith

-- Behind the end of the text there is no parameter list, and its error is printed with a slice.
scan_execute-At_end :
    (lib : Library) (s : Bytes) (p id : ℕ) (e : MysqlEvent)
    → At s p (format_uint id)
    → id ≤ max_u64
    → scan_execute lib s p e ≡ panic
unfolding scan_execute with_params scan_stmt_params
scan_execute-At_end lib s p id e a h =
    let w = format_uint id in
    let a1 : At s p (w ++ []) = rw append-nil a in
    let far : ltb (length s) (p + length w + 1 + 1) ≡ true = ground (arith, a.size) in
    rw
      (
        scan_field-At parse_uint stmt_id w [] id a1 (format_uint-Lacks id) at_end
            (format_uint-ne-nil id) (parse_uint-format_uint id h),
        ◌>>=◌,
        far,
        with_params,
      )
      (rw (slice_past s (p + length w + 1) _ (omega (arith, a.size))))

abbrev pub no_params_text : ℤ → ℕ → Bytes
no_params_text a id =
    format_int a ++ (sep ∷ (format_uint event_stmt_execute ++ (sep ∷ format_uint id)))

-- An execute event that is cut off behind its statement id panics, instead of giving an error.
pub scan_event_no_params :
    (lib : Library) (pre : Bytes) (a : ℤ) (id : ℕ) (e : MysqlEvent)
    → IsI64 a
    → id ≤ max_u64
    → scan_event lib (pre ++ no_params_text a id) (length pre) e ≡ panic
unfolding scan_event scan_body
scan_event_no_params lib pre a id e ha hid =
    let s = pre ++ no_params_text a id in
    let w = format_int a in
    let u = format_uint event_stmt_execute in
    let a1 = At-here pre (no_params_text a id) in
    let a2 = At-next _ (At-skip w _ a1) in
    let a3 = At-next _ (At-skip u _ a2) in
    rw
      (
        scan_field-At parse_int time w _ a a1 (format_int-Lacks a) (at_sep _) (format_int-ne-nil a)
            (parse_int-format_int a ha),
        ◌>>=◌,
        scan_field-At parse_uint type u _ event_stmt_execute a2 (format_uint-Lacks _) (at_sep _)
            (format_uint-ne-nil _) (parse_uint-format_uint _ (omega arith)),
        ◌>>=◌,
      )
      (scan_execute-At_end lib s _ id _ a3 hid)

scan_params_at_end :
    (lib : Library) (s types : Bytes) (t i pos : ℕ) (acc : List Param)
    → pos ≡ length s
    → scan_params lib s (t ∷ types) i pos acc ≡ panic
unfolding scan_params next_sep
scan_params_at_end lib s types t i pos acc e =
    let far : leb (length s) (pos + 1) ≡ true = ground arith in
    let differ : (pos + 1 == length s) ≡ false = ground arith in
    rw far (rw (differ, slice_past {E = ParamFail} s (pos + 1) (length s) (omega arith)))

abbrev pub short_list : Library → List Param → ℕ → Bytes → Bytes
short_list lib ps t ts = type_lst ∷ ((tags ps ++ t ∷ ts) ++ fields lib ps)

-- A parameter list with more type bytes than fields panics at the end of the text.
pub scan_stmt_params_short :
    {lib : Library} (laws : FloatLaws lib) (pre : Bytes) (ps acc : List Param) (t : ℕ) (ts : Bytes)
    → All IsParam ps
    → Lacks sep (t ∷ ts)
    → scan_stmt_params lib (pre ++ short_list lib ps t ts) (length pre) acc ≡ panic
scan_stmt_params_short {lib} laws pre ps acc t ts h l =
    let s = pre ++ short_list lib ps t ts in
    let a = At-here pre (short_list lib ps t ts) in
    let shape : fields lib ps ++ [] ≡ fields lib ps = append-nil (fields lib ps) in
    scan_stmt_params_types laws ps (t ∷ ts) acc [] h l (rw shape a)
      (fields-Boundary laws ps [] at_end) at_end
    ∙ scan_params_at_end lib s ts t _ _ (acc ++ ps)
        (omega (arith, a.size, length-append (tags ps ++ t ∷ ts) (fields lib ps)))
