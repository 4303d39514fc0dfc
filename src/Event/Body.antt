-- ===== src/Event/Body.antt =====
-- What stands behind the type of an event: written by `AppendEvent`, read by the cases of `ScanEvent`.
use mysql_replay.Base.{
  At, At-skip, ℕ, ◌+◌, ◌≤◌, List, [], ◌∷◌, ◌++◌, append_assoc, append-nil, ◌≡◌, ◌∙◌, ap, arith,
  Bytes, All, length, length-append,
}
use mysql_replay.Base.Result.{ok, ◌>>=◌}
use mysql_replay.Strconv.Decimal.RoundTrip.{
  parse_uint-format_uint, format_uint-Lacks, format_uint-ne-nil,
}
use mysql_replay.Strconv.Decimal.{format_uint, parse_uint, max_u64}
use mysql_replay.Strconv.Library.{Library, FloatLaws}
use mysql_replay.Strconv.Quote.RoundTrip.{IsBytes, unquote-quote, quote-Lacks, quote-ne-nil}
use mysql_replay.Strconv.Quote.{quote, unquote}
use mysql_replay.Event.Append.{append_body, append_execute}
use mysql_replay.Event.Fields.{Boundary, at_sep, At-next, scan_field-At}
use mysql_replay.Event.Layout.{tags, fields, IsSupported, append_stmt_params-fields}
use mysql_replay.Event.Scan.{
  query, stmt_id, db, scan_field, with_params, scan_query, scan_execute, scan_prepare, scan_close,
  scan_handshake,
}
use mysql_replay.Event.ScanParams.{scan_stmt_params-fields}
use mysql_replay.Event.Types.{
  Param, nil, i64, u64, str, f32, f64, bin, unsupported, MysqlEvent, IsParam, sep, type_lst,
  event_handshake, event_quit, event_query, event_stmt_prepare, event_stmt_execute,
  event_stmt_close,
}

-- The event types that the format knows.
pub data Known (t : ℕ) : Type 0 where
  handshake : t ≡ event_handshake → Known t
  quit : t ≡ event_quit → Known t
  query_event : t ≡ event_query → Known t
  prepare : t ≡ event_stmt_prepare → Known t
  execute : t ≡ event_stmt_execute → Known t
  close : t ≡ event_stmt_close → Known t

module _ (lib : Library) where
  -- What stands behind the type.
  abbrev pub body : {t : ℕ} → Known t → MysqlEvent → Bytes
  body (handshake _) e = sep ∷ quote lib.is_print_table e.db
  body (quit _) e = []
  body (query_event _) e = sep ∷ quote lib.is_print_table e.query
  body (prepare _) e = sep ∷ (format_uint e.stmt_id ++ (sep ∷ quote lib.is_print_table e.query))
  body (execute _) e =
      sep ∷ (format_uint e.stmt_id ++ (sep ∷ (type_lst ∷ (tags e.params ++ fields lib e.params))))
  body (close _) e = sep ∷ format_uint e.stmt_id

-- The fields that an event of its type carries; the others are as `Reset` leaves them.
abbrev pub carried : {t : ℕ} → Known t → MysqlEvent → MysqlEvent
carried (handshake _) e = record e { stmt_id = 0; params = []; query = [] }
carried (quit _) e = record e { stmt_id = 0; params = []; db = []; query = [] }
carried (query_event _) e = record e { stmt_id = 0; params = []; db = [] }
carried (prepare _) e = record e { params = []; db = [] }
carried (execute _) e = record e { db = []; query = [] }
carried (close _) e = record e { params = []; db = []; query = [] }

pub All-IsSupported : (ps : List Param) → All IsParam ps → All IsSupported ps
All-IsSupported [] h = tt
All-IsSupported (unsupported ∷ ps) h = absurd h.0
All-IsSupported (nil ∷ ps) h = (tt, All-IsSupported ps h.1)
All-IsSupported (i64 a ∷ ps) h = (tt, All-IsSupported ps h.1)
All-IsSupported (u64 n ∷ ps) h = (tt, All-IsSupported ps h.1)
All-IsSupported (str s ∷ ps) h = (tt, All-IsSupported ps h.1)
All-IsSupported (f32 x ∷ ps) h = (tt, All-IsSupported ps h.1)
All-IsSupported (f64 x ∷ ps) h = (tt, All-IsSupported ps h.1)
All-IsSupported (bin s ∷ ps) h = (tt, All-IsSupported ps h.1)

module _ (lib : Library) (e : MysqlEvent) where
  pub append_body-body :
      (buf : Bytes) (k : Known e.type)
      → All IsParam e.params
      → append_body lib buf e ≡ ok (buf ++ body lib k e)
  unfolding append_body append_execute
  append_body-body buf (handshake h) ps = rw h (simp append_assoc)
  append_body-body buf (quit h) ps = rw h (rw append-nil)
  append_body-body buf (query_event h) ps = rw h (simp append_assoc)
  append_body-body buf (prepare h) ps = rw h (simp append_assoc)
  append_body-body buf (execute h) ps = rw h (
      append_stmt_params-fields lib _ e.params (All-IsSupported e.params ps)
      ∙ ap ok (simp append_assoc))
  append_body-body buf (close h) ps = rw h (simp append_assoc)

module _ {lib : Library} (laws : FloatLaws lib) {s : Bytes} {p : ℕ} (e : MysqlEvent)
    (rest : Bytes) where
  pub scan_query-At :
      (q : Bytes)
      → At s p (quote lib.is_print_table q ++ rest)
      → Boundary rest
      → IsBytes q
      → scan_query lib s p e ≡ ok (record e { query = q }, p + length (quote lib.is_print_table q))
  unfolding scan_query
  scan_query-At q a b h = rw (
    scan_field-At (unquote lib.unquote_other) query _ rest q a (quote-Lacks _ q h) b
        (quote-ne-nil _ q) (unquote-quote _ _ q h),
    ◌>>=◌,
  )

  pub scan_handshake-At :
      (q : Bytes)
      → At s p (quote lib.is_print_table q ++ rest)
      → Boundary rest
      → IsBytes q
      → scan_handshake lib s p e ≡ ok (record e { db = q }, p + length (quote lib.is_print_table q))
  unfolding scan_handshake
  scan_handshake-At q a b h = rw (
    scan_field-At (unquote lib.unquote_other) db _ rest q a (quote-Lacks _ q h) b (quote-ne-nil _ q)
        (unquote-quote _ _ q h),
    ◌>>=◌,
  )

  pub stmt_id-At :
      (id : ℕ)
      → At s p (format_uint id ++ rest)
      → Boundary rest
      → id ≤ max_u64
      → scan_field parse_uint stmt_id s p ≡ ok (id, p + length (format_uint id))
  stmt_id-At id a b h =
      scan_field-At parse_uint stmt_id _ rest id a (format_uint-Lacks id) b (format_uint-ne-nil id)
        (parse_uint-format_uint id h)

module _ {lib : Library} (laws : FloatLaws lib) {s : Bytes} {p : ℕ} (e : MysqlEvent)
    (rest : Bytes) where
  pub scan_close-At :
      (id : ℕ)
      → At s p (format_uint id ++ rest)
      → Boundary rest
      → id ≤ max_u64
      → scan_close s p e ≡ ok (record e { stmt_id = id }, p + length (format_uint id))
  unfolding scan_close
  scan_close-At id a b h = rw (stmt_id-At laws e rest id a b h, ◌>>=◌)

  pub scan_prepare-At :
      (id : ℕ) (q : Bytes)
      → At s p ((format_uint id ++ (sep ∷ quote lib.is_print_table q)) ++ rest)
      → Boundary rest
      → id ≤ max_u64
      → IsBytes q
      → scan_prepare lib s p e
        ≡ ok (
          record e { stmt_id = id; query = q },
          p + length (format_uint id ++ (sep ∷ quote lib.is_print_table q)),
        )
  unfolding scan_prepare
  scan_prepare-At id q a b h hq =
      let w = format_uint id in
      let list = quote lib.is_print_table q in
      let a1 : At s p (w ++ (sep ∷ (quote lib.is_print_table q ++ rest))) =
        rw (← append_assoc w (sep ∷ list) rest) a in
      let a2 = At-next _ (At-skip w _ a1) in
      let size : p + length w + 1 + length (quote lib.is_print_table q)
          ≡ p + length (w ++ (sep ∷ quote lib.is_print_table q)) =
        omega (arith, length-append w (sep ∷ quote lib.is_print_table q)) in
      rw (stmt_id-At laws e _ id a1 (at_sep _) h, ◌>>=◌)
        (scan_query-At laws (record e { stmt_id = id }) rest q a2 b hq ∙ rw size)

  pub scan_execute-At :
      (id : ℕ) (ps : List Param)
      → At s p ((format_uint id ++ (sep ∷ (type_lst ∷ (tags ps ++ fields lib ps)))) ++ rest)
      → Boundary rest
      → id ≤ max_u64
      → All IsParam ps
      → scan_execute lib s p e
        ≡ ok (
          record e { stmt_id = id; params = ps },
          p + length (format_uint id ++ (sep ∷ (type_lst ∷ (tags ps ++ fields lib ps)))),
        )
  unfolding scan_execute with_params
  scan_execute-At id ps a b h hp =
      let w = format_uint id in
      let list = type_lst ∷ (tags ps ++ fields lib ps) in
      let a1 : At s p (w ++ (sep ∷ (list ++ rest))) = rw (← append_assoc w (sep ∷ list) rest) a in
      let a2 = At-next _ (At-skip w _ a1) in
      let size : p + length w + 1 + length list ≡ p + length (w ++ (sep ∷ list)) =
        omega (arith, length-append w (sep ∷ list)) in
      rw
        (
          stmt_id-At laws e _ id a1 (at_sep _) h,
          ◌>>=◌,
          scan_stmt_params-fields laws ps [] rest hp a2 b,
          with_params,
        )
        (rw size)
