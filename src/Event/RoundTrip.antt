-- ===== src/Event/RoundTrip.antt =====
-- event/event.go: `AppendEvent`, then `ScanEvent`.
use mysql_replay.Base.{
  At, At-here, At-skip, ℕ, ◌+◌, [], ◌∷◌, ◌++◌, append_assoc, ◌≡◌, ◌∙◌, ap, arith, Bytes, All,
  length, length-append,
}
use mysql_replay.Base.Result.{ok, ◌>>=◌}
use mysql_replay.Strconv.Decimal.RoundTrip.{
  parse_uint-format_uint, parse_int-format_int, format_uint-Lacks, format_int-Lacks,
  format_uint-ne-nil, format_int-ne-nil,
}
use mysql_replay.Strconv.Decimal.{format_uint, format_int, parse_uint, parse_int}
use mysql_replay.Strconv.Library.{Library, FloatLaws}
use mysql_replay.Strconv.Quote.{quote}
use mysql_replay.Event.Append.{append_event}
use mysql_replay.Event.Fields.{Boundary, at_sep, At-next, scan_field-At}
use mysql_replay.Event.Layout.{tags, fields}
use mysql_replay.Event.Scan.{time, type, scan_body, scan_event}
use mysql_replay.Event.Types.{MysqlEvent, reset, IsParam, IsEvent, sep, type_lst}
use mysql_replay.Event.Body.{
  Known, handshake, quit, query_event, prepare, execute, close, body, carried, append_body-body,
  scan_query-At, scan_handshake-At, scan_close-At, scan_prepare-At, scan_execute-At,
}

after_sep : (p : ℕ) (w : Bytes) → p + 1 + length w ≡ p + length (sep ∷ w)
after_sep p w = omega arith

body-Boundary :
    (lib : Library) (e : MysqlEvent) {t : ℕ} (k : Known t) (rest : Bytes)
    → Boundary rest
    → Boundary (body lib k e ++ rest)
body-Boundary lib e (quit h) rest b = b
body-Boundary lib e (handshake h) rest b = at_sep _
body-Boundary lib e (query_event h) rest b = at_sep _
body-Boundary lib e (prepare h) rest b = at_sep _
body-Boundary lib e (execute h) rest b = at_sep _
body-Boundary lib e (close h) rest b = at_sep _

-- An event after `Reset` and its first two fields.
abbrev fresh : MysqlEvent → MysqlEvent
fresh e = record { time = e.time; type = e.type; stmt_id = 0; params = []; db = []; query = [] }

-- The switch, with the type at the head of the event known.
module _ {lib : Library} (laws : FloatLaws lib) {s : Bytes} {p : ℕ} (e : MysqlEvent)
    (rest : Bytes) where
  scan_body-body :
      (k : Known e.type)
      → IsEvent e
      → At s p (body lib k e ++ rest)
      → Boundary rest
      → scan_body lib s p (fresh e) ≡ ok (carried k e, p + length (body lib k e))
  unfolding scan_body
  scan_body-body (quit h) v a b = let z : p + 0 ≡ p = omega arith in rw h (rw z)
  scan_body-body (handshake h) v a b = rw h (
      scan_handshake-At laws _ rest e.db (At-next _ a) b v.db
      ∙ rw (after_sep p (quote lib.is_print_table e.db)))
  scan_body-body (query_event h) v a b = rw h (
      scan_query-At laws _ rest e.query (At-next _ a) b v.query
      ∙ rw (after_sep p (quote lib.is_print_table e.query)))
  scan_body-body (prepare h) v a b = rw h (
      scan_prepare-At laws _ rest e.stmt_id e.query (At-next _ a) b v.stmt_id v.query
      ∙ rw (after_sep p (format_uint e.stmt_id ++ (sep ∷ quote lib.is_print_table e.query))))
  scan_body-body (execute h) v a b = rw h (
      scan_execute-At laws _ rest e.stmt_id e.params (At-next _ a) b v.stmt_id v.params
      ∙ rw (
          after_sep p
            (format_uint e.stmt_id ++ (sep ∷ (type_lst ∷ (tags e.params ++ fields lib e.params))))))
  scan_body-body (close h) v a b = rw h (
      scan_close-At laws _ rest e.stmt_id (At-next _ a) b v.stmt_id
      ∙ rw (after_sep p (format_uint e.stmt_id)))

-- The whole text of an event.
abbrev pub layout : Library → (e : MysqlEvent) → Known e.type → Bytes
layout lib e k = format_int e.time ++ (sep ∷ (format_uint e.type ++ body lib k e))

pub append_event-layout :
    (lib : Library) (buf : Bytes) (e : MysqlEvent) (k : Known e.type)
    → All IsParam e.params
    → append_event lib buf e ≡ ok (buf ++ layout lib e k)
unfolding append_event
append_event-layout lib buf e k h = append_body-body lib e _ k h ∙ ap ok (simp append_assoc)

pub scan_event-layout :
    {lib : Library} (laws : FloatLaws lib) (old e : MysqlEvent) (k : Known e.type) (s rest : Bytes)
    (p : ℕ)
    → IsEvent e
    → At s p (layout lib e k ++ rest)
    → Boundary rest
    → scan_event lib s p (reset old []) ≡ ok (carried k e, p + length (layout lib e k))
unfolding scan_event reset
scan_event-layout {lib} laws old e k s rest p v a b =
    let w = format_int e.time in
    let u = format_uint e.type in
    let a1 : At s p (w ++ (sep ∷ (u ++ (body lib k e ++ rest)))) =
      rw (append_assoc w (sep ∷ (u ++ body lib k e)) rest, append_assoc u (body lib k e) rest) at
        a in
    let a2 = At-next _ (At-skip w _ a1) in
    let size : p + length w + 1 + length u + length (body lib k e) ≡ p + length (layout lib e k) =
      omega (arith, length-append w (sep ∷ (u ++ body lib k e)), length-append u (body lib k e)) in
    rw
      (
        scan_field-At parse_int time w _ e.time a1 (format_int-Lacks e.time) (at_sep _)
            (format_int-ne-nil e.time) (parse_int-format_int e.time v.time),
        ◌>>=◌,
        scan_field-At parse_uint type u _ e.type a2 (format_uint-Lacks e.type)
            (body-Boundary lib e k rest b) (format_uint-ne-nil e.type)
            (parse_uint-format_uint e.type v.type),
        ◌>>=◌,
      )
      (scan_body-body laws e rest k v (At-skip u _ a2) b ∙ rw size)

-- An event of a known type, with fields in the ranges of their Go types and parameters of the types that
-- the format has, NaN apart, is written without an error. Read at any place of a text, with a separator
-- or the end of the text behind it, it gives the fields that its type carries, and the scan stops at its
-- end. The shortest print of a float is taken to read back to the float, as documented.
pub scan_event-append_event :
    {lib : Library} (laws : FloatLaws lib) (old e : MysqlEvent) (k : Known e.type)
    (pre rest : Bytes)
    → IsEvent e
    → Boundary rest
    → (b : Bytes) × (append_event lib [] e ≡ ok b)
      × (scan_event lib (pre ++ (b ++ rest)) (length pre) (reset old [])
          ≡ ok (carried k e, length pre + length b))
scan_event-append_event {lib} laws old e k pre rest v end = (
  layout lib e k,
  append_event-layout lib [] e k v.params,
  scan_event-layout laws old e k _ rest (length pre) v (At-here pre _) end,
)
