-- ===== src/Event/Tests.antt =====
-- Events and texts at which the theorems on event/event.go are applied.
use mysql_replay.Base.{
  ◌+◌, ◌≡◌, refl, arith, List, [], ◌∷◌, ◌++◌, none, false, Bytes, codes, length,
}
use mysql_replay.Base.Int.{pos, negsuc}
use mysql_replay.Base.Result.{ok, panic}
use mysql_replay.Strconv.Decimal.RoundTrip.{
  parse_uint-format_uint, format_uint-Lacks, format_uint-ne-nil,
}
use mysql_replay.Strconv.Decimal.{format_uint, parse_uint, parse_int, scan_digits}
use mysql_replay.Strconv.Library.{Library, FloatLaws}
use mysql_replay.Event.Append.{append_event, append_stmt_params}
use mysql_replay.Event.Fields.{at_sep}
use mysql_replay.Event.Layout.{tags, fields, append_stmt_params-fields}
use mysql_replay.Event.Malformed.{
  scan_event_no_params, no_params_text, scan_stmt_params_short, short_list,
}
use mysql_replay.Event.Body.{execute}
use mysql_replay.Event.RoundTrip.{scan_event-append_event}
use mysql_replay.Event.Safety.{Within, HasType, scan_event-Within}
use mysql_replay.Event.Scan.{
  time, type, index_byte, next_sep, slice, scan_event, scan_stmt_params, scan_field,
}
use mysql_replay.Event.Types.{
  Param, nil, i64, u64, str, f64, bin, MysqlEvent, reset, IsEvent, event_stmt_execute, sep,
  type_lst,
}

-- A library whose floats are printed as their bit patterns.
abbrev plain : Library
plain = record {
  is_print_table = λ c. false;
  unquote_other = λ s. none;
  format_float = λ w x. format_uint x;
  parse_float = λ w s. parse_uint s;
}

plain-FloatLaws : FloatLaws plain
plain-FloatLaws = record {
  read_back32 = λ x h n. parse_uint-format_uint x (omega arith);
  read_back64 = λ x h n. parse_uint-format_uint x (omega arith);
  no_tab = λ w x. format_uint-Lacks x;
  not_empty = λ w x. format_uint-ne-nil x;
}

abbrev empty : MysqlEvent
empty = record { time = pos 0; type = 0; stmt_id = 0; params = []; db = []; query = [] }

abbrev some_params : List Param
some_params = i64 (negsuc 41) ∷ u64 7 ∷ str (codes "a\tb") ∷ f64 5 ∷ bin (0 ∷ 255 ∷ []) ∷ nil ∷ []

abbrev execution : MysqlEvent
execution = record empty {
  time = pos 1612345678;
  type = event_stmt_execute;
  stmt_id = 3;
  params = some_params;
}

execution-IsEvent : IsEvent execution
execution-IsEvent = record {
  time = omega arith;
  type = omega arith;
  stmt_id = omega arith;
  params = (
    (omega arith, omega arith),
    (
      omega arith,
      (
        (omega arith, (omega arith, (omega arith, tt))),
        ((omega arith, refl), ((omega arith, (omega arith, tt)), (tt, tt))),
      ),
    ),
  );
  db = tt;
  query = tt;
}

scan_event-append_event_example :
    (b : Bytes) × (append_event plain [] execution ≡ ok b)
    × (scan_event plain (codes "1\t1\t" ++ (b ++ sep ∷ [])) 4 (reset empty [])
        ≡ ok (execution, 4 + length b))
scan_event-append_event_example =
    scan_event-append_event plain-FloatLaws empty execution (execute refl) (codes "1\t1\t")
      (sep ∷ []) execution-IsEvent (at_sep [])

append_stmt_params-fields_example :
    append_stmt_params plain (codes "x") some_params
    ≡ ok (codes "x" ++ (type_lst ∷ (tags some_params ++ fields plain some_params)))
append_stmt_params-fields_example =
    append_stmt_params-fields plain (codes "x") some_params (tt, (tt, (tt, (tt, (tt, (tt, tt))))))

scan_event_no_params_example :
    scan_event plain (codes "x" ++ no_params_text (pos 5) 3) 1 empty ≡ panic
scan_event_no_params_example =
    scan_event_no_params plain (codes "x") (pos 5) 3 empty (omega arith) (omega arith)

scan_stmt_params_short_example :
    scan_stmt_params plain (short_list plain (u64 7 ∷ []) type_lst []) 0 [] ≡ panic
scan_stmt_params_short_example =
    scan_stmt_params_short plain-FloatLaws [] (u64 7 ∷ []) [] type_lst [] (omega arith, tt)
      (omega arith, tt)

-- An event of type 2, a query.
abbrev query_text : Bytes
query_text = codes "12\t2\t\"select 1\"\t"

time_reads : scan_field parse_int time query_text 0 ≡ ok (pos 12, 2)
unfolding scan_field next_sep index_byte slice parse_int parse_uint scan_digits
time_reads = refl

type_reads : scan_field parse_uint type query_text 3 ≡ ok (2, 4)
unfolding scan_field next_sep index_byte slice parse_uint scan_digits
type_reads = refl

scan_event-Within_example : Within query_text 0 (scan_event plain query_text 0 empty)
scan_event-Within_example = scan_event-Within plain query_text 0 empty no_execution
  where
    no_execution : ¬ HasType query_text 0 event_stmt_execute
    no_execution (a, q, n, f, g) =
        let at : q ≡ 2 = cc (f, time_reads) in
        let read : scan_field parse_uint type query_text 3 ≡ ok (event_stmt_execute, n) =
          rw at at g in
        cc (read, type_reads)
