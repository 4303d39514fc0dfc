-- ===== src/Dump/Tests.antt =====
-- Events and a database at which the theorems on the dump of a connection are applied.
use mysql_replay.Base.{
  ℕ, ◌+◌, ◌≤◌, false, ◌≡◌, inl, inr, refl, sym, ap, ◌∙◌, arith, List, [], ◌∷◌, ◌++◌, Option, some,
  none, codes, All, Bool-cases, ==_iff, ◌==◌,
}
use mysql_replay.Base.Int.{pos, negsuc}
use mysql_replay.Dump.Lines.{
  IsDumpable, joined_lines, lines_at, start-lines_at, last_time, on_close-events,
}
use mysql_replay.Dump.{TextDumpHandler, renamed_file, new_dump_handler, on_events, on_close}
use mysql_replay.Event.Body.{query_event, prepare, execute}
use mysql_replay.Event.Types.{i64, MysqlEvent, event_query, event_stmt_prepare, event_stmt_execute}
use mysql_replay.Play.Driver.{
  open_pool, open_conn, prepare_stmt, exec_query, exec_stmt, close_stmt, close_conn, close_pool,
  failed, gave, History, Driver,
}
use mysql_replay.Play.Refinement.{IsReliable}
use mysql_replay.Play.Replay.{IsNew}
use mysql_replay.Play.Session.{Occasion, Config, start}
use mysql_replay.Play.Spec.{spec, ran, resolve, prepares}
use mysql_replay.Play.Worker.{Worker}
use mysql_replay.Stats.Laws.{initial}
use mysql_replay.Strconv.Decimal.RoundTrip.{
  parse_uint-format_uint, format_uint-Lacks, format_uint-ne-nil,
}
use mysql_replay.Strconv.Decimal.{format_uint, parse_uint, format_int}
use mysql_replay.Strconv.Library.{Library, FloatLaws}

-- A library whose floats are printed as their bit patterns.
abbrev plain : Library
plain = record {
  is_print_table = λ c. false;
  unquote_other = λ s. none;
  format_float = λ w x. format_uint x;
  parse_float = λ w s. parse_uint s;
}

plain-FloatLaws : FloatLaws plain
plain-FloatLaws = record {
  read_back32 = λ x h n. parse_uint-format_uint x (omega arith);
  read_back64 = λ x h n. parse_uint-format_uint x (omega arith);
  no_tab = λ w x. format_uint-Lacks x;
  not_empty = λ w x. format_uint-ne-nil x;
}

-- A handle above all that were given.
abbrev next : History → ℕ
next [] = 1
next ((q, gave n) ∷ past) = n + 1 + next past
next ((q, failed e) ∷ past) = next past

abbrev careful : Driver
careful past q = gave (next past)

resolve-next : (h : ℕ) (past : History) → next past ≤ h → resolve h past ≡ none
unfolding resolve prepares
resolve-next h [] e = refl
resolve-next h ((q, failed x) ∷ past) e = resolve-next h past e
resolve-next h ((prepare_stmt c t, gave n) ∷ past) e = elim (Bool-cases (n == h)) [
  | inl k ↦ absurd (omega (arith, e, (==_iff n h).0 k))
  | inr k ↦ rw k (resolve-next h past (omega (arith, e)))
]
resolve-next h ((open_pool s, gave n) ∷ past) e = resolve-next h past (omega (arith, e))
resolve-next h ((open_conn s, gave n) ∷ past) e = resolve-next h past (omega (arith, e))
resolve-next h ((exec_query c s, gave n) ∷ past) e = resolve-next h past (omega (arith, e))
resolve-next h ((exec_stmt c s, gave n) ∷ past) e = resolve-next h past (omega (arith, e))
resolve-next h ((close_stmt s, gave n) ∷ past) e = resolve-next h past (omega (arith, e))
resolve-next h ((close_conn s, gave n) ∷ past) e = resolve-next h past (omega (arith, e))
resolve-next h ((close_pool s, gave n) ∷ past) e = resolve-next h past (omega (arith, e))

gave_injective : (n m : ℕ) → gave n ≡ gave m → n ≡ m
gave_injective n m e = cc

careful-IsReliable : IsReliable careful
careful-IsReliable = record {
  answers = λ past q. (next past, refl);
  fresh = λ past c n text r.
      (let same : next past ≡ n = gave_injective (next past) n r in
        resolve-next n past (omega (arith, same)));
}

abbrev worker : Worker
worker = record {
  id = 7;
  schema = [];
  pool = none;
  conn = none;
  stmts = [];
  stats = initial;
  laggings = [];
  history = [];
}

worker-IsNew : IsNew [] worker
worker-IsNew = record { stmts = refl; pool = refl; conn = refl; history = refl; stats = refl }

abbrev config : Config
config = record { target = codes "test"; dry_run = false }

abbrev in_time : ℕ → Occasion
in_time n = record { delay = negsuc n; cancelled = false }

abbrev a_query : MysqlEvent
a_query = record {
  time = pos 1000;
  type = event_query;
  stmt_id = 0;
  params = [];
  db = [];
  query = codes "a";
}

abbrev a_prepare : MysqlEvent
a_prepare = record a_query {
  time = pos 1001;
  type = event_stmt_prepare;
  stmt_id = 9;
  query = codes "?";
}

abbrev an_execute : MysqlEvent
an_execute = record a_query {
  time = pos 1002;
  type = event_stmt_execute;
  stmt_id = 9;
  params = i64 (negsuc 4) ∷ [];
  query = [];
}

a_query-IsDumpable : IsDumpable a_query
a_query-IsDumpable = record {
  known = query_event refl;
  valid = record {
    time = omega arith;
    type = omega arith;
    stmt_id = omega arith;
    params = tt;
    db = tt;
    query = (omega arith, tt);
  };
}

a_prepare-IsDumpable : IsDumpable a_prepare
a_prepare-IsDumpable = record {
  known = prepare refl;
  valid = record {
    time = omega arith;
    type = omega arith;
    stmt_id = omega arith;
    params = tt;
    db = tt;
    query = (omega arith, tt);
  };
}

an_execute-IsDumpable : IsDumpable an_execute
an_execute-IsDumpable = record {
  known = execute refl;
  valid = record {
    time = omega arith;
    type = omega arith;
    stmt_id = omega arith;
    params = ((omega arith, omega arith), tt);
    db = tt;
    query = tt;
  };
}

abbrev some_events : List MysqlEvent
some_events = a_query ∷ a_prepare ∷ an_execute ∷ []

some_events-IsDumpable : All IsDumpable some_events
some_events-IsDumpable = (a_query-IsDumpable, (a_prepare-IsDumpable, (an_execute-IsDumpable, tt)))

start-lines_at_example :
    (z : Worker) × (start plain careful config worker (lines_at plain in_time 0 some_events)
      ≡ some z)
    × (ran z.history ≡ spec [] some_events)
start-lines_at_example =
    start-lines_at plain plain-FloatLaws in_time (λ n. refl) [] careful config worker some_events
      careful-IsReliable refl worker-IsNew some_events-IsDumpable

on_close-events_example :
    (z : TextDumpHandler) × (on_events plain (new_dump_handler (codes "0f") initial) some_events
      ≡ some z)
    × (z.written ≡ joined_lines plain some_events)
    × ((on_close z).file
        ≡ renamed_file (
            format_int (pos 1000)
            ++ (b'.' ∷ format_int (last_time (pos 1000) (a_prepare ∷ an_execute ∷ []))
                ++ (b'.' ∷ codes "0f" ++ codes ".tsv"))))
on_close-events_example =
    on_close-events plain (codes "0f") initial a_query (a_prepare ∷ an_execute ∷ [])
      some_events-IsDumpable refl

abbrev empty_handler : TextDumpHandler
empty_handler = new_dump_handler (codes "0f") initial

abbrev behind : Option TextDumpHandler → TextDumpHandler
behind none = empty_handler
behind (some z) = z

abbrev dumped_handler : TextDumpHandler
dumped_handler = behind (on_events plain empty_handler some_events)

on_events-some_events : on_events plain empty_handler some_events ≡ some dumped_handler
on_events-some_events =
    let (z, r, w, f) =
      on_close-events plain (codes "0f") initial a_query (a_prepare ∷ an_execute ∷ [])
        some_events-IsDumpable refl in
    r ∙ sym (ap (λ o. some (behind o)) r)
