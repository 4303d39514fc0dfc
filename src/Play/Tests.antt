-- ===== src/Play/Tests.antt =====
-- A database and a file at which the theorems on the replay are applied.
use mysql_replay.Base.{
  ℕ, ◌+◌, arith, false, ◌≡◌, refl, List, [], ◌∷◌, Option, some, none, Bytes, length, codes,
}
use mysql_replay.Base.Int.{pos, negsuc}
use mysql_replay.Base.Map.{lookup, insert, erase, nat_eq}
use mysql_replay.Event.Scan.{
  scan_event, scan_field, slice, next_sep, index_byte, scan_handshake, scan_query, scan_prepare,
}
use mysql_replay.Strconv.Decimal.{parse_int}
use mysql_replay.Strconv.Quote.{unquote, unquote_char}
use mysql_replay.Play.Reconnect.{recover-stmt_execute}
use mysql_replay.Play.Invariant.{Base, IsWorker}
use mysql_replay.Play.Handles.{
  Kind, of_pool, of_conn, of_stmt, Owes, opened, closed, held, opens, closes,
}
use mysql_replay.Stats.Counter.{name, conns, get, add, Variable-discrete}
use mysql_replay.Play.Driver.{
  conn_done, prepare_stmt, exec_stmt, open_pool, open_conn, Driver, gave,
}
use mysql_replay.Play.Replay.{IsNew, AllClosed, start-AllClosed}
use mysql_replay.Play.Session.{Occasion, Config, recover, start}
use mysql_replay.Play.Worker.{stmt_execute, fail, traced, Worker}
use mysql_replay.Stats.Laws.{initial}
use mysql_replay.Strconv.Library.{Library}

-- Every request succeeds with a handle of its own.
abbrev willing : Driver
willing past q = gave (length past)

abbrev worker : Worker
worker = record {
  id = 7;
  schema = [];
  pool = none;
  conn = none;
  stmts = [];
  stats = initial;
  laggings = [];
  history = [];
}

worker-IsNew : IsNew [] worker
worker-IsNew = record { stmts = refl; pool = refl; conn = refl; history = refl; stats = refl }

abbrev at_once : Occasion
at_once = record { delay = negsuc 4; cancelled = false }

abbrev plain : Library
plain = record {
  is_print_table = λ c. false;
  unquote_other = λ s. none;
  format_float = λ w x. [];
  parse_float = λ w s. none;
}

abbrev config : Config
config = record { target = codes "test"; dry_run = false }

abbrev file : List (Bytes × Occasion)
file =
    (codes "1000\t0\t\"db\"", at_once)
    ∷ (codes "1001\t2\t\"select 1\"", record { delay = pos 3; cancelled = false })
    ∷ (codes "1002\t3\t9\t\"select ?\"", at_once)
    ∷ (codes "1003\t2\t\"select 2\"", at_once)
    ∷ []

abbrev behind : Option Worker → Worker
behind none = worker
behind (some z) = z

abbrev replayed : Worker
replayed = behind (start plain willing config worker file)

-- A pool, a connection and a statement are opened, three requests run, and the three are closed.
start_file : start plain willing config worker file ≡ some replayed
unfolding start scan_event scan_field slice next_sep index_byte parse_int scan_handshake unquote
    unquote_char scan_query scan_prepare
start_file = refl

replayed-history : length replayed.history ≡ 8
unfolding start scan_event scan_field slice next_sep index_byte parse_int scan_handshake unquote
    unquote_char scan_query scan_prepare lookup insert erase
replayed-history = refl

start-AllClosed_example : AllClosed [] replayed
start-AllClosed_example =
    start-AllClosed [] plain willing config worker replayed file worker-IsNew start_file

-- A worker with a connection and a prepared statement, which loses the connection.
abbrev connected : Worker
connected = record {
  id = 7;
  schema = codes "db";
  pool = some 1;
  conn = some 2;
  stmts = (9, record { query = codes "?"; handle = some 3 }) ∷ [];
  stats = (add initial (name conns) 1).0;
  laggings = [];
  history =
      (prepare_stmt 2 (codes "?"), gave 3)
      ∷ (open_conn 1, gave 2)
      ∷ (open_pool (codes "db"), gave 1)
      ∷ [];
}

abbrev no_counters : Base
no_counters = record { open_conns = 0; running = 0; waiting = 0 }

connected-Owes : Owes connected.history (held connected)
unfolding opened closed held opens closes
connected-Owes = record { even = even }
  where
    even :
        (k : Kind) (h : ℕ)
        → opened k h connected.history ≡ closed k h connected.history + held connected k h
    even of_pool h = omega arith
    even of_conn h = omega arith
    even of_stmt h = omega arith

connected-IsWorker : IsWorker no_counters connected
unfolding get add lookup Variable-discrete
connected-IsWorker = record {
  distinct = (refl, tt);
  owes = connected-Owes;
  open_conns = refl;
  running = refl;
  waiting = refl;
}

abbrev recovered : Worker
recovered = recover willing (codes "test") (fail (traced conn_done), connected)

recover-stmt_execute_example :
    ((stmt_execute willing (codes "test") recovered 9 []).1.history
      ≡ (exec_stmt 8 [], gave 9) ∷ (prepare_stmt 7 (codes "?"), gave 8) ∷ recovered.history)
    × (lookup 9 (stmt_execute willing (codes "test") recovered 9 []).1.stmts
        ≡ some (record { query = codes "?"; handle = some 8 }))
unfolding recover lookup
recover-stmt_execute_example =
    recover-stmt_execute willing (codes "test") no_counters connected recovered (traced conn_done) 9
      (record { query = codes "?"; handle = some 3 }) [] 6 7 8 connected-IsWorker refl refl refl
      refl refl refl
