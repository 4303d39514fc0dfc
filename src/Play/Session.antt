-- ===== src/Play/Session.antt =====
-- cmd/text.go: `playWorker.start`, the events of a file, one after the other.
use mysql_replay.Base.{
  zero, suc, Bool, true, false, List, [], ◌∷◌, Option, none, some, Bytes, if◌then◌else◌, ◌==◌,
}
use mysql_replay.Base.Int.{ℤ, pos, negsuc, ltb_ℤ}
use mysql_replay.Base.Result.{ok, err, panic}
use mysql_replay.Event.Types.{
  MysqlEvent, event_handshake, event_quit, event_query, event_stmt_prepare, event_stmt_execute,
  event_stmt_close, reset,
}
use mysql_replay.Event.Scan.{scan_event}
use mysql_replay.Strconv.Library.{Library}
use mysql_replay.Play.Driver.{deadline_exceeded, conn_done, invalid_conn, Driver}
use mysql_replay.Play.Worker.{
  Worker, PlayError, traced, Outcome, done, fail, count, minus_one, execute, stmt_prepare,
  stmt_execute, stmt_close, quit, handshake,
}
use mysql_replay.Stats.Counter.{name, waiting_conns}
use mysql_replay.Stats.Lagging.{set_lagging}

-- What the replay meets before an event: `delay` is `WaitTime` of the event, by the clock and the
-- speed, and `cancelled` tells whether the context is done, at once or before the delay is over.
pub record Occasion : Type 0 where
  pub delay : ℤ
  pub cancelled : Bool

-- `target` is the schema of the target, and `dry_run` the option.
pub record Config : Type 0 where
  pub target : Bytes
  pub dry_run : Bool

abbrev pub without_value : {A : Type 0} → Outcome A × Worker → Outcome Unit × Worker
without_value (done a, w) = (done tt, w)
without_value (fail e, w) = (fail e, w)

-- The `switch e.Type`.
unfoldable pub apply : Driver → Bytes → Worker → MysqlEvent → Outcome Unit × Worker
unfolding execute stmt_execute stmt_prepare stmt_close quit handshake
apply dr target w e =
    if e.type == event_query
    then execute dr target w e.query
    else if e.type == event_stmt_execute
    then stmt_execute dr target w e.stmt_id e.params
    else if e.type == event_stmt_prepare
    then stmt_prepare dr target w e.stmt_id e.query
    else if e.type == event_stmt_close
    then (done tt, stmt_close dr w e.stmt_id)
    else if e.type == event_handshake
    then without_value (handshake dr target (quit dr w false) e.db)
    else if e.type == event_quit
    then (done tt, quit dr w false)
    else (done tt, w)

-- `errors.Unwrap` gives the cause of a traced error only.
abbrev pub is_lost : PlayError → Bool
is_lost (traced deadline_exceeded) = true
is_lost (traced conn_done) = true
is_lost (traced invalid_conn) = true
is_lost _ = false

-- What follows an error.
unfoldable pub recover : Driver → Bytes → Outcome Unit × Worker → Worker
unfolding quit handshake
recover dr target (done _, w) = w
recover dr target (fail e, w) =
    let parted = quit dr w true in
    let again = (handshake dr target parted parted.schema).1 in if is_lost e then again else w

abbrev pub lag : Worker → ℤ → Worker
lag w d = record w { laggings = set_lagging w.laggings w.id d }

-- -d
abbrev pub negated : ℤ → ℤ
negated (pos zero) = pos 0
negated (pos (suc n)) = negsuc n
negated (negsuc n) = pos (suc n)

-- `event` is the record that all scans share.
pub record Session : Type 0 where
  pub worker : Worker
  pub event : MysqlEvent
  pub slow : Bool

pub data Progress : Type 0 where
  goes : Session → Progress
  returns : Session → Progress
  crashes : Progress

-- The wait for an event; `returns` where the context is done.
unfoldable pub wait : Session → Occasion → Progress
wait s o =
    let waiting = count s.worker (name waiting_conns) 1 in
    let over = count waiting (name waiting_conns) minus_one in
    let caught_up = if s.slow then lag over (pos 0) else over in
    if ltb_ℤ (pos 0) o.delay
    then (if o.cancelled
        then returns (record s { worker = over })
        else goes (record s { worker = caught_up; slow = false }))
    else if o.cancelled
    then returns s
    else goes (record s { worker = lag s.worker (negated o.delay); slow = true })

abbrev pub replay : Driver → Config → Progress → Progress
replay dr cfg (goes s) =
    if cfg.dry_run
    then goes s
    else goes (record s { worker = recover dr cfg.target (apply dr cfg.target s.worker s.event) })
replay dr cfg (returns s) = returns s
replay dr cfg crashes = crashes

-- One round of the loop. A panic of `ScanEvent` ends the process.
unfoldable pub round : Library → Driver → Config → Session → Bytes → Occasion → Progress
unfolding wait apply recover
round lib dr cfg s line o = elim (scan_event lib line 0 (reset s.event [])) [
  | ok (e, end) ↦ replay dr cfg (wait (record s { event = e }) o)
  | err f ↦ returns s
  | panic ↦ crashes
]

-- The lines are those that `bufio.Scanner` gives.
unfoldable pub rounds : Library → Driver → Config → Progress → List (Bytes × Occasion) → Progress
unfolding round
rounds lib dr cfg (goes s) ((line, o) ∷ rest) = rounds lib dr cfg (round lib dr cfg s line o) rest
rounds lib dr cfg (goes s) [] = returns s
rounds lib dr cfg (returns s) _ = returns s
rounds lib dr cfg crashes _ = crashes

-- The deferred calls.
abbrev pub finished : Driver → Progress → Option Worker
finished dr crashes = none
finished dr (goes s) = some (lag (quit dr s.worker false) (pos 0))
finished dr (returns s) = some (lag (quit dr s.worker false) (pos 0))

abbrev pub no_event : MysqlEvent
no_event = record { time = pos 0; type = 0; stmt_id = 0; params = []; db = []; query = [] }

unfoldable pub start : Library → Driver → Config → Worker → List (Bytes × Occasion) → Option Worker
unfolding rounds
start lib dr cfg w lines =
    finished dr
      (rounds lib dr cfg (goes (record { worker = w; event = no_event; slow = false })) lines)
