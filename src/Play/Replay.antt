-- ===== src/Play/Replay.antt =====
-- cmd/text.go: `playWorker.start`, from a new worker to its end.
use Prim.Native.String.{String}
use mysql_replay.Base.{
  ==_refl, ℕ, ◌+◌, ◌%◌, ◌^◌, false, List, [], ◌∷◌, none, some, Bytes, ◌≡◌, refl, ◌∙◌, arith,
}
use mysql_replay.Base.Int.{pos}
use mysql_replay.Base.Map.{Map, nat_eq, lookup, lookup-erase}
use mysql_replay.Play.Driver.{Driver}
use mysql_replay.Play.Handles.{Kind, of_pool, of_conn, of_stmt, opened, closed, held}
use mysql_replay.Play.Invariant.{Base, IsWorker}
use mysql_replay.Play.Quit.{IsQuit, quit-IsQuit}
use mysql_replay.Play.Session.{
  Occasion, Config, lag, Session, Progress, goes, returns, crashes, rounds, finished, no_event,
  start,
}
use mysql_replay.Play.Worker.{Statement, Worker, left, quit}
use mysql_replay.Stats.Lagging.{set_lagging}
use mysql_replay.Stats.Laws.{run, sum_of, initial, get-run}
use mysql_replay.Stats.Counter.{name, running_conns, waiting_conns, conns, get}
use mysql_replay.Strconv.Library.{Library}
use mysql_replay.Play.Rounds.{rounds-Steady, Steady}

-- A worker as `newPlayControl` makes it, where the process has counted `ops`.
pub record IsNew (ops : List (String × ℕ)) (w : Worker) : Type 0 where
  pub stmts : w.stmts ≡ []
  pub pool : w.pool ≡ none
  pub conn : w.conn ≡ none
  pub history : w.history ≡ []
  pub stats : w.stats ≡ run initial ops

abbrev base_of : List (String × ℕ) → Base
base_of ops = record {
  open_conns = sum_of (name conns) ops;
  running = sum_of (name running_conns) ops;
  waiting = sum_of (name waiting_conns) ops;
}

IsNew-IsWorker : (ops : List (String × ℕ)) (w : Worker) → IsNew ops w → IsWorker (base_of ops) w
unfolding held opened closed
IsNew-IsWorker ops w n = record {
  distinct = rw n.stmts tt;
  owes = record { even = nothing };
  open_conns = rw (n.stats, n.conn) (omega (arith, get-run ops (name conns)));
  running = rw n.stats (get-run ops (name running_conns));
  waiting = rw n.stats (get-run ops (name waiting_conns));
}
  where
    nothing : (k : Kind) (h : ℕ) → opened k h w.history ≡ closed k h w.history + held w k h
    nothing of_pool h = rw (n.history, n.pool) refl
    nothing of_conn h = rw (n.history, n.conn) refl
    nothing of_stmt h = rw (n.history, n.stmts) refl

-- All is closed, and the counters of what goes on are what they would be without the worker.
pub record AllClosed (ops : List (String × ℕ)) (z : Worker) : Type 0 where
  pub handles : (k : Kind) (h : ℕ) → opened k h z.history ≡ closed k h z.history
  pub open_conns : get z.stats (name conns) ≡ sum_of (name conns) ops % 2 ^ 64
  pub running : get z.stats (name running_conns) ≡ sum_of (name running_conns) ops % 2 ^ 64
  pub waiting : get z.stats (name waiting_conns) ≡ sum_of (name waiting_conns) ops % 2 ^ 64
  pub lagging : lookup z.id z.laggings ≡ none

finished-AllClosed :
    (ops : List (String × ℕ)) (dr : Driver) (w z : Worker)
    → IsWorker (base_of ops) w
    → z ≡ lag (quit dr w false) (pos 0)
    → AllClosed ops z
unfolding held left set_lagging
finished-AllClosed ops dr w z v e =
    let y = quit dr w false in
    let q : IsQuit (base_of ops) false w y = quit-IsQuit (base_of ops) dr w false v in
    let x = q.valid in
    let empty : (k : Kind) (h : ℕ) → held y k h ≡ 0 =
      nothing y q.pool q.conn (q.stmts ∙ left_none w.stmts) in
    rw e (record {
      handles = λ k h. omega (arith, x.owes.even k h, empty k h);
      open_conns = omega (arith, rw q.conn at x.open_conns);
      running = x.running;
      waiting = x.waiting;
      lagging = rw (lookup-erase y.id y.id y.laggings, ==_refl y.id) refl;
    })
  where
    left_none : (m : Map ℕ Statement) → left false m ≡ []
    left_none [] = refl
    left_none ((id, s) ∷ m) = left_none m

    nothing :
        (y : Worker)
        → y.pool ≡ none
        → y.conn ≡ none
        → y.stmts ≡ []
        → (k : Kind) (h : ℕ) → held y k h ≡ 0
    nothing y p c s of_pool h = rw p refl
    nothing y p c s of_conn h = rw c refl
    nothing y p c s of_stmt h = rw s refl

-- A new worker replays a file: whatever the file has, and whatever the database answers, when the replay
-- is over, without a panic of the scanner, every pool, connection and statement was closed as often as it
-- was opened, the counters of connections, of running requests and of waiting workers are what they would
-- be without it, and the worker has no delay.
pub start-AllClosed :
    (ops : List (String × ℕ)) (lib : Library) (dr : Driver) (cfg : Config) (w z : Worker)
    (lines : List (Bytes × Occasion))
    → IsNew ops w
    → start lib dr cfg w lines ≡ some z
    → AllClosed ops z
unfolding start
start-AllClosed ops lib dr cfg w z lines n r =
    let first : Session = record { worker = w; event = no_event; slow = false } in
    ended (rounds lib dr cfg (goes first) lines)
      (rounds-Steady (base_of ops) lib dr cfg lines (goes first) (IsNew-IsWorker ops w n)) r
  where
    ended : (p : Progress) → Steady (base_of ops) p → finished dr p ≡ some z → AllClosed ops z
    ended (goes s) v e = finished-AllClosed ops dr s.worker z v cc
    ended (returns s) v e = finished-AllClosed ops dr s.worker z v cc
    ended crashes v e = cc
