-- ===== src/Play/Rounds.antt =====
-- cmd/text.go: the rounds of `playWorker.start`, and the invariant of the worker.

use mysql_replay.Base.{
  ℕ, Bool, true, false, List, [], ◌∷◌, Bytes, inl, inr, refl, ◌∙◌, arith, if◌then◌else◌, ◌==◌,
  Bool-cases,
}
use mysql_replay.Base.Int.{ℤ, pos, ltb_ℤ}
use mysql_replay.Base.Map.{nat_eq}
use mysql_replay.Base.Result.{Result, ok, err, panic}
use mysql_replay.Event.Scan.{ScanFail, scan_event}
use mysql_replay.Event.Types.{
  MysqlEvent, event_handshake, event_quit, event_query, event_stmt_prepare, event_stmt_execute,
  event_stmt_close, reset,
}
use mysql_replay.Play.Conn.{handshake-IsWorker}
use mysql_replay.Play.Driver.{Driver}
use mysql_replay.Play.Handles.{Owes-same, held_same}
use mysql_replay.Play.Invariant.{Base, IsWorker, get-count, get-count_self}
use mysql_replay.Play.Quit.{IsQuit, quit-IsQuit}
use mysql_replay.Play.Session.{
  Occasion, Config, without_value, apply, is_lost, recover, lag, negated, Session, Progress, goes,
  returns, crashes, wait, replay, round, rounds,
}
use mysql_replay.Play.Statements.{stmt_prepare-IsWorker, stmt_execute-IsWorker, stmt_close-IsWorker}
use mysql_replay.Play.Runs.{execute-IsWorker}
use mysql_replay.Play.Worker.{Worker, Outcome, done, fail, count, minus_one, quit, handshake}
use mysql_replay.Stats.Counter.{name, running_conns, waiting_conns, conns}
use mysql_replay.Strconv.Library.{Library}

module _ (b : Base) where
  IsWorker-if :
      (c : Bool) {A : Type 0} (x y : A × Worker)
      → IsWorker b x.1
      → IsWorker b y.1
      → IsWorker b (if c then x else y).1
  IsWorker-if true x y h k = h
  IsWorker-if false x y h k = k

  IsWorker-without_value :
      {A : Type 0} (r : Outcome A × Worker) → IsWorker b r.1 → IsWorker b (without_value r).1
  IsWorker-without_value (done a, w) h = h
  IsWorker-without_value (fail e, w) h = h

  module _ (dr : Driver) (target : Bytes) where
    apply-IsWorker :
        (w : Worker) (e : MysqlEvent) → IsWorker b w → IsWorker b (apply dr target w e).1
    unfolding apply
    apply-IsWorker w e v =
        let q : IsQuit b false w (quit dr w false) = quit-IsQuit b dr w false v in
        IsWorker-if (e.type == event_query) _ _ (execute-IsWorker b dr target w e.query v) (
          IsWorker-if (e.type == event_stmt_execute) _ _
            (stmt_execute-IsWorker b dr target w e.stmt_id e.params v)
            (IsWorker-if (e.type == event_stmt_prepare) _ _
              (stmt_prepare-IsWorker b dr target w e.stmt_id e.query v)
              (IsWorker-if (e.type == event_stmt_close) _ _ (stmt_close-IsWorker b dr w e.stmt_id v)
                (IsWorker-if (e.type == event_handshake) _ _
                  (IsWorker-without_value (handshake dr target (quit dr w false) e.db)
                    (handshake-IsWorker b dr target e.db (quit dr w false) q.pool q.valid))
                  (IsWorker-if (e.type == event_quit) _ _ q.valid v)))))

    recover-IsWorker :
        (r : Outcome Unit × Worker) → IsWorker b r.1 → IsWorker b (recover dr target r)
    unfolding recover
    recover-IsWorker (done x, w) v = v
    recover-IsWorker (fail e, w) v = elim (Bool-cases (is_lost e)) [
      | inl k ↦
          let q : IsQuit b true w (quit dr w true) = quit-IsQuit b dr w true v in
          rw k
            (handshake-IsWorker b dr target (quit dr w true).schema (quit dr w true) q.pool q.valid)
      | inr k ↦ rw k v
    ]

  lag-IsWorker : (w : Worker) (d : ℤ) → IsWorker b w → IsWorker b (lag w d)
  lag-IsWorker w d v = record {
    distinct = v.distinct;
    owes = Owes-same _ _ _ (held_same w (lag w d) refl refl refl) v.owes;
    open_conns = v.open_conns;
    running = v.running;
    waiting = v.waiting;
  }

  -- The counter of waiting workers goes up and down again.
  waited-IsWorker :
      (w : Worker)
      → IsWorker b w
      → IsWorker b (count (count w (name waiting_conns) 1) (name waiting_conns) minus_one)
  waited-IsWorker w v =
      let x = count w (name waiting_conns) 1 in
      let z = count x (name waiting_conns) minus_one in
      record {
        distinct = v.distinct;
        owes = Owes-same _ _ _ (held_same w z refl refl refl) v.owes;
        open_conns =
            get-count x (name waiting_conns) (name conns) minus_one refl
            ∙ get-count w (name waiting_conns) (name conns) 1 refl
            ∙ v.open_conns;
        running =
            get-count x (name waiting_conns) (name running_conns) minus_one refl
            ∙ get-count w (name waiting_conns) (name running_conns) 1 refl
            ∙ v.running;
        waiting = omega (
          arith,
          get-count_self x (name waiting_conns) minus_one,
          get-count_self w (name waiting_conns) 1,
          v.waiting,
        );
      }

  abbrev pub Steady : Progress → Type 0
  Steady (goes s) = IsWorker b s.worker
  Steady (returns s) = IsWorker b s.worker
  Steady crashes = Unit

  Steady-if : (c : Bool) (x y : Progress) → Steady x → Steady y → Steady (if c then x else y)
  Steady-if true x y h k = h
  Steady-if false x y h k = k

  IsWorker-choice :
      (c : Bool) (x y : Worker) → IsWorker b x → IsWorker b y → IsWorker b (if c then x else y)
  IsWorker-choice true x y h k = h
  IsWorker-choice false x y h k = k

  wait-Steady : (s : Session) (o : Occasion) → IsWorker b s.worker → Steady (wait s o)
  unfolding wait
  wait-Steady s o v =
      let over = waited-IsWorker s.worker v in
      Steady-if (ltb_ℤ (pos 0) o.delay) _ _
        (Steady-if o.cancelled _ _ over
          (IsWorker-choice s.slow _ _ (lag-IsWorker _ (pos 0) over) over))
        (Steady-if o.cancelled _ _ v (lag-IsWorker s.worker (negated o.delay) v))

  replay-Steady : (dr : Driver) (cfg : Config) (p : Progress) → Steady p → Steady (replay dr cfg p)
  replay-Steady dr cfg (goes s) v =
      Steady-if cfg.dry_run _ _ v
        (recover-IsWorker dr cfg.target _ (apply-IsWorker dr cfg.target s.worker s.event v))
  replay-Steady dr cfg (returns s) v = v
  replay-Steady dr cfg crashes v = tt

  module _ (lib : Library) (dr : Driver) (cfg : Config) where
    round-Steady :
        (s : Session) (line : Bytes) (o : Occasion)
        → IsWorker b s.worker
        → Steady (round lib dr cfg s line o)
    unfolding round
    round-Steady s line o v = scanned (scan_event lib line 0 (reset s.event []))
      where
        scanned :
            (r : Result ScanFail (MysqlEvent × ℕ))
            → Steady (elim r [
              | ok (e, end) ↦ replay dr cfg (wait (record s { event = e }) o)
              | err f ↦ returns s
              | panic ↦ crashes
            ])
        scanned (ok (e, end)) = replay-Steady dr cfg _ (wait-Steady (record s { event = e }) o v)
        scanned (err f) = v
        scanned panic = tt

    pub rounds-Steady :
        (lines : List (Bytes × Occasion)) (p : Progress)
        → Steady p
        → Steady (rounds lib dr cfg p lines)
    unfolding rounds
    rounds-Steady [] (goes s) v = v
    rounds-Steady [] (returns s) v = v
    rounds-Steady [] crashes v = tt
    rounds-Steady ((line, o) ∷ rest) (goes s) v =
        rounds-Steady rest (round lib dr cfg s line o) (round-Steady s line o v)
    rounds-Steady (l ∷ rest) (returns s) v = v
    rounds-Steady (l ∷ rest) crashes v = tt
