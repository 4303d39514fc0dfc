-- ===== src/Play/Refinement/Files.antt =====
-- cmd/text.go: the lines of a whole file, and its events.
use Prim.Native.String.{String}
use mysql_replay.Base.{
  ℕ, true, false, List, [], ◌∷◌, ◌++◌, some, Bytes, ◌≡◌, inl, inr, refl, sym, Bool-cases,
  append-nil, append_assoc,
}
use mysql_replay.Base.Int.{pos, ltb_ℤ}
use mysql_replay.Base.Map.{Map, nat_eq}
use mysql_replay.Base.Result.{ok}
use mysql_replay.Event.Scan.{scan_event}
use mysql_replay.Event.Types.{MysqlEvent, reset}
use mysql_replay.Play.Driver.{Driver}
use mysql_replay.Play.Refinement.Steps.{step-Refines}
use mysql_replay.Play.Refinement.Runs.{quit-Refines}
use mysql_replay.Play.Refinement.{IsReliable, texts, Refines}
use mysql_replay.Play.Replay.{IsNew}
use mysql_replay.Play.Session.{
  Occasion, Config, apply, recover, lag, negated, Session, Progress, goes, returns, wait, round,
  rounds, no_event, start,
}
use mysql_replay.Play.Spec.{Act, spec_step, spec, ran}
use mysql_replay.Play.Worker.{Worker, count, minus_one, quit}
use mysql_replay.Stats.Counter.{name, waiting_conns}
use mysql_replay.Strconv.Library.{Library}

-- A line that is read as the event `e`, at an occasion where the replay is not cancelled.
pub record IsLine (lib : Library) (l : Bytes × Occasion) (e : MysqlEvent) : Type 0 where
  pub going : l.1.cancelled ≡ false
  pub end : ℕ
  pub reads : (old : MysqlEvent) → scan_event lib l.0 0 (reset old []) ≡ ok (e, end)

-- The lines of a file and its events.
pub data IsFile (lib : Library) : List (Bytes × Occasion) → List MysqlEvent → Type 0 where
  nothing : IsFile lib [] []
  line :
      {l : Bytes × Occasion} {ls : List (Bytes × Occasion)} {e : MysqlEvent} {es : List MysqlEvent}
      → IsLine lib l e
      → IsFile lib ls es
      → IsFile lib (l ∷ ls) (e ∷ es)

-- A wait changes counters only.
abbrev Waited : Map ℕ Bytes → List Act → MysqlEvent → Progress → Type 0
Waited m acts e p = (s : Session) × (p ≡ goes s) × (s.event ≡ e) × Refines m acts s.worker

wait-Waited :
    (m : Map ℕ Bytes) (acts : List Act) (s : Session) (o : Occasion)
    → o.cancelled ≡ false
    → Refines m acts s.worker
    → Waited m acts s.event (wait s o)
unfolding wait
wait-Waited m acts s o c f = elim (Bool-cases (ltb_ℤ (pos 0) o.delay)) [
  | inl d ↦ elim (Bool-cases s.slow) [
    | inl w ↦
        let waiting = count s.worker (name waiting_conns) 1 in
        let over = count waiting (name waiting_conns) minus_one in
        simp (wait, d, c, w)
          (
            record s { worker = lag over (pos 0); slow = false },
            refl,
            refl,
            record { table = f.table; live = f.live; has_run = f.has_run },
          )
    | inr w ↦
        let waiting = count s.worker (name waiting_conns) 1 in
        let over = count waiting (name waiting_conns) minus_one in
        simp (wait, d, c, w)
          (
            record s { worker = over; slow = false },
            refl,
            refl,
            record { table = f.table; live = f.live; has_run = f.has_run },
          )
  ]
  | inr d ↦
      simp (wait, d, c)
        (
          record s { worker = lag s.worker (negated o.delay); slow = true },
          refl,
          refl,
          record { table = f.table; live = f.live; has_run = f.has_run },
        )
]

-- The replay stands behind the events.
abbrev Reached : List Act → Progress → Type 0
Reached acts p = (m : Map ℕ Bytes) × (s : Session) × (p ≡ goes s) × Refines m acts s.worker

module _ (lib : Library) (dr : Driver) (ok_dr : IsReliable dr) (cfg : Config)
    (wet : cfg.dry_run ≡ false) where
  round-goes :
      (m : Map ℕ Bytes) (acts : List Act) (s : Session) (l : Bytes × Occasion) (e : MysqlEvent)
      → IsLine lib l e
      → Refines m acts s.worker
      → (z : Session) × (round lib dr cfg s l.0 l.1 ≡ goes z)
        × Refines (spec_step m e).0 (acts ++ (spec_step m e).1) z.worker
  unfolding round
  round-goes m acts s l e i f =
      let at : Session = record s { event = e } in
      let (y, k, same, g) : Waited m acts e (wait at l.1) = wait-Waited m acts at l.1 i.going f in
      let w = recover dr cfg.target (apply dr cfg.target y.worker y.event) in
      (
        record y { worker = w },
        rw (round, i.reads s.event, k, wet) refl,
        rw same (step-Refines dr ok_dr cfg.target m acts y.worker e g),
      )

  rounds-Reached :
      (m : Map ℕ Bytes) (acts : List Act) (s : Session) {ls : List (Bytes × Occasion)}
      {es : List MysqlEvent}
      → IsFile lib ls es
      → Refines m acts s.worker
      → (z : Session) × (t : Map ℕ Bytes) × (rounds lib dr cfg (goes s) ls ≡ returns z)
        × Refines t (acts ++ spec m es) z.worker
  unfolding rounds spec
  rounds-Reached m acts s nothing f = (s, m, refl, rw (append-nil acts) f)
  rounds-Reached m acts s (line {l} {ls} {e} {es} i more) f =
      let (y, k, g) = round-goes m acts s l e i f in
      let (next, new) = spec_step m e in
      let (z, t, q, h) = rounds-Reached next (acts ++ new) y more g in
      (z, t, rw (rounds, k) q, rw (sym (append_assoc acts new (spec next es))) h)

-- A database that answers every request, and a file whose lines are the events `es`, on a replay
-- that is not cancelled: the replay comes to its end, and has run the queries of the events and the
-- texts of the statements that they execute, in their order and nothing else.
pub start_ran :
    (ops : List (String × ℕ)) (lib : Library) (dr : Driver) (cfg : Config) (w : Worker)
    (ls : List (Bytes × Occasion)) (es : List MysqlEvent)
    → IsReliable dr
    → cfg.dry_run ≡ false
    → IsNew ops w
    → IsFile lib ls es
    → (z : Worker) × (start lib dr cfg w ls ≡ some z) × (ran z.history ≡ spec [] es)
unfolding start ran texts
start_ran ops lib dr cfg w ls es ok_dr wet n file =
    let first : Session = record { worker = w; event = no_event; slow = false } in
    let begun : Refines [] [] w = record {
      table = rw n.stmts refl;
      live = rw n.stmts tt;
      has_run = rw n.history refl;
    } in
    let (z, t, q, h) = rounds-Reached lib dr ok_dr cfg wet [] [] first file begun in
    let over : Refines [] (spec [] es) (quit dr z.worker false) =
      quit-Refines dr t (spec [] es) z.worker h in
    (lag (quit dr z.worker false) (pos 0), rw q refl, over.has_run)
