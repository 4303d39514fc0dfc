-- ===== src/Play/Quit.antt =====
-- cmd/text.go: `quit`, and the invariant of the worker.
use mysql_replay.Base.{
  ℕ, ◌+◌, Bool, true, false, [], ◌∷◌, Option, none, some, ◌≡◌, inl, inr, refl, sym, ◌∙◌, ap, arith,
  ◌==◌, Bool-cases,
}
use mysql_replay.Base.Map.{Map, lookup, nat_eq, Distinct}
use mysql_replay.Play.Driver.{close_conn, close_pool, Driver}
use mysql_replay.Play.Handles.{
  Kind, of_pool, of_conn, of_stmt, opens, opens-quiet, closes, has, held, Owes-same, Owes-ask,
  has_stmts-left,
}
use mysql_replay.Play.Invariant.{Base, IsWorker, get-count, get-count_self}
use mysql_replay.Play.Worker.{
  Statement, Worker, count, minus_one, ask, close_all, left, quit_conn, quit_pool, quit,
}
use mysql_replay.Stats.Counter.{name, running_conns, waiting_conns, conns}
use mysql_replay.Play.Closing.{SameState, with_stmts, SameState-close_all, Owes-close_all}

lookup-left :
    (r : Bool) (id : ℕ) (m : Map ℕ Statement) → lookup id m ≡ none → lookup id (left r m) ≡ none
unfolding lookup left
lookup-left r id [] e = refl
lookup-left false id ((j, s) ∷ m) e = elim (Bool-cases (j == id)) [
  | inl k ↦ cc (rw k at e)
  | inr k ↦ lookup-left false id m (rw k at e)
]
lookup-left true id ((j, s) ∷ m) e = elim (Bool-cases (j == id)) [
  | inl k ↦ cc (rw k at e)
  | inr k ↦ rw k (lookup-left true id m (rw k at e))
]

Distinct-left : (r : Bool) (m : Map ℕ Statement) → Distinct m → Distinct (left r m)
unfolding left
Distinct-left r [] d = tt
Distinct-left true ((j, s) ∷ m) d = (lookup-left true j m d.0, Distinct-left true m d.1)
Distinct-left false ((j, s) ∷ m) d = Distinct-left false m d.1

module _ (b : Base) (dr : Driver) where
  close_all-IsWorker :
      (w : Worker) (r : Bool)
      → IsWorker b w
      → IsWorker b (record (close_all dr w w.stmts) { stmts = left r w.stmts })
  unfolding held with_stmts
  close_all-IsWorker w r v =
      let y = close_all dr w w.stmts in
      let s : SameState w y = SameState-close_all dr w w.stmts in
      let z : Worker = record y { stmts = left r w.stmts } in
      record {
        distinct = Distinct-left r w.stmts v.distinct;
        owes = Owes-close_all dr w.stmts w (held z) (
            Owes-same w.history (held w) (with_stmts w.stmts (held z)) (parts z s.pool s.conn refl)
              v.owes);
        open_conns = rw (s.stats, s.conn) v.open_conns;
        running = rw s.stats v.running;
        waiting = rw s.stats v.waiting;
      }
    where
      parts :
          (z : Worker)
          → z.pool ≡ w.pool
          → z.conn ≡ w.conn
          → z.stmts ≡ left r w.stmts
          → (k : Kind) (h : ℕ) → held w k h ≡ with_stmts w.stmts (held z) k h
      parts z x y u of_pool h = ap (has h) (sym x)
      parts z x y u of_conn h = ap (has h) (sym y)
      parts z x y u of_stmt h = rw u (omega (arith, has_stmts-left h r w.stmts))

  quit_conn-IsWorker :
      (w : Worker) (o : Option ℕ) → w.conn ≡ o → IsWorker b w → IsWorker b (quit_conn dr w o)
  unfolding opens closes held
  quit_conn-IsWorker w none e v = v
  quit_conn-IsWorker w (some c) e v =
      let y : Worker = record (ask dr w (close_conn c)) { conn = none } in
      let z : Worker = count y (name conns) minus_one in
      record {
        distinct = v.distinct;
        owes = Owes-ask dr w (close_conn c) (held w) (held z) (moves z refl refl refl) v.owes;
        open_conns = omega (arith, get-count_self y (name conns) minus_one, (rw e at v.open_conns));
        running = get-count y (name conns) (name running_conns) minus_one refl ∙ v.running;
        waiting = get-count y (name conns) (name waiting_conns) minus_one refl ∙ v.waiting;
      }
    where
      moves :
          (z : Worker)
          → z.pool ≡ w.pool
          → z.conn ≡ none
          → z.stmts ≡ w.stmts
          → (k : Kind) (h : ℕ)
          → opens k h (close_conn c) (dr w.history (close_conn c)) + held w k h
            ≡ closes k h (close_conn c) + held z k h
      moves z x y u of_pool h =
          rw x
            (omega (arith, opens-quiet of_pool h (close_conn c) (dr w.history (close_conn c)) tt))
      moves z x y u of_conn h =
          rw (y, e)
            (omega (arith, opens-quiet of_conn h (close_conn c) (dr w.history (close_conn c)) tt))
      moves z x y u of_stmt h =
          rw u
            (omega (arith, opens-quiet of_stmt h (close_conn c) (dr w.history (close_conn c)) tt))

  quit_pool-IsWorker :
      (w : Worker) (o : Option ℕ) → w.pool ≡ o → IsWorker b w → IsWorker b (quit_pool dr w o)
  unfolding opens closes held
  quit_pool-IsWorker w none e v = v
  quit_pool-IsWorker w (some p) e v =
      let z : Worker = record (ask dr w (close_pool p)) { pool = none } in
      record {
        distinct = v.distinct;
        owes = Owes-ask dr w (close_pool p) (held w) (held z) (moves z refl refl refl) v.owes;
        open_conns = v.open_conns;
        running = v.running;
        waiting = v.waiting;
      }
    where
      moves :
          (z : Worker)
          → z.pool ≡ none
          → z.conn ≡ w.conn
          → z.stmts ≡ w.stmts
          → (k : Kind) (h : ℕ)
          → opens k h (close_pool p) (dr w.history (close_pool p)) + held w k h
            ≡ closes k h (close_pool p) + held z k h
      moves z x y u of_pool h =
          rw (x, e)
            (omega (arith, opens-quiet of_pool h (close_pool p) (dr w.history (close_pool p)) tt))
      moves z x y u of_conn h =
          rw y
            (omega (arith, opens-quiet of_conn h (close_pool p) (dr w.history (close_pool p)) tt))
      moves z x y u of_stmt h =
          rw u
            (omega (arith, opens-quiet of_stmt h (close_pool p) (dr w.history (close_pool p)) tt))

-- What `quit` leaves: nothing is open, and of the table the queries, where it is for a reconnection.
pub record IsQuit (b : Base) (r : Bool) (w z : Worker) : Type 0 where
  pub valid : IsWorker b z
  pub pool : z.pool ≡ none
  pub conn : z.conn ≡ none
  pub stmts : z.stmts ≡ left r w.stmts
  pub schema : z.schema ≡ w.schema

module _ (dr : Driver) where
  quit_conn-fields :
      (w : Worker) (o : Option ℕ)
      → w.conn ≡ o
      → ((quit_conn dr w o).conn ≡ none)
        × ((quit_conn dr w o).stmts ≡ w.stmts)
        × ((quit_conn dr w o).schema ≡ w.schema)
  quit_conn-fields w none e = (e, refl, refl)
  quit_conn-fields w (some c) e = (refl, refl, refl)

  quit_pool-fields :
      (w : Worker) (o : Option ℕ)
      → w.pool ≡ o
      → ((quit_pool dr w o).pool ≡ none)
        × ((quit_pool dr w o).conn ≡ w.conn)
        × ((quit_pool dr w o).stmts ≡ w.stmts)
        × ((quit_pool dr w o).schema ≡ w.schema)
  quit_pool-fields w none e = (e, refl, refl, refl)
  quit_pool-fields w (some c) e = (refl, refl, refl, refl)

pub quit-IsQuit :
    (b : Base) (dr : Driver) (w : Worker) (r : Bool) → IsWorker b w → IsQuit b r w (quit dr w r)
unfolding quit
quit-IsQuit b dr w r v =
    let x : Worker = record (close_all dr w w.stmts) { stmts = left r w.stmts } in
    let y = quit_conn dr x x.conn in
    let z = quit_pool dr y y.pool in
    let s : SameState w (close_all dr w w.stmts) = SameState-close_all dr w w.stmts in
    let x_valid : IsWorker b x = close_all-IsWorker b dr w r v in
    let y_valid : IsWorker b y = quit_conn-IsWorker b dr x x.conn refl x_valid in
    let (y_conn, y_stmts, y_schema) = quit_conn-fields dr x x.conn refl in
    let (z_pool, z_conn, z_stmts, z_schema) = quit_pool-fields dr y y.pool refl in
    record {
      valid = quit_pool-IsWorker b dr y y.pool refl y_valid;
      pool = z_pool;
      conn = z_conn ∙ y_conn;
      stmts = z_stmts ∙ y_stmts;
      schema = z_schema ∙ y_schema ∙ s.schema;
    }
