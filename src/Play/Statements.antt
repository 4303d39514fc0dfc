-- ===== src/Play/Statements.antt =====
-- cmd/text.go: queries and statements, and the invariant of the worker.

use mysql_replay.Base.{
  ℕ, ◌+◌, List, none, some, Bytes, ◌≡◌, inl, inr, refl, sym, ap, arith, Option-cases, ==_refl,
}
use mysql_replay.Base.Map.{
  Map, lookup, insert, erase, nat_eq, erase-Distinct, insert-Distinct, lookup-erase,
}
use mysql_replay.Event.Types.{Param}
use mysql_replay.Play.Conn.{Keeps, get_conn-Keeps}
use mysql_replay.Play.Driver.{DbError, prepare_stmt, exec_stmt, failed, gave, Driver, Reply-cases}
use mysql_replay.Play.Handles.{
  Kind, of_pool, of_conn, of_stmt, opens, closes, has, held, Owes-same, Owes-ask, has_stmts-erase,
  has_stmts-insert,
}
use mysql_replay.Play.Invariant.{Base, IsWorker, count-IsWorker, ask-IsWorker, failed_opens}
use mysql_replay.Play.Closing.{SameState, SameState-close_handle, with_stmt, Owes-close_handle}
use mysql_replay.Play.Worker.{
  Statement, Worker, Outcome, done, fail, count, ask, get_conn, run_counted, with_conn,
  close_handle, handle_of, prepare_on, stmt_prepare, prepare_again, get_stmt, stmt_execute,
  stmt_close,
}
use mysql_replay.Stats.Counter.{
  name, stmt_executes, stmt_prepares, err_stmt_executes, err_stmt_prepares,
}
use mysql_replay.Play.Runs.{plain, run_counted-IsWorker, runs_stmt}

module _ (b : Base) (dr : Driver) where
  prepared :
      (w z : Worker) (id : ℕ) (query : Bytes) (c h : ℕ)
      → handle_of (lookup id w.stmts) ≡ none
      → dr w.history (prepare_stmt c query) ≡ gave h
      → z.pool ≡ w.pool
      → z.conn ≡ w.conn
      → z.stmts ≡ insert id (record { query = query; handle = some h }) w.stmts
      → (k : Kind) (i : ℕ)
      → opens k i (prepare_stmt c query) (dr w.history (prepare_stmt c query)) + held w k i
        ≡ closes k i (prepare_stmt c query) + held z k i
  unfolding opens closes held
  prepared w z id query c h e r x y u of_pool i = rw (r, x) (omega arith)
  prepared w z id query c h e r x y u of_conn i = rw (r, y) (omega arith)
  prepared w z id query c h e r x y u of_stmt i =
      let s : Statement = record { query = query; handle = some h } in
      rw (r, u) (omega (arith, rw e at (has_stmts-insert i id s w.stmts)))

  prepared-IsWorker :
      (w : Worker) (id : ℕ) (query : Bytes) (c h : ℕ)
      → handle_of (lookup id w.stmts) ≡ none
      → dr w.history (prepare_stmt c query) ≡ gave h
      → IsWorker b w
      → IsWorker b (record (ask dr w (prepare_stmt c query)) {
        stmts = insert id (record { query = query; handle = some h }) w.stmts;
      })
  prepared-IsWorker w id query c h e r v =
      let s : Statement = record { query = query; handle = some h } in
      let z : Worker = record (ask dr w (prepare_stmt c query)) { stmts = insert id s w.stmts } in
      record {
        distinct = insert-Distinct id s w.stmts v.distinct;
        owes =
            Owes-ask dr w (prepare_stmt c query) (held w) (held z)
              (prepared w z id query c h e r refl refl refl) v.owes;
        open_conns = v.open_conns;
        running = v.running;
        waiting = v.waiting;
      }

  unprepared-IsWorker :
      (w : Worker) (query : Bytes) (c : ℕ) (e : DbError)
      → dr w.history (prepare_stmt c query) ≡ failed e
      → IsWorker b w
      → IsWorker b (ask dr w (prepare_stmt c query))
  unfolding closes
  unprepared-IsWorker w query c e r v =
      ask-IsWorker b dr w (prepare_stmt c query)
        (λ k h. failed_opens dr w (prepare_stmt c query) k h e r) closes-prepare v
    where
      closes-prepare : (k : Kind) (h : ℕ) → closes k h (prepare_stmt c query) ≡ 0
      closes-prepare of_pool h = refl
      closes-prepare of_conn h = refl
      closes-prepare of_stmt h = refl

  prepare_on-IsWorker :
      (w : Worker) (id : ℕ) (query : Bytes) (c : ℕ)
      → handle_of (lookup id w.stmts) ≡ none
      → IsWorker b w
      → IsWorker b (prepare_on dr id query c w).1
  unfolding prepare_on
  prepare_on-IsWorker w id query c e v =
      let x = count w (name stmt_prepares) 1 in
      let counted : IsWorker b x =
        count-IsWorker b w (name stmt_prepares) 1 (plain _ refl refl refl) v in
      elim (Reply-cases (dr w.history (prepare_stmt c query))) [
        | inl (err, r) ↦
            rw (prepare_on, r)
              (count-IsWorker b (ask dr x (prepare_stmt c query)) (name err_stmt_prepares) 1
                (plain _ refl refl refl) (unprepared-IsWorker x query c err r counted))
        | inr (h, r) ↦ rw (prepare_on, r) (prepared-IsWorker x id query c h e r counted)
      ]

  -- A statement leaves the table, and its handle is closed.
  dropped-IsWorker :
      (w : Worker) (id : ℕ)
      → IsWorker b w
      → let y = close_handle dr w (handle_of (lookup id w.stmts)) in
        IsWorker b (record y { stmts = erase id y.stmts })
  unfolding held with_stmt
  dropped-IsWorker w id v =
      let o = handle_of (lookup id w.stmts) in
      let y = close_handle dr w o in
      let s : SameState w y = SameState-close_handle dr w o in
      let z : Worker = record y { stmts = erase id y.stmts } in
      record {
        distinct = rw s.stmts (erase-Distinct id w.stmts v.distinct);
        owes = Owes-close_handle dr w o (held z) (
            Owes-same w.history (held w) (with_stmt o (held z))
              (parts z s.pool s.conn (ap (erase id) s.stmts)) v.owes);
        open_conns = rw (s.stats, s.conn) v.open_conns;
        running = rw s.stats v.running;
        waiting = rw s.stats v.waiting;
      }
    where
      parts :
          (z : Worker)
          → z.pool ≡ w.pool
          → z.conn ≡ w.conn
          → z.stmts ≡ erase id w.stmts
          → (k : Kind) (h : ℕ) → held w k h ≡ with_stmt (handle_of (lookup id w.stmts)) (held z) k h
      parts z x y u of_pool h = ap (has h) (sym x)
      parts z x y u of_conn h = ap (has h) (sym y)
      parts z x y u of_stmt h = rw u (sym (has_stmts-erase h id w.stmts v.distinct))

  handle_of-erase : (id : ℕ) (m : Map ℕ Statement) → handle_of (lookup id (erase id m)) ≡ none
  handle_of-erase id m = rw (lookup-erase id id m, ==_refl id) refl

  pub stmt_prepare-IsWorker :
      (target : Bytes) (w : Worker) (id : ℕ) (query : Bytes)
      → IsWorker b w
      → IsWorker b (stmt_prepare dr target w id query).1
  unfolding stmt_prepare
  stmt_prepare-IsWorker target w id query v =
      let y = close_handle dr w (handle_of (lookup id w.stmts)) in
      let z : Worker = record y { stmts = erase id y.stmts } in
      then_prepare y.stmts z refl (get_conn dr target z)
        (get_conn-Keeps b dr target z (dropped-IsWorker w id v))
    where
      then_prepare :
          (m : Map ℕ Statement) (z : Worker)
          → z.stmts ≡ erase id m
          → (r : Outcome ℕ × Worker) → Keeps b z r.1
          → IsWorker b (with_conn r (prepare_on dr id query)).1
      then_prepare m z e (fail x, u) k = k.valid
      then_prepare m z e (done c, u) k =
          prepare_on-IsWorker u id query c (rw (k.stmts, e) (handle_of-erase id m)) k.valid

  prepare_again-IsWorker :
      (w : Worker) (id : ℕ) (query : Bytes) (c : ℕ)
      → handle_of (lookup id w.stmts) ≡ none
      → IsWorker b w
      → IsWorker b (prepare_again dr id query c w).1
  unfolding prepare_again
  prepare_again-IsWorker w id query c e v =
      elim (Reply-cases (dr w.history (prepare_stmt c query))) [
        | inl (err, r) ↦ rw (prepare_again, r) (unprepared-IsWorker w query c err r v)
        | inr (h, r) ↦ rw (prepare_again, r) (prepared-IsWorker w id query c h e r v)
      ]

  get_stmt-IsWorker :
      (target : Bytes) (w : Worker) (id : ℕ) → IsWorker b w → IsWorker b (get_stmt dr target w id).1
  unfolding get_stmt
  get_stmt-IsWorker target w id v = elim (Option-cases (lookup id w.stmts)) [
    | inl e ↦ rw (get_stmt, e) v
    | inr (s, e) ↦ elim (Option-cases s.handle) [
      | inr (h, k) ↦ rw (get_stmt, e, k) v
      | inl k ↦
          let free : handle_of (lookup id w.stmts) ≡ none = rw e k in
          rw (get_stmt, e, k)
            (then_prepare s.query free (get_conn dr target w) (get_conn-Keeps b dr target w v))
    ]
  ]
    where
      then_prepare :
          (query : Bytes)
          → handle_of (lookup id w.stmts) ≡ none
          → (r : Outcome ℕ × Worker) → Keeps b w r.1
          → IsWorker b (with_conn r (prepare_again dr id query)).1
      then_prepare query e (fail x, u) k = k.valid
      then_prepare query e (done c, u) k =
          prepare_again-IsWorker u id query c (rw k.stmts e) k.valid

  pub stmt_execute-IsWorker :
      (target : Bytes) (w : Worker) (id : ℕ) (params : List Param)
      → IsWorker b w
      → IsWorker b (stmt_execute dr target w id params).1
  unfolding stmt_execute
  stmt_execute-IsWorker target w id params v =
      then_run (get_stmt dr target w id) (get_stmt-IsWorker target w id v)
    where
      then_run :
          (r : Outcome ℕ × Worker)
          → IsWorker b r.1
          → IsWorker b
              (with_conn r (λ h u.
                run_counted dr u
                  (exec_stmt h params)
                  (name stmt_executes)
                  (name err_stmt_executes))).1
      then_run (fail e, u) k = k
      then_run (done h, u) k =
          run_counted-IsWorker b dr u (exec_stmt h params) _ _ (runs_stmt h params)
            (plain _ refl refl refl) (plain _ refl refl refl) k

  pub stmt_close-IsWorker : (w : Worker) (id : ℕ) → IsWorker b w → IsWorker b (stmt_close dr w id)
  unfolding stmt_close
  stmt_close-IsWorker w id v = elim (Option-cases (lookup id w.stmts)) [
    | inl e ↦ rw (stmt_close, e) v
    | inr (s, e) ↦ rw (stmt_close, e) (rw e at (dropped-IsWorker w id v))
  ]
