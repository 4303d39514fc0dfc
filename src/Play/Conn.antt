-- ===== src/Play/Conn.antt =====
-- cmd/text.go: `getConn` and `handshake`, and the invariant of the worker.

use mysql_replay.Base.{ℕ, ◌+◌, none, some, Bytes, ◌≡◌, inl, inr, refl, ◌∙◌, arith, Option-cases}
use mysql_replay.Base.Map.{nat_eq}
use mysql_replay.Play.Driver.{DbError, open_pool, open_conn, failed, gave, Driver, Reply-cases}
use mysql_replay.Play.Handles.{Kind, of_pool, of_conn, of_stmt, opens, closes, held, Owes-ask}
use mysql_replay.Play.Invariant.{
  Base, IsWorker, ask-IsWorker, failed_opens, get-count, get-count_self,
}
use mysql_replay.Play.Worker.{Worker, count, ask, database, conn_of_pool, get_conn, handshake}
use mysql_replay.Stats.Counter.{name, running_conns, waiting_conns, conns}

-- `getConn` leaves the table as it is.
pub record Keeps (b : Base) (w z : Worker) : Type 0 where
  pub valid : IsWorker b z
  pub stmts : z.stmts ≡ w.stmts

module _ (b : Base) (dr : Driver) where
  opened_pool :
      (w : Worker) (s t : Bytes) (p : ℕ)
      → w.pool ≡ none
      → dr w.history (open_pool s) ≡ gave p
      → IsWorker b w
      → IsWorker b (record (ask dr w (open_pool s)) { pool = some p; schema = t })
  unfolding opens closes held
  opened_pool w s t p e r v =
      let z : Worker = record (ask dr w (open_pool s)) { pool = some p; schema = t } in
      record {
        distinct = v.distinct;
        owes = Owes-ask dr w (open_pool s) (held w) (held z) (moves z refl refl refl) v.owes;
        open_conns = v.open_conns;
        running = v.running;
        waiting = v.waiting;
      }
    where
      moves :
          (z : Worker)
          → z.pool ≡ some p
          → z.conn ≡ w.conn
          → z.stmts ≡ w.stmts
          → (k : Kind) (h : ℕ)
          → opens k h (open_pool s) (dr w.history (open_pool s)) + held w k h
            ≡ closes k h (open_pool s) + held z k h
      moves z x y u of_pool h = rw (r, x, e) (omega arith)
      moves z x y u of_conn h = rw (r, y) (omega arith)
      moves z x y u of_stmt h = rw (r, u) (omega arith)

  opened_conn :
      (w : Worker) (p c : ℕ)
      → w.conn ≡ none
      → dr w.history (open_conn p) ≡ gave c
      → IsWorker b w
      → IsWorker b (count (record (ask dr w (open_conn p)) { conn = some c }) (name conns) 1)
  unfolding opens closes held
  opened_conn w p c e r v =
      let y : Worker = record (ask dr w (open_conn p)) { conn = some c } in
      let z : Worker = count y (name conns) 1 in
      record {
        distinct = v.distinct;
        owes = Owes-ask dr w (open_conn p) (held w) (held z) (moves z refl refl refl) v.owes;
        open_conns = omega (arith, get-count_self y (name conns) 1, (rw e at v.open_conns));
        running = get-count y (name conns) (name running_conns) 1 refl ∙ v.running;
        waiting = get-count y (name conns) (name waiting_conns) 1 refl ∙ v.waiting;
      }
    where
      moves :
          (z : Worker)
          → z.pool ≡ w.pool
          → z.conn ≡ some c
          → z.stmts ≡ w.stmts
          → (k : Kind) (h : ℕ)
          → opens k h (open_conn p) (dr w.history (open_conn p)) + held w k h
            ≡ closes k h (open_conn p) + held z k h
      moves z x y u of_pool h = rw (r, x) (omega arith)
      moves z x y u of_conn h = rw (r, y, e) (omega arith)
      moves z x y u of_stmt h = rw (r, u) (omega arith)

  failed_pool :
      (w : Worker) (s : Bytes) (e : DbError)
      → dr w.history (open_pool s) ≡ failed e
      → IsWorker b w
      → IsWorker b (ask dr w (open_pool s))
  unfolding closes
  failed_pool w s e r v =
      ask-IsWorker b dr w (open_pool s) (λ k h. failed_opens dr w (open_pool s) k h e r) none_closed
        v
    where
      none_closed : (k : Kind) (h : ℕ) → closes k h (open_pool s) ≡ 0
      none_closed of_pool h = refl
      none_closed of_conn h = refl
      none_closed of_stmt h = refl

  failed_conn :
      (w : Worker) (p : ℕ) (e : DbError)
      → dr w.history (open_conn p) ≡ failed e
      → IsWorker b w
      → IsWorker b (ask dr w (open_conn p))
  unfolding closes
  failed_conn w p e r v =
      ask-IsWorker b dr w (open_conn p) (λ k h. failed_opens dr w (open_conn p) k h e r) none_closed
        v
    where
      none_closed : (k : Kind) (h : ℕ) → closes k h (open_conn p) ≡ 0
      none_closed of_pool h = refl
      none_closed of_conn h = refl
      none_closed of_stmt h = refl

  conn_of_pool-Keeps : (w : Worker) (p : ℕ) → IsWorker b w → Keeps b w (conn_of_pool dr w p).1
  unfolding conn_of_pool
  conn_of_pool-Keeps w p v = elim (Option-cases w.conn) [
    | inr (c, e) ↦ rw (conn_of_pool, e) (record { valid = v; stmts = refl })
    | inl e ↦ elim (Reply-cases (dr w.history (open_conn p))) [
      | inl (x, r) ↦
          rw (conn_of_pool, e, r) (record { valid = failed_conn w p x r v; stmts = refl })
      | inr (c, r) ↦
          rw (conn_of_pool, e, r) (record { valid = opened_conn w p c e r v; stmts = refl })
    ]
  ]

  pub get_conn-Keeps :
      (target : Bytes) (w : Worker) → IsWorker b w → Keeps b w (get_conn dr target w).1
  unfolding get_conn
  get_conn-Keeps target w v =
      let s = database target w.schema in
      elim (Option-cases w.pool) [
        | inr (p, e) ↦ simp (get_conn, e) (conn_of_pool-Keeps w p v)
        | inl e ↦ elim (Reply-cases (dr w.history (open_pool s))) [
          | inl (x, r) ↦
              rw (get_conn, e, r) (record { valid = failed_pool w s x r v; stmts = refl })
          | inr (p, r) ↦
              let z : Worker = record (ask dr w (open_pool s)) { pool = some p } in
              let k : Keeps b z (conn_of_pool dr z p).1 =
                conn_of_pool-Keeps z p (opened_pool w s w.schema p e r v) in
              rw (get_conn, e, r) (record { valid = k.valid; stmts = k.stmts })
        ]
      ]

  pub handshake-IsWorker :
      (target schema : Bytes) (w : Worker)
      → w.pool ≡ none
      → IsWorker b w
      → IsWorker b (handshake dr target w schema).1
  unfolding handshake
  handshake-IsWorker target schema w e v =
      let s = database target schema in
      elim (Reply-cases (dr w.history (open_pool s))) [
        | inl (x, r) ↦ rw (handshake, r) (failed_pool w s x r v)
        | inr (p, r) ↦
            let z : Worker = record (ask dr w (open_pool s)) { pool = some p; schema = schema } in
            let k : Keeps b z (get_conn dr target z).1 =
              get_conn-Keeps target z (opened_pool w s schema p e r v) in
            rw (handshake, r) k.valid
      ]
