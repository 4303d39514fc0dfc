-- ===== src/Play/Reconnect.antt =====
-- cmd/text.go: a statement behind a lost connection.
use Prim.Native.String.{String}
use mysql_replay.Base.{
  ℕ, true, List, [], ◌∷◌, none, some, Bytes, ◌≡◌, inl, inr, refl, sym, ◌∙◌, ap, ◌==◌, Bool-cases,
  Option-cases, ==_refl,
}
use mysql_replay.Base.Map.{Map, lookup, insert, nat_eq, lookup-insert}
use mysql_replay.Event.Types.{Param}
use mysql_replay.Play.Driver.{
  Request, open_pool, open_conn, prepare_stmt, exec_stmt, gave, Driver, Reply-cases,
}
use mysql_replay.Play.Invariant.{Base, IsWorker}
use mysql_replay.Play.Quit.{IsQuit, quit-IsQuit}
use mysql_replay.Play.Session.{is_lost, recover}
use mysql_replay.Play.Worker.{
  Statement, Worker, PlayError, done, fail, ask, database, conn_of_pool, get_conn, run_counted,
  prepare_again, get_stmt, stmt_execute, left, quit, handshake,
}
use mysql_replay.Stats.Counter.{name, stmt_executes, err_stmt_executes}

lookup-left_again :
    (id : ℕ) (s : Statement) (m : Map ℕ Statement)
    → lookup id m ≡ some s
    → lookup id (left true m) ≡ some (record s { handle = none })
unfolding lookup left
lookup-left_again id s [] e = cc
lookup-left_again id s ((j, t) ∷ m) e = elim (Bool-cases (j == id)) [
  | inl k ↦ let same : t ≡ s = cc (rw k at e) in rw (k, same) refl
  | inr k ↦ rw k (lookup-left_again id s m (rw k at e))
]

module _ (dr : Driver) (target : Bytes) where
  conn_of_pool-stmts : (w : Worker) (p : ℕ) → (conn_of_pool dr w p).1.stmts ≡ w.stmts
  unfolding conn_of_pool
  conn_of_pool-stmts w p = elim (Option-cases w.conn) [
    | inr (c, e) ↦ rw (conn_of_pool, e) refl
    | inl e ↦ elim (Reply-cases (dr w.history (open_conn p))) [
      | inl (x, r) ↦ rw (conn_of_pool, e, r) refl
      | inr (c, r) ↦ rw (conn_of_pool, e, r) refl
    ]
  ]

  get_conn-stmts : (w : Worker) → (get_conn dr target w).1.stmts ≡ w.stmts
  unfolding get_conn
  get_conn-stmts w =
      let q = open_pool (database target w.schema) in
      elim (Option-cases w.pool) [
        | inr (p, e) ↦ simp (get_conn, e) (conn_of_pool-stmts w p)
        | inl e ↦ elim (Reply-cases (dr w.history q)) [
          | inl (x, r) ↦ rw (get_conn, e, r) refl
          | inr (p, r) ↦
              rw (get_conn, e, r) (conn_of_pool-stmts (record (ask dr w q) { pool = some p }) p)
        ]
      ]

  handshake-stmts : (w : Worker) (schema : Bytes) → (handshake dr target w schema).1.stmts ≡ w.stmts
  unfolding handshake
  handshake-stmts w schema =
      let q = open_pool (database target schema) in
      elim (Reply-cases (dr w.history q)) [
        | inl (x, r) ↦ rw (handshake, r) refl
        | inr (p, r) ↦
            rw (handshake, r)
              (get_conn-stmts (record (ask dr w q) { pool = some p; schema = schema }))
      ]

  get_conn-open :
      (z : Worker) (p c : ℕ)
      → z.pool ≡ some p
      → z.conn ≡ some c
      → get_conn dr target z ≡ (done c, z)
  unfolding get_conn conn_of_pool
  get_conn-open z p c pool conn = simp (get_conn, pool, conn_of_pool, conn) refl

  get_stmt-again :
      (z : Worker) (id : ℕ) (query : Bytes) (p c h : ℕ)
      → lookup id z.stmts ≡ some (record { query = query; handle = none })
      → z.pool ≡ some p
      → z.conn ≡ some c
      → dr z.history (prepare_stmt c query) ≡ gave h
      → get_stmt dr target z id ≡ (
        done h,
        record (ask dr z (prepare_stmt c query)) {
          stmts = insert id (record { query = query; handle = some h }) z.stmts;
        },
      )
  unfolding get_stmt prepare_again
  get_stmt-again z id query p c h entry pool conn prepared =
      simp (get_stmt, entry, get_conn-open z p c pool conn, prepare_again, prepared) refl

  run_counted-history :
      (w : Worker) (q : Request) (total errors : String)
      → ((run_counted dr w q total errors).1.history ≡ (q, dr w.history q) ∷ w.history)
        × ((run_counted dr w q total errors).1.stmts ≡ w.stmts)
  unfolding run_counted
  run_counted-history w q total errors = elim (Reply-cases (dr w.history q)) [
    | inl (x, r) ↦ simp (run_counted, r) (refl, refl)
    | inr (n, r) ↦ simp (run_counted, r) (refl, refl)
  ]

  -- A request of a worker that keeps its invariant has failed with a lost connection, and behind the
  -- reconnection the worker has a pool and a connection, on which the database prepares the statement's
  -- text. Then an execution of a statement that was in the table prepares it anew from its text, runs on the
  -- handle that this gives, and keeps it.
  pub recover-stmt_execute :
      (b : Base) (w z : Worker) (e : PlayError) (id : ℕ) (s : Statement) (params : List Param)
      (p c h : ℕ)
      → IsWorker b w
      → is_lost e ≡ true
      → lookup id w.stmts ≡ some s
      → recover dr target (fail e, w) ≡ z
      → z.pool ≡ some p
      → z.conn ≡ some c
      → dr z.history (prepare_stmt c s.query) ≡ gave h
      → let x = (stmt_execute dr target z id params).1 in
        let past = (prepare_stmt c s.query, gave h) ∷ z.history in
        (x.history ≡ (exec_stmt h params, dr past (exec_stmt h params)) ∷ past)
        × (lookup id x.stmts ≡ some (record { query = s.query; handle = some h }))
  unfolding recover stmt_execute
  recover-stmt_execute b w z e id s params p c h v lost known r pool conn prepared =
      let parted = quit dr w true in
      let q : IsQuit b true w parted = quit-IsQuit b dr w true v in
      let again : z ≡ (handshake dr target parted parted.schema).1 = sym (rw lost at r) in
      let table : z.stmts ≡ left true w.stmts =
        ap (λ y. y.stmts) again ∙ handshake-stmts parted parted.schema ∙ q.stmts in
      let entry : lookup id z.stmts ≡ some (record s { handle = none }) =
        rw table (lookup-left_again id s w.stmts known) in
      let y : Worker = record (ask dr z (prepare_stmt c s.query)) {
        stmts = insert id (record { query = s.query; handle = some h }) z.stmts;
      } in
      let (asked, kept) =
        run_counted-history y (exec_stmt h params) (name stmt_executes) (name err_stmt_executes) in
      let past : y.history ≡ (prepare_stmt c s.query, gave h) ∷ z.history =
        ap (λ a. (prepare_stmt c s.query, a) ∷ z.history) prepared in
      rw (stmt_execute, get_stmt-again z id s.query p c h entry pool conn prepared)
        (
          asked ∙ ap (λ a. (exec_stmt h params, dr a (exec_stmt h params)) ∷ a) past,
          ap (lookup id) kept
              ∙ rw
                  (
                    lookup-insert id id (record { query = s.query; handle = some h }) z.stmts,
                    ==_refl id,
                  )
                  refl,
        )
