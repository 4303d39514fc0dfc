-- ===== src/Play/Refinement.antt =====
-- cmd/text.go: the worker and what the events say, on a database that answers.
pub mod Runs
pub mod Steps
pub mod Files
use mysql_replay.Base.{
  ℕ, Bool, true, false, List, [], ◌∷◌, ◌++◌, Option, none, some, Bytes, ◌≡◌, inl, inr, refl, sym,
  ◌∙◌, ap, if◌then◌else◌, ◌==◌, Bool-cases, Option-cases, All, append-nil, append_assoc, ==_iff,
  ==_refl,
}
use mysql_replay.Base.Map.{
  Map, lookup, insert, erase, nat_eq, All-insert, All-erase, All-lookup, lookup-erase, beq_refl,
}
use mysql_replay.Event.Types.{
  Param, MysqlEvent, event_query, event_stmt_prepare, event_stmt_execute, event_stmt_close,
  event_handshake, event_quit,
}
use mysql_replay.Play.Driver.{
  Request, open_pool, open_conn, prepare_stmt, exec_query, exec_stmt, close_stmt, close_conn,
  close_pool, Reply, failed, gave, History, Driver, Reply-cases,
}
use mysql_replay.Play.Spec.{
  Act, ran_query, ran_stmt, executed, spec_step, prepares, resolve, acted, ran, newest,
}
use mysql_replay.Play.Worker.{
  Statement, Worker, Outcome, done, fail, count, ask, database, conn_of_pool, get_conn, run_counted,
  with_conn, execute, close_handle, handle_of, prepare_on, stmt_prepare, get_stmt, stmt_execute,
  stmt_close, close_all, left, quit_conn, quit_pool, quit, handshake, no_such_statement, PlayError,
}
use mysql_replay.Stats.Counter.{name, queries, stmt_executes, err_queries, err_stmt_executes}

-- A database that answers every request, and gives a prepared statement a handle of its own.
pub record IsReliable (dr : Driver) : Type 0 where
  pub answers : (past : History) (q : Request) → (n : ℕ) × (dr past q ≡ gave n)
  pub fresh :
      (past : History) (c n : ℕ) (text : Bytes)
      → dr past (prepare_stmt c text) ≡ gave n
      → resolve n past ≡ none

-- The statement has a handle, which was prepared from its text.
pub record IsLive (past : History) (e : ℕ × Statement) : Type 0 where
  pub handle : ℕ
  pub here : e.1.handle ≡ some handle
  pub text : resolve handle past ≡ some e.1.query

unfoldable pub texts : Map ℕ Statement → Map ℕ Bytes
texts [] = []
texts ((id, s) ∷ m) = (id, s.query) ∷ texts m

-- The worker stands where the events say: with the texts `m`, and what has run.
pub record Refines (m : Map ℕ Bytes) (acts : List Act) (w : Worker) : Type 0 where
  pub table : texts w.stmts ≡ m
  pub live : All (IsLive w.history) w.stmts
  pub has_run : ran w.history ≡ acts

pub texts-erase : (id : ℕ) (m : Map ℕ Statement) → texts (erase id m) ≡ erase id (texts m)
unfolding texts erase
texts-erase id [] = refl
texts-erase id ((j, s) ∷ m) = elim (Bool-cases (j == id)) [
  | inl e ↦ rw e (texts-erase id m)
  | inr e ↦ rw e (ap (◌∷◌ (j, s.query)) (texts-erase id m))
]

pub texts-insert :
    (id : ℕ) (s : Statement) (m : Map ℕ Statement)
    → texts (insert id s m) ≡ insert id s.query (texts m)
unfolding texts insert
texts-insert id s [] = refl
texts-insert id s ((j, t) ∷ m) = elim (Bool-cases (j == id)) [
  | inl e ↦ rw e refl
  | inr e ↦ rw e (ap (◌∷◌ (j, t.query)) (texts-insert id s m))
]

abbrev pub query_of : Option Statement → Option Bytes
query_of none = none
query_of (some s) = some s.query

pub lookup-texts : (id : ℕ) (m : Map ℕ Statement) → lookup id (texts m) ≡ query_of (lookup id m)
unfolding texts lookup
lookup-texts id [] = refl
lookup-texts id ((j, s) ∷ m) = elim (Bool-cases (j == id)) [
  | inl e ↦ rw e refl
  | inr e ↦ rw e (lookup-texts id m)
]

-- A request that neither prepares nor runs.
pub data IsNeutral : Request → Type 0 where
  neutral_open_pool : (s : Bytes) → IsNeutral (open_pool s)
  neutral_open_conn : (p : ℕ) → IsNeutral (open_conn p)
  neutral_close_stmt : (p : ℕ) → IsNeutral (close_stmt p)
  neutral_close_conn : (p : ℕ) → IsNeutral (close_conn p)
  neutral_close_pool : (p : ℕ) → IsNeutral (close_pool p)

-- What a request leaves of the handles that were prepared before.
prepares-quiet : (h : ℕ) (q : Request) (r : Reply) → IsNeutral q → prepares h q r ≡ none
unfolding prepares
prepares-quiet h q (failed e) i = refl
prepares-quiet h q (gave n) (neutral_open_pool s) = refl
prepares-quiet h q (gave n) (neutral_open_conn s) = refl
prepares-quiet h q (gave n) (neutral_close_stmt s) = refl
prepares-quiet h q (gave n) (neutral_close_conn s) = refl
prepares-quiet h q (gave n) (neutral_close_pool s) = refl

acted-neutral : (q : Request) (past : History) → IsNeutral q → acted q past ≡ []
unfolding acted
acted-neutral q past (neutral_open_pool s) = refl
acted-neutral q past (neutral_open_conn s) = refl
acted-neutral q past (neutral_close_stmt s) = refl
acted-neutral q past (neutral_close_conn s) = refl
acted-neutral q past (neutral_close_pool s) = refl

pub resolve-quiet :
    (h : ℕ) (q : Request) (r : Reply) (past : History)
    → prepares h q r ≡ none
    → resolve h ((q, r) ∷ past) ≡ resolve h past
unfolding resolve
resolve-quiet h q r past e = rw e refl

pub IsLive-quiet :
    (q : Request) (r : Reply) (past : History) (m : Map ℕ Statement)
    → ((h : ℕ) → prepares h q r ≡ none)
    → All (IsLive past) m
    → All (IsLive ((q, r) ∷ past)) m
IsLive-quiet q r past [] e a = tt
IsLive-quiet q r past (x ∷ m) e (l, a) = (
  record {
    handle = l.handle;
    here = l.here;
    text = resolve-quiet l.handle q r past (e l.handle) ∙ l.text;
  },
  IsLive-quiet q r past m e a,
)

module _ (dr : Driver) (m : Map ℕ Bytes) (acts : List Act) where
  pub neutral :
      (w : Worker) (q : Request) → IsNeutral q → Refines m acts w → Refines m acts (ask dr w q)
  unfolding ran
  neutral w q i f = record {
    table = f.table;
    live =
        IsLive-quiet q (dr w.history q) w.history w.stmts
          (λ h. prepares-quiet h q (dr w.history q) i) f.live;
    has_run = rw (acted-neutral q w.history i) (append-nil (ran w.history) ∙ f.has_run);
  }

-- The session's connection is there.
pub record Connected (m : Map ℕ Bytes) (acts : List Act) (r : Outcome ℕ × Worker) : Type 0 where
  pub conn : ℕ
  pub result : r.0 ≡ done conn
  pub refines : Refines m acts r.1

module _ (dr : Driver) (ok : IsReliable dr) (m : Map ℕ Bytes) (acts : List Act) where
  conn_of_pool-Connected :
      (w : Worker) (p : ℕ) → Refines m acts w → Connected m acts (conn_of_pool dr w p)
  unfolding conn_of_pool
  conn_of_pool-Connected w p f = elim (Option-cases w.conn) [
    | inr (c, e) ↦ rw (conn_of_pool, e) (record { conn = c; result = refl; refines = f })
    | inl e ↦
        let (c, r) = ok.answers w.history (open_conn p) in
        let g : Refines m acts (ask dr w (open_conn p)) =
          neutral dr m acts w (open_conn p) (neutral_open_conn p) f in
        rw (conn_of_pool, e, r)
          (record {
            conn = c;
            result = refl;
            refines = record { table = g.table; live = g.live; has_run = g.has_run };
          })
  ]

  pub get_conn-Connected :
      (target : Bytes) (w : Worker) → Refines m acts w → Connected m acts (get_conn dr target w)
  unfolding get_conn
  get_conn-Connected target w f =
      let q = open_pool (database target w.schema) in
      elim (Option-cases w.pool) [
        | inr (p, e) ↦ simp (get_conn, e) (conn_of_pool-Connected w p f)
        | inl e ↦
            let (p, r) = ok.answers w.history q in
            let g : Refines m acts (ask dr w q) = neutral dr m acts w q (neutral_open_pool _) f in
            let z : Worker = record (ask dr w q) { pool = some p } in
            rw (get_conn, e, r)
              (conn_of_pool-Connected z p
                (record { table = g.table; live = g.live; has_run = g.has_run }))
      ]

  pub handshake-Refines :
      (target schema : Bytes) (w : Worker)
      → Refines m acts w
      → Connected m acts (handshake dr target w schema)
  unfolding handshake
  handshake-Refines target schema w f =
      let q = open_pool (database target schema) in
      let (p, r) = ok.answers w.history q in
      let g : Refines m acts (ask dr w q) = neutral dr m acts w q (neutral_open_pool _) f in
      let z : Worker = record (ask dr w q) { pool = some p; schema = schema } in
      rw (handshake, r)
        (get_conn-Connected target z
          (record { table = g.table; live = g.live; has_run = g.has_run }))

module _ (dr : Driver) (m : Map ℕ Bytes) (acts : List Act) where
  pub close_handle-Refines :
      (w : Worker) (o : Option ℕ) → Refines m acts w → Refines m acts (close_handle dr w o)
  close_handle-Refines w none f = f
  close_handle-Refines w (some h) f = neutral dr m acts w (close_stmt h) (neutral_close_stmt h) f

  pub close_all-Refines :
      (w : Worker) (t : Map ℕ Statement) → Refines m acts w → Refines m acts (close_all dr w t)
  unfolding close_all
  close_all-Refines w [] f = f
  close_all-Refines w ((id, s) ∷ t) f =
      close_all-Refines (close_handle dr w s.handle) t (close_handle-Refines w s.handle f)
