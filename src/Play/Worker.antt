-- ===== src/Play/Worker.antt =====
-- cmd/text.go: `playWorker`, its connection and its table of statements.
use Prim.Native.String.{String}
use mysql_replay.Base.{
  ℕ, ◌-◌, ◌^◌, Bool, true, false, not, ◌&&◌, List, [], ◌∷◌, Option, none, some, Bytes, length,
  if◌then◌else◌, ltb, ◌==◌,
}
use mysql_replay.Base.Map.{Map, lookup, insert, erase, nat_eq}
use mysql_replay.Event.Types.{Param}
use mysql_replay.Play.Driver.{
  DbError, Request, open_pool, open_conn, prepare_stmt, exec_query, exec_stmt, close_stmt,
  close_conn, close_pool, failed, gave, History, Driver,
}
use mysql_replay.Stats.Counter.{
  Counters, name, running_conns, queries, stmt_executes, stmt_prepares, conns, err_queries,
  err_stmt_executes, err_stmt_prepares, add,
}
use mysql_replay.Stats.Lagging.{Laggings}

pub record Statement : Type 0 where
  pub query : Bytes
  pub handle : Option ℕ

-- `stats` and `laggings` are the process's, `history` is what the database was asked.
pub record Worker : Type 0 where
  pub id : ℕ
  pub schema : Bytes
  pub pool : Option ℕ
  pub conn : Option ℕ
  pub stmts : Map ℕ Statement
  pub stats : Counters
  pub laggings : Laggings
  pub history : History

-- `traced` is an error behind `errors.Trace`; `no_such_statement` has the id.
pub data PlayError : Type 0 where
  traced : DbError → PlayError
  plain : DbError → PlayError
  no_such_statement : ℕ → PlayError

pub data Outcome (A : Type 0) : Type 0 where
  done : A → Outcome A
  fail : PlayError → Outcome A

abbrev pub count : Worker → String → ℕ → Worker
count w n d = record w { stats = (add w.stats n d).0 }

-- -1 as a pattern of 64 bits.
abbrev pub minus_one : ℕ
minus_one = 2 ^ 64 - 1

abbrev pub ask : Driver → Worker → Request → Worker
ask dr w q = record w { history = (q, dr w.history q) ∷ w.history }

abbrev pub equal_bytes : Bytes → Bytes → Bool
equal_bytes [] [] = true
equal_bytes (x ∷ s) (y ∷ t) = x == y && equal_bytes s t
equal_bytes _ _ = false

-- `open`: the schema of the session takes the place of the one of the target.
unfoldable pub database : Bytes → Bytes → Bytes
database target schema =
    if ltb 0 (length schema) && not (equal_bytes target schema) then schema else target

-- The second half of `getConn`, which has a pool.
unfoldable pub conn_of_pool : Driver → Worker → ℕ → Outcome ℕ × Worker
conn_of_pool dr w p = elim w.conn [
  | some c ↦ (done c, w)
  | none ↦ elim (dr w.history (open_conn p)) [
    | failed e ↦ (fail (traced e), ask dr w (open_conn p))
    | gave c ↦ (done c, count (record (ask dr w (open_conn p)) { conn = some c }) (name conns) 1)
  ]
]

unfoldable pub get_conn : Driver → Bytes → Worker → Outcome ℕ × Worker
unfolding database conn_of_pool
get_conn dr target w =
    let q = open_pool (database target w.schema) in
    elim w.pool [
      | some p ↦ conn_of_pool dr w p
      | none ↦ elim (dr w.history q) [
        | failed e ↦ (fail (plain e), ask dr w q)
        | gave p ↦ conn_of_pool dr (record (ask dr w q) { pool = some p }) p
      ]
    ]

-- A request that runs on the connection: the counters around it.
unfoldable pub run_counted : Driver → Worker → Request → String → String → Outcome Unit × Worker
run_counted dr w q total errors =
    let begun = count (count w total 1) (name running_conns) 1 in
    let ended = count (ask dr begun q) (name running_conns) minus_one in
    elim (dr w.history q) [
      | failed e ↦ (fail (traced e), count ended errors 1)
      | gave _ ↦ (done tt, ended)
    ]

abbrev pub with_conn :
    {A : Type 0} → Outcome ℕ × Worker → (ℕ → Worker → Outcome A × Worker) → Outcome A × Worker
with_conn (done c, w) f = f c w
with_conn (fail e, w) f = (fail e, w)

unfoldable pub execute : Driver → Bytes → Worker → Bytes → Outcome Unit × Worker
unfolding get_conn run_counted
execute dr target w query =
    with_conn (get_conn dr target w)
      (λ c v. run_counted dr v (exec_query c query) (name queries) (name err_queries))

-- `handle.Close`, where there is a handle.
abbrev pub close_handle : Driver → Worker → Option ℕ → Worker
close_handle dr w none = w
close_handle dr w (some h) = ask dr w (close_stmt h)

-- The zero statement of a missing key.
abbrev pub handle_of : Option Statement → Option ℕ
handle_of none = none
handle_of (some s) = s.handle

unfoldable pub prepare_on : Driver → ℕ → Bytes → ℕ → Worker → Outcome Unit × Worker
prepare_on dr id query c w =
    let q = prepare_stmt c query in
    let asked = ask dr (count w (name stmt_prepares) 1) q in
    elim (dr w.history q) [
      | failed e ↦ (fail (traced e), count asked (name err_stmt_prepares) 1)
      | gave h ↦ (
        done tt,
        record asked { stmts = insert id (record { query = query; handle = some h }) asked.stmts },
      )
    ]

unfoldable pub stmt_prepare : Driver → Bytes → Worker → ℕ → Bytes → Outcome Unit × Worker
unfolding get_conn prepare_on
stmt_prepare dr target w id query =
    let closed = close_handle dr w (handle_of (lookup id w.stmts)) in
    with_conn (get_conn dr target (record closed { stmts = erase id closed.stmts }))
      (prepare_on dr id query)

unfoldable pub prepare_again : Driver → ℕ → Bytes → ℕ → Worker → Outcome ℕ × Worker
prepare_again dr id query c w =
    let q = prepare_stmt c query in
    let asked = ask dr w q in
    elim (dr w.history q) [
      | failed e ↦ (fail (traced e), asked)
      | gave h ↦ (
        done h,
        record asked { stmts = insert id (record { query = query; handle = some h }) asked.stmts },
      )
    ]

unfoldable pub get_stmt : Driver → Bytes → Worker → ℕ → Outcome ℕ × Worker
unfolding get_conn prepare_again
get_stmt dr target w id = elim (lookup id w.stmts) [
  | none ↦ (fail (no_such_statement id), w)
  | some s ↦ elim s.handle [
    | some h ↦ (done h, w)
    | none ↦ with_conn (get_conn dr target w) (prepare_again dr id s.query)
  ]
]

unfoldable pub stmt_execute : Driver → Bytes → Worker → ℕ → List Param → Outcome Unit × Worker
unfolding get_stmt run_counted
stmt_execute dr target w id params =
    with_conn (get_stmt dr target w id)
      (λ h v. run_counted dr v (exec_stmt h params) (name stmt_executes) (name err_stmt_executes))

unfoldable pub stmt_close : Driver → Worker → ℕ → Worker
stmt_close dr w id = elim (lookup id w.stmts) [
  | none ↦ w
  | some s ↦
      let closed = close_handle dr w s.handle in record closed { stmts = erase id closed.stmts }
]

-- The loop of `quit` over the table, which Go walks in any order: every handle is closed.
unfoldable pub close_all : Driver → Worker → Map ℕ Statement → Worker
close_all dr w [] = w
close_all dr w ((id, s) ∷ m) = close_all dr (close_handle dr w s.handle) m

-- The entries that the loop leaves: on a reconnection the queries, else nothing.
unfoldable pub left : Bool → Map ℕ Statement → Map ℕ Statement
left reconnect [] = []
left reconnect ((id, s) ∷ m) =
    let rest = left reconnect m in
    if reconnect then (id, record s { handle = none }) ∷ rest else rest

abbrev pub quit_conn : Driver → Worker → Option ℕ → Worker
quit_conn dr w none = w
quit_conn dr w (some c) =
    count (record (ask dr w (close_conn c)) { conn = none }) (name conns) minus_one

abbrev pub quit_pool : Driver → Worker → Option ℕ → Worker
quit_pool dr w none = w
quit_pool dr w (some p) = record (ask dr w (close_pool p)) { pool = none }

unfoldable pub quit : Driver → Worker → Bool → Worker
unfolding close_all left
quit dr w reconnect =
    let closed = record (close_all dr w w.stmts) { stmts = left reconnect w.stmts } in
    let parted = quit_conn dr closed closed.conn in quit_pool dr parted parted.pool

unfoldable pub handshake : Driver → Bytes → Worker → Bytes → Outcome ℕ × Worker
unfolding database get_conn
handshake dr target w schema =
    let q = open_pool (database target schema) in
    elim (dr w.history q) [
      | failed e ↦ (fail (plain e), ask dr w q)
      | gave p ↦ get_conn dr target (record (ask dr w q) { pool = some p; schema = schema })
    ]
