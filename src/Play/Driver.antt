-- ===== src/Play/Driver.antt =====
-- The database behind database/sql, as the replay calls it: what it is asked, and what it answers.
-- A handle of a pool, a connection or a statement is a number.
use mysql_replay.Base.{ℕ, List, Bytes, ◌≡◌, ◌⊎◌, inl, inr, refl}
use mysql_replay.Event.Types.{Param}

pub data DbError : Type 0 where
  deadline_exceeded conn_done invalid_conn : DbError
  other_error : ℕ → DbError

-- `sql.Open`, `pool.Conn`, `conn.PrepareContext`, `conn.ExecContext`, `stmt.ExecContext`, and the
-- three kinds of `Close`.
pub data Request : Type 0 where
  open_pool : Bytes → Request
  open_conn : ℕ → Request
  prepare_stmt : ℕ → Bytes → Request
  exec_query : ℕ → Bytes → Request
  exec_stmt : ℕ → List Param → Request
  close_stmt : ℕ → Request
  close_conn : ℕ → Request
  close_pool : ℕ → Request

-- The answer to a request that gives no handle is any number.
pub data Reply : Type 0 where
  failed : DbError → Reply
  gave : ℕ → Reply

-- The requests so far with their answers, the newest first.
abbrev pub History : Type 0
History = List (Request × Reply)

-- The database answers by all that came before. Timeouts are answers of it too.
abbrev pub Driver : Type 0
Driver = History → Request → Reply

pub Reply-cases : (r : Reply) → ((e : DbError) × (r ≡ failed e)) ⊎ ((n : ℕ) × (r ≡ gave n))
Reply-cases (failed e) = inl (e, refl)
Reply-cases (gave n) = inr (n, refl)
