-- ===== src/Play/Spec.antt =====
-- What a replay is to run: the queries of the events, and the texts of the statements they execute.
use mysql_replay.Base.{ℕ, List, [], ◌∷◌, ◌++◌, Option, none, some, Bytes, if◌then◌else◌, ◌==◌}
use mysql_replay.Base.Map.{Map, lookup, insert, erase, nat_eq}
use mysql_replay.Event.Types.{
  Param, MysqlEvent, event_query, event_stmt_prepare, event_stmt_execute, event_stmt_close,
  event_handshake, event_quit,
}
use mysql_replay.Play.Driver.{
  Request, prepare_stmt, exec_query, exec_stmt, Reply, failed, gave, History,
}

-- What runs on the database: a text, or a prepared text with its parameters.
pub data Act : Type 0 where
  ran_query : Bytes → Act
  ran_stmt : Bytes → List Param → Act

-- An execution of a statement that was prepared and not closed runs its text; one of another id
-- runs nothing.
abbrev pub executed : Option Bytes → List Param → List Act
executed none params = []
executed (some text) params = ran_stmt text params ∷ []

-- The texts of the prepared statements by their ids, and what an event runs.
unfoldable pub spec_step : Map ℕ Bytes → MysqlEvent → Map ℕ Bytes × List Act
spec_step m e =
    if e.type == event_query
    then (m, ran_query e.query ∷ [])
    else if e.type == event_stmt_execute
    then (m, executed (lookup e.stmt_id m) e.params)
    else if e.type == event_stmt_prepare
    then (insert e.stmt_id e.query (erase e.stmt_id m), [])
    else if e.type == event_stmt_close
    then (erase e.stmt_id m, [])
    else if e.type == event_handshake
    then ([], [])
    else if e.type == event_quit
    then ([], [])
    else (m, [])

unfoldable pub spec : Map ℕ Bytes → List MysqlEvent → List Act
unfolding spec_step
spec m [] = []
spec m (e ∷ es) = let (next, acts) = spec_step m e in acts ++ spec next es

-- The text that a request prepares as the statement `h`.
unfoldable pub prepares : ℕ → Request → Reply → Option Bytes
prepares h q (failed e) = none
prepares h (prepare_stmt c text) (gave n) = if n == h then some text else none
prepares h _ (gave n) = none

abbrev pub newest : Option Bytes → Option Bytes → Option Bytes
newest (some text) old = some text
newest none old = old

-- The text of the statement `h`.
unfoldable pub resolve : ℕ → History → Option Bytes
unfolding prepares
resolve h [] = none
resolve h ((q, r) ∷ past) = newest (prepares h q r) (resolve h past)

unfoldable pub acted : Request → History → List Act
unfolding resolve
acted (exec_query c text) past = ran_query text ∷ []
acted (exec_stmt h params) past = executed (resolve h past) params
acted _ past = []

-- What has run.
unfoldable pub ran : History → List Act
unfolding acted
ran [] = []
ran ((q, r) ∷ past) = ran past ++ acted q past
