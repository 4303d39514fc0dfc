-- ===== src/Stream/Tests/Execute.antt =====
-- Executions at which the theorems on stream/mysql.go are applied.
use mysql_replay.Base.{List, codes, ◌≡◌, refl, arith, [], ◌∷◌, ◌++◌, some, Bytes}
use mysql_replay.Base.Int.{pos, negsuc}
use mysql_replay.Base.Map.{lookup, insert, nat_eq}
use mysql_replay.Base.Result.{ok}
use mysql_replay.Event.Types.{Param, i64, event_stmt_execute, nil, u64, str, f64}
use mysql_replay.Stream.Events.Feed.{feed}
use mysql_replay.Stream.Events.Execute.{
  IsExecution, feed-execute_typed, feed-execute_again, feed-execute_short,
}
use mysql_replay.Stream.Events.{empty_event}
use mysql_replay.Stream.Fsm.Machine.{com_stmt_execute_state, unknown, Fsm}
use mysql_replay.Stream.Packet.{com_stmt_execute}
use mysql_replay.Stream.Params.Sequence.{read_params, parse_exec_params-read_params}
use mysql_replay.Stream.Params.RoundTrip.{parse_exec_params-wire}
use mysql_replay.Stream.Params.Wire.{wire_types, wire_values}
use mysql_replay.Stream.Params.Temporal.{le_at}
use mysql_replay.Stream.Params.{
  recovered, parse_exec_params, parse_params, parse_value, parse_integer,
}
use mysql_replay.Stream.Tests.{no_spares, sent, one_param, session, small-IsClientCommand}

-- The id, the flags and the iterations, and the bitmap of an execution of the statement.
abbrev head_id : Bytes
head_id = 7 ∷ 0 ∷ 0 ∷ 0 ∷ []

abbrev head_flags : Bytes
head_flags = 0 ∷ 1 ∷ 0 ∷ 0 ∷ 0 ∷ []

head-IsExecution : IsExecution one_param head_id head_flags (0 ∷ [])
head-IsExecution = record {
  id_size = refl;
  flags_size = refl;
  nulls_size = refl;
  some_params = omega arith;
}

-- The type of a `tinyint`, and -2.
tiny_reads :
    parse_exec_params 1 (0 ∷ []) (1 ∷ 0 ∷ []) (record { text = 254 ∷ []; spare = [] })
    ≡ ok (i64 (negsuc 1) ∷ [])
unfolding parse_exec_params parse_params parse_value parse_integer le_at
tiny_reads = refl

feed-execute_typed_example :
    (m : Fsm) × (feed no_spares session
        (sent 14 0 (com_stmt_execute ∷ head_id ++ (head_flags ++ (0 ∷ 1 ∷ 1 ∷ 0 ∷ 254 ∷ []))) ∷ [])
      ≡ some (record {
        fsm = m;
        events =
            record (empty_event (pos 1000) event_stmt_execute) {
              stmt_id = 7;
              params = i64 (negsuc 1) ∷ [];
            }
            ∷ [];
      }))
    × (m.state ≡ com_stmt_execute_state)
    × (m.stmts ≡ insert 7 (record one_param { types = some (1 ∷ 0 ∷ []) }) session.fsm.stmts)
unfolding lookup
feed-execute_typed_example =
    feed-execute_typed no_spares session (pos 0) one_param (1 ∷ 0 ∷ []) (254 ∷ [])
      (i64 (negsuc 1) ∷ []) (λ e. cc) head-IsExecution refl
      (small-IsClientCommand 14 com_stmt_execute _ (omega arith)) refl tiny_reads

-- The type of a `bigint`, and 258.
long_long_reads :
    parse_exec_params 1
      (0 ∷ [])
      (8 ∷ 0 ∷ [])
      (record { text = 2 ∷ 1 ∷ 0 ∷ 0 ∷ 0 ∷ 0 ∷ 0 ∷ 0 ∷ []; spare = [] })
    ≡ ok (i64 (pos 258) ∷ [])
unfolding parse_exec_params parse_params parse_value parse_integer le_at
long_long_reads = refl

feed-execute_again_example :
    (m : Fsm) × (feed no_spares session (
        sent 19 0 (
          com_stmt_execute ∷ head_id
          ++ (head_flags ++ (0 ∷ 0 ∷ 2 ∷ 1 ∷ 0 ∷ 0 ∷ 0 ∷ 0 ∷ 0 ∷ 0 ∷ [])))
        ∷ [])
      ≡ some (record {
        fsm = m;
        events =
            record (empty_event (pos 1000) event_stmt_execute) {
              stmt_id = 7;
              params = i64 (pos 258) ∷ [];
            }
            ∷ [];
      }))
    × (m.state ≡ com_stmt_execute_state)
    × (m.stmts ≡ session.fsm.stmts)
unfolding lookup
feed-execute_again_example =
    feed-execute_again no_spares session (pos 0) one_param 0 (8 ∷ 0 ∷ [])
      (2 ∷ 1 ∷ 0 ∷ 0 ∷ 0 ∷ 0 ∷ 0 ∷ 0 ∷ []) (i64 (pos 258) ∷ []) (λ e. cc) head-IsExecution
      (omega arith) refl (omega arith) (small-IsClientCommand 19 com_stmt_execute _ (omega arith))
      refl long_long_reads

-- A `tinyint` takes one byte; an execution by known types asks for two.
feed-execute_short_example :
    (m : Fsm) × (feed no_spares session
        (sent 12 0 (com_stmt_execute ∷ head_id ++ (head_flags ++ (0 ∷ 0 ∷ 254 ∷ []))) ∷ [])
      ≡ some (record { fsm = m; events = [] }))
    × (m.state ≡ unknown)
unfolding lookup
feed-execute_short_example =
    feed-execute_short no_spares session (pos 0) one_param 0 (254 ∷ []) (λ e. cc) head-IsExecution
      (omega arith) (small-IsClientCommand 12 com_stmt_execute _ (omega arith)) refl

-- The first of the two is NULL; the second is an unsigned `tinyint`.
parse_exec_params-read_params_example :
    parse_exec_params 2 (1 ∷ []) (8 ∷ 0 ∷ 1 ∷ 128 ∷ []) (record { text = 254 ∷ []; spare = [] })
    ≡ recovered
        (read_params 2 0 (1 ∷ []) (8 ∷ 0 ∷ 1 ∷ 128 ∷ []) (record { text = 254 ∷ []; spare = [] }) 0)
parse_exec_params-read_params_example =
    parse_exec_params-read_params 2 (1 ∷ []) (8 ∷ 0 ∷ 1 ∷ 128 ∷ [])
      (record { text = 254 ∷ []; spare = [] })

abbrev wire_params : List Param
wire_params = i64 (negsuc 1) ∷ nil ∷ u64 7 ∷ str (codes "ab") ∷ f64 3 ∷ []

parse_exec_params-wire_example :
    parse_exec_params 5
      (0 ∷ [])
      (wire_types wire_params)
      (record { text = wire_values wire_params; spare = 9 ∷ [] })
    ≡ ok wire_params
parse_exec_params-wire_example =
    parse_exec_params-wire wire_params (9 ∷ [])
      ((omega arith, omega arith), (tt, (omega arith, (omega arith, (omega arith, tt)))))
