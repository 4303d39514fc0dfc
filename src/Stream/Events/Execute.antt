-- ===== src/Stream/Events/Execute.antt =====
-- stream/event.go: executions, with types of their own or of an earlier one, and their events.
use mysql_replay.Base.{
  Option, none, ℕ, suc, ◌+◌, ◌*◌, ◌/◌, ◌≤◌, ◌<◌, Bool, false, List, [], ◌∷◌, ◌++◌, some, ◌≡◌, ◌≢◌,
  ◌∙◌, sym, refl, ap, arith, Bytes, length, length-append, take, drop, take-length_append,
  drop-length_append, lt→ltb, le→ltb, le→leb, ne→==,
}
use mysql_replay.Base.Int.{ℤ}
use mysql_replay.Base.Map.{lookup, insert, nat_eq}
use mysql_replay.Base.Result.{ok}
use mysql_replay.Event.Types.{Param, event_stmt_execute}
use mysql_replay.Stream.Events.Command.{with_command, end_time, end_spare}
use mysql_replay.Stream.Events.Feed.{feed}
use mysql_replay.Stream.Events.Flows.{
  IsClientCommand, feed-handled, tail_of-cons, is_client_command-with_command,
}
use mysql_replay.Stream.Events.{to_millis, empty_event, event_of, EventHandler}
use mysql_replay.Stream.Fsm.Machine.{
  com_quit_state, com_stmt_execute_state, unknown, Stmt, Fsm, set, joined,
}
use mysql_replay.Stream.Fsm.{
  handle_command, handle_com_stmt_execute, execute_stmt, execute_params, split_types, execute_first,
  execute_again, execute_typed, execute_values, executed,
}
use mysql_replay.Stream.Packet.{MysqlPacket, com_query, com_stmt_execute}
use mysql_replay.Stream.Params.Temporal.{Values}
use mysql_replay.Stream.Params.{parse_exec_params}
use mysql_replay.Stream.Reader.Laws.{read_bytes_n-append, read_uint32-append}
use mysql_replay.Stream.Reader.{little_endian}

-- The sizes in front of the values of an execution of `s`.
pub record IsExecution (s : Stmt) (id flags nulls : Bytes) : Type 0 where
  pub id_size : length id ≡ 4
  pub flags_size : length flags ≡ 5
  pub nulls_size : length nulls ≡ (s.num_params + 7) / 8
  pub some_params : 0 < s.num_params

execute_values-parsed :
    (m : Fsm) (s : Stmt) (nulls types : Bytes) (v : Values) (params : List Param)
    → parse_exec_params s.num_params nulls types v ≡ ok params
    → execute_values m s nulls types v ≡ some (executed m s params)
unfolding execute_values
execute_values-parsed m s nulls types v params e = rw (execute_values, e) refl

module _ (spare : Bytes) (m : Fsm) (s : Stmt) {id flags nulls : Bytes}
    (k : IsExecution s id flags nulls) where
  -- As far as the byte that says whether types follow.
  execute_stmt-reads :
      (b : ℕ) (t : Bytes)
      → 2 * s.num_params ≤ length t
      → execute_stmt spare m (little_endian id) (flags ++ (nulls ++ (b ∷ t))) (some s)
        ≡ execute_typed spare m (little_endian id) s nulls (b ∷ t)
  unfolding execute_stmt execute_params
  execute_stmt-reads b t enough =
      rw
        (
          read_bytes_n-append flags (nulls ++ (b ∷ t)) 5 k.flags_size,
          lt→ltb _ _ k.some_params,
          execute_params,
          read_bytes_n-append nulls (b ∷ t) _ k.nulls_size,
          le→ltb (length (b ∷ t)) (1 + 2 * s.num_params) (omega (arith, enough)),
        )
        refl

  execute_typed-first :
      (types values : Bytes) (params : List Param)
      → length types ≡ 2 * s.num_params
      → parse_exec_params s.num_params nulls types (record { text = values; spare = spare })
        ≡ ok params
      → execute_typed spare m (little_endian id) s nulls (1 ∷ types ++ values)
        ≡ some (
            executed
              (record m {
                stmts = insert (little_endian id) (record s { types = some types }) m.stmts;
              })
              (record s { types = some types })
              params)
  unfolding execute_typed execute_first split_types
  execute_typed-first types values params size parsed =
      let n = s.num_params in
      let front : take (2 * n) (types ++ values) ≡ types =
        rw (sym size) (take-length_append types values) in
      let next : 1 + 2 * n ≡ suc (length types) = omega (arith, size) in
      let back : drop (1 + 2 * n) (1 ∷ types ++ values) ≡ values =
        ap (λ i. drop i (1 ∷ types ++ values)) next ∙ drop-length_append types values in
      let enough : 1 + 2 * n ≤ length (1 ∷ types ++ values) =
        omega (arith, size, length-append types values) in
      rw (le→leb (1 + 2 * n) (length (1 ∷ types ++ values)) enough, front, back)
        (execute_values-parsed _ (record s { types = some types }) nulls types _ params parsed)

  execute_again-known :
      (b : ℕ) (types values : Bytes)
      → s.types ≡ some types
      → execute_again spare m s nulls (b ∷ values)
        ≡ execute_values m s nulls types (record { text = values; spare = spare })
  unfolding execute_again
  execute_again-known b types values known =
      ap
        (λ o. elim o as (λ q. Option Fsm) [
          | none ↦ some (set m unknown)
          | some old ↦ execute_values m s nulls old (record { text = values; spare = spare })
        ])
        known

  execute_typed-again :
      (b : ℕ) (types values : Bytes) (params : List Param)
      → b ≢ 1
      → s.types ≡ some types
      → parse_exec_params s.num_params nulls types (record { text = values; spare = spare })
        ≡ ok params
      → execute_typed spare m (little_endian id) s nulls (b ∷ values) ≡ some (executed m s params)
  unfolding execute_typed
  execute_typed-again b types values params other known parsed = rw (ne→== b 1 other) (
      execute_again-known b types values known
      ∙ execute_values-parsed m s nulls types _ params parsed)

module _ (spares : ℕ → Bytes) (h : EventHandler) {c : List MysqlPacket} (t : ℤ) (s : Stmt)
    {id flags nulls : Bytes} where
  handle_command-execute :
      (changed : Bool) (rest : Bytes)
      → IsExecution s id flags nulls
      → IsClientCommand c (com_stmt_execute ∷ id ++ rest)
      → lookup (little_endian id) h.fsm.stmts ≡ some s
      → handle_command (end_spare spares c) (with_command changed h.fsm c)
        ≡ execute_stmt
            (end_spare spares c)
            (with_command changed h.fsm c)
            (little_endian id)
            rest
            (some s)
  unfolding handle_command handle_com_stmt_execute
  handle_command-execute changed rest k command known =
      rw
        (
          handle_command,
          is_client_command-with_command changed h.fsm com_query command,
          is_client_command-with_command changed h.fsm com_stmt_execute command,
          handle_com_stmt_execute,
          tail_of-cons (joined c) command.reads,
          read_uint32-append id rest k.id_size,
          known,
        )
        refl

  -- A session has not quit, and a statement with parameters is known. An execution that brings types, two
  -- bytes for each parameter, and values that `parseExecParams` can read by them, gives one event with
  -- the statement's id and the values; the table keeps the types.
  pub feed-execute_typed :
      (types values : Bytes) (params : List Param)
      → h.fsm.state ≢ com_quit_state
      → IsExecution s id flags nulls
      → length types ≡ 2 * s.num_params
      → IsClientCommand c (com_stmt_execute ∷ id ++ (flags ++ (nulls ++ (1 ∷ types ++ values))))
      → lookup (little_endian id) h.fsm.stmts ≡ some s
      → parse_exec_params s.num_params nulls types
          (record { text = values; spare = end_spare spares c })
        ≡ ok params
      → (m : Fsm) × (feed spares h c
          ≡ some (record {
            fsm = m;
            events =
                h.events
                ++ record (empty_event (to_millis (end_time t c)) event_stmt_execute) {
                  stmt_id = s.id;
                  params = params;
                }
                  ∷ [];
          }))
        × (m.state ≡ com_stmt_execute_state)
        × (m.stmts ≡ insert (little_endian id) (record s { types = some types }) h.fsm.stmts)
  unfolding executed set event_of
  feed-execute_typed types values params running k size command known parsed =
      let typed = record s { types = some types } in
      let m =
        executed
          (record (with_command false h.fsm c) {
            stmts = insert (little_endian id) typed h.fsm.stmts;
          })
          typed params in
      let enough = length-append types values in
      (
        m,
        feed-handled spares h t m running command
            (λ changed.
              handle_command-execute changed (flags ++ (nulls ++ (1 ∷ types ++ values))) k command
                known
              ∙ execute_stmt-reads (end_spare spares c) (with_command changed h.fsm c) s k 1
                  (types ++ values) (omega (arith, enough, size))
              ∙ execute_typed-first (end_spare spares c) (with_command changed h.fsm c) s k types
                  values params size parsed)
            refl refl,
        refl,
        refl,
      )

  -- A session has not quit, and a statement with parameters and types is known. An execution that brings
  -- no types, and values that `parseExecParams` can read by the known types and that are at least two bytes
  -- for each parameter long, gives one event with the statement's id and the values; the table stays.
  pub feed-execute_again :
      (b : ℕ) (types values : Bytes) (params : List Param)
      → h.fsm.state ≢ com_quit_state
      → IsExecution s id flags nulls
      → b ≢ 1
      → s.types ≡ some types
      → 2 * s.num_params ≤ length values
      → IsClientCommand c (com_stmt_execute ∷ id ++ (flags ++ (nulls ++ (b ∷ values))))
      → lookup (little_endian id) h.fsm.stmts ≡ some s
      → parse_exec_params s.num_params nulls types
          (record { text = values; spare = end_spare spares c })
        ≡ ok params
      → (m : Fsm) × (feed spares h c
          ≡ some (record {
            fsm = m;
            events =
                h.events
                ++ record (empty_event (to_millis (end_time t c)) event_stmt_execute) {
                  stmt_id = s.id;
                  params = params;
                }
                  ∷ [];
          }))
        × (m.state ≡ com_stmt_execute_state)
        × (m.stmts ≡ h.fsm.stmts)
  unfolding executed set event_of
  feed-execute_again b types values params running k other known_types enough command known parsed =
      let m = executed (with_command false h.fsm c) s params in
      (
        m,
        feed-handled spares h t m running command
            (λ changed.
              handle_command-execute changed (flags ++ (nulls ++ (b ∷ values))) k command known
              ∙ execute_stmt-reads (end_spare spares c) (with_command changed h.fsm c) s k b values
                  enough
              ∙ execute_typed-again (end_spare spares c) (with_command changed h.fsm c) s k b types
                  values params other known_types parsed)
            refl refl,
        refl,
        refl,
      )

  -- A session has not quit, and a statement with parameters is known. An execution with fewer bytes behind
  -- the byte that announces types than two for each parameter gives no event, whatever they are and whether
  -- types are announced or not; the state is unknown.
  pub feed-execute_short :
      (b : ℕ) (values : Bytes)
      → h.fsm.state ≢ com_quit_state
      → IsExecution s id flags nulls
      → length values < 2 * s.num_params
      → IsClientCommand c (com_stmt_execute ∷ id ++ (flags ++ (nulls ++ (b ∷ values))))
      → lookup (little_endian id) h.fsm.stmts ≡ some s
      → (m : Fsm) × (feed spares h c ≡ some (record { fsm = m; events = h.events }))
        × (m.state ≡ unknown)
  unfolding execute_stmt execute_params set event_of
  feed-execute_short b values running k short command known =
      let m = set (with_command false h.fsm c) unknown in
      (
        m,
        feed-handled spares h t m running command
            (λ changed.
              handle_command-execute changed (flags ++ (nulls ++ (b ∷ values))) k command known
              ∙ rw
                  (
                    read_bytes_n-append flags (nulls ++ (b ∷ values)) 5 k.flags_size,
                    lt→ltb _ _ k.some_params,
                    execute_params,
                    read_bytes_n-append nulls (b ∷ values) _ k.nulls_size,
                    lt→ltb (length (b ∷ values)) (1 + 2 * s.num_params) (omega (arith, short)),
                  )
                  refl)
            refl refl,
        refl,
      )
