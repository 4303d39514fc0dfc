-- ===== src/Stream/Fsm.antt =====
-- stream/mysql.go: `MySQLFSM`, the state machine of a session, and `Handle`. A panic is `none`. The
-- log lines are left out. `spare` is what stands in the data buffer behind its contents.
pub mod Authentication
pub mod Handshake
pub mod Machine
pub mod Load
pub mod Invariant
pub mod Panics
pub mod Returns
use mysql_replay.Base.{
  ℕ, zero, suc, ◌+◌, ◌-◌, ◌*◌, ◌/◌, Bool, true, false, not, ◌&&◌, ◌||◌, List, [], ◌∷◌, ◌++◌, Option,
  none, some, Bytes, length, take, drop, get_elem?, get_or, ltb, leb, ◌==◌, if◌then◌else◌,
}
use mysql_replay.Base.Int.{pos}
use mysql_replay.Base.Map.{lookup, insert, erase, nat_eq}
use mysql_replay.Base.Result.{Result, ok, err, panic}
use mysql_replay.Event.Types.{Param}
use mysql_replay.Stream.Fsm.Handshake.{handle_handshake_response}
use mysql_replay.Stream.Fsm.Machine.{
  State, init, unknown, com_query_state, com_stmt_execute_state, com_stmt_close_state,
  com_stmt_prepare0, com_stmt_prepare1, com_quit_state, handshake0, handshake1, code, Stmt, Fsm,
  set, load, ready, next_seq, attempt, assert_dir, assert_data_byte, tail_of,
}
use mysql_replay.Stream.Packet.{
  Direction, client_to_server, server_to_client, MysqlPacket, com_query, com_stmt_execute,
  com_stmt_prepare, com_stmt_close, com_quit, handshake_v9, handshake_v10,
}
use mysql_replay.Stream.Params.Temporal.{Values}
use mysql_replay.Stream.Params.{parse_exec_params}
use mysql_replay.Stream.Reader.{read_uint16, read_uint32, read_bytes_n}

unfoldable pub is_client_command : Fsm → ℕ → Bool
is_client_command m cmd = assert_dir m client_to_server && assert_data_byte m 0 cmd

-- `none` is the panic of an index out of range.
unfoldable pub is_handshake_request : Fsm → Option Bool
is_handshake_request m =
    if not (assert_dir m server_to_client)
    then some false
    else if ltb (length m.buffer) 6
    then some false
    else elim (get_elem? m.buffer 0) [
      | none ↦ none
      | some b ↦ some (b == handshake_v9 || b == handshake_v10)
    ]

unfoldable pub handle_com_query : Fsm → Option Fsm
handle_com_query m = elim (tail_of m.buffer) [
  | none ↦ none
  | some q ↦ some (set (record m { query = q }) com_query_state)
]

-- The end of `handleComStmtExecuteNoLoad`.
unfoldable pub executed : Fsm → Stmt → List Param → Fsm
executed m stmt params = set (record m { stmt = stmt; params = params }) com_stmt_execute_state

unfoldable pub execute_values : Fsm → Stmt → Bytes → Bytes → Values → Option Fsm
execute_values m stmt nulls types v = elim (parse_exec_params stmt.num_params nulls types v) [
  | ok params ↦ some (executed m stmt params)
  | err e ↦ some (set m unknown)
  | panic ↦ none
]

-- `data[1:1+n]` and `data[1+n:]`; `none` is the panic of a slice out of range. The first slice may
-- reach beyond the length, the second may not start there.
unfoldable pub split_types : ℕ → Bytes → Option (Bytes × Bytes)
split_types n s = if leb (1 + n) (length s) then some (take n (drop 1 s), drop (1 + n) s) else none

-- The types come with the values,
unfoldable pub execute_first : Bytes → Fsm → ℕ → Stmt → Bytes → Option (Bytes × Bytes) → Option Fsm
execute_first spare m id stmt nulls none = none
execute_first spare m id stmt nulls (some (types, values)) =
    let typed = record stmt { types = some types } in
    execute_values (record m { stmts = insert id typed m.stmts }) typed nulls types
      (record { text = values; spare = spare })

-- or from an earlier execution.
unfoldable pub execute_again : Bytes → Fsm → Stmt → Bytes → Bytes → Option Fsm
execute_again spare m stmt nulls s = elim stmt.types [
  | none ↦ some (set m unknown)
  | some types ↦ elim (tail_of s) [
    | none ↦ none
    | some values ↦ execute_values m stmt nulls types (record { text = values; spare = spare })
  ]
]

-- `data[0]` tells which.
unfoldable pub execute_typed : Bytes → Fsm → ℕ → Stmt → Bytes → Bytes → Option Fsm
execute_typed spare m id stmt nulls s = elim (get_elem? s 0) [
  | none ↦ none
  | some b ↦
      if b == 1
      then execute_first spare m id stmt nulls (split_types (2 * stmt.num_params) s)
      else execute_again spare m stmt nulls s
]

unfoldable pub execute_params : Bytes → Fsm → ℕ → Stmt → Bytes → Option Fsm
execute_params spare m id stmt s = attempt m (read_bytes_n s (pos ((stmt.num_params + 7) / 8))) λ r.
    if ltb (length r.1) (1 + 2 * stmt.num_params)
    then some (set m unknown)
    else execute_typed spare m id stmt r.0 r.1

unfoldable pub execute_stmt : Bytes → Fsm → ℕ → Bytes → Option Stmt → Option Fsm
execute_stmt spare m id s none = some (set m unknown)
execute_stmt spare m id s (some stmt) = attempt m (read_bytes_n s (pos 5)) λ r.
    if ltb 0 stmt.num_params then execute_params spare m id stmt r.1 else some (executed m stmt [])

unfoldable pub handle_com_stmt_execute : Bytes → Fsm → Option Fsm
handle_com_stmt_execute spare m = elim (tail_of m.buffer) [
  | none ↦ none
  | some s ↦ attempt m (read_uint32 s) λ r. execute_stmt spare m r.0 r.1 (lookup r.0 m.stmts)
]

-- A missing key of the map is the zero statement.
abbrev pub no_stmt : Stmt
no_stmt = record { id = 0; query = []; num_params = 0; types = none }

abbrev pub stmt_or_zero : Option Stmt → Stmt
stmt_or_zero none = no_stmt
stmt_or_zero (some s) = s

unfoldable pub handle_com_stmt_close : Fsm → Option Fsm
handle_com_stmt_close m = elim (tail_of m.buffer) [
  | none ↦ none
  | some s ↦ attempt m (read_uint32 s) λ r. some (
      set (record m { stmt = stmt_or_zero (lookup r.0 m.stmts); stmts = erase r.0 m.stmts })
        com_stmt_close_state)
]

unfoldable pub handle_com_stmt_prepare_request : Fsm → Option Fsm
handle_com_stmt_prepare_request m = elim (tail_of m.buffer) [
  | none ↦ none
  | some q ↦ some (set (record m { stmt = record no_stmt { query = q } }) com_stmt_prepare0)
]

-- The numbers of an OK response: the statement's id, the columns, the parameters.
unfoldable pub prepare_ok : Fsm → Bytes → Option Fsm
prepare_ok m s = attempt m (read_uint32 s) λ id. attempt m (read_uint16 id.1) λ columns.
    attempt m (read_uint16 columns.1) λ params.
      let stmt = record m.stmt { id = id.0; num_params = params.0 } in
      some (set (record m { stmt = stmt; stmts = insert id.0 stmt m.stmts }) com_stmt_prepare1)

unfoldable pub handle_com_stmt_prepare_response : Fsm → Option Fsm
unfolding prepare_ok
handle_com_stmt_prepare_response m =
    let (m', loaded) = load 1 m in
    if not loaded
    then some (set m' unknown)
    else if not (assert_dir m' server_to_client)
    then some (set m' unknown)
    else if not (assert_data_byte m' 0 0)
    then some (set m' unknown)
    else elim (tail_of m'.buffer) [ none ↦ none | some s ↦ prepare_ok m' s ]

-- The command that was loaded.
unfoldable pub handle_command : Bytes → Fsm → Option Fsm
handle_command spare m =
    if is_client_command m com_query
    then handle_com_query m
    else if is_client_command m com_stmt_execute
    then handle_com_stmt_execute spare m
    else if is_client_command m com_stmt_prepare
    then handle_com_stmt_prepare_request m
    else if is_client_command m com_stmt_close
    then handle_com_stmt_close m
    else if is_client_command m com_quit
    then some (set m com_quit_state)
    else elim (is_handshake_request m) [
      | none ↦ none
      | some b ↦ if b then some (set m handshake0) else some (set m unknown)
    ]

unfoldable pub handle_init_packet : Bytes → Fsm → Option Fsm
handle_init_packet spare m =
    let (m', loaded) = load 0 m in
    if not loaded then some (set m' unknown) else handle_command spare m'

-- The states in which `Handle` reads the packet that it appended.
unfoldable pub handle_ready : Bytes → State → Fsm → Option Fsm
handle_ready spare init m = handle_init_packet spare m
handle_ready spare com_stmt_prepare0 m = handle_com_stmt_prepare_response m
handle_ready spare handshake0 m = handle_handshake_response m
handle_ready spare _ m = some m

unfoldable pub handle_appended : Bytes → Fsm → Option Fsm
handle_appended spare m = if not (ready m) then some m else handle_ready spare m.state m

unfoldable pub handle : Bytes → Fsm → MysqlPacket → Option Fsm
unfolding handle_appended
handle spare old pkt =
    let m = record old { changed = false } in
    if code m.state == code com_quit_state
    then some m
    else if pkt.seq == 0
    then handle_appended spare (record (set m init) { packets = pkt ∷ [] })
    else if next_seq m == pkt.seq
    then handle_appended spare (record m { packets = m.packets ++ pkt ∷ [] })
    else some m
