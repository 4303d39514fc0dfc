-- ===== src/Stream/Fsm/Invariant/Commands.antt =====
-- stream/mysql.go: the handlers of commands and of the response to a prepare, and the invariant.
use mysql_replay.Base.{
  ℕ, ◌+◌, ◌*◌, ◌/◌, ◌≤◌, not, List, [], Option, none, some, ◌≡◌, inl, inr, refl, arith, Bytes,
  length, length-take, length-drop, take, drop, ltb, ◌==◌, Bool-cases, Option-cases, get_elem?,
  le→leb, if◌then◌else◌,
}
use mysql_replay.Base.Int.{pos}
use mysql_replay.Base.Map.{lookup, insert, nat_eq, All-insert, All-erase, All-lookup}
use mysql_replay.Base.Result.{Result, ok, err, panic}
use mysql_replay.Event.Types.{Param}
use mysql_replay.Stream.Fsm.Invariant.{
  IsEntry, IsValid, Core, Keeps, attempt-Keeps, if-Keeps, load-Core, load-stmt, set-IsValid,
  unknown-IsValid,
}
use mysql_replay.Stream.Fsm.Machine.{
  unknown, com_query_state, com_stmt_execute_state, com_stmt_close_state, com_stmt_prepare0,
  com_stmt_prepare1, com_quit_state, handshake0, Stmt, Fsm, set, load, tail_of, assert_dir,
  assert_data_byte,
}
use mysql_replay.Stream.Fsm.{
  is_client_command, is_handshake_request, handle_com_query, executed, execute_values, split_types,
  execute_first, execute_again, execute_typed, execute_params, execute_stmt,
  handle_com_stmt_execute, no_stmt, handle_com_stmt_close, handle_com_stmt_prepare_request,
  prepare_ok, handle_com_stmt_prepare_response, handle_command,
}
use mysql_replay.Stream.Packet.{
  server_to_client, com_query, com_stmt_execute, com_stmt_prepare, com_stmt_close, com_quit,
}
use mysql_replay.Stream.Params.Laws.{length-parse_exec_params}
use mysql_replay.Stream.Params.Temporal.{Values, ParseError}
use mysql_replay.Stream.Params.{parse_exec_params}
use mysql_replay.Stream.Reader.{read_uint16, read_uint32, read_bytes_n}

-- The rest of the data behind the command byte; no data is a panic.
tail-Keeps :
    (o : Option Bytes) (k : Bytes → Option Fsm)
    → ((s : Bytes) → Keeps (k s))
    → Keeps (elim o [ none ↦ none | some s ↦ k s ])
tail-Keeps none k h = tt
tail-Keeps (some s) k h = h s

handle_com_query-Keeps : (m : Fsm) → Core m → Keeps (handle_com_query m)
unfolding handle_com_query
handle_com_query-Keeps m c = tail-Keeps (tail_of m.buffer) _ λ q.
    set-IsValid (record m { query = q }) com_query_state
      (record { numbered = c.numbered; table = c.table }) tt tt

executed-IsValid :
    (m : Fsm) (stmt : Stmt) (params : List Param)
    → Core m
    → length params ≡ stmt.num_params
    → IsValid (executed m stmt params)
unfolding executed
executed-IsValid m stmt params c h =
    set-IsValid (record m { stmt = stmt; params = params }) com_stmt_execute_state
      (record { numbered = c.numbered; table = c.table }) tt h

execute_values-Keeps :
    (m : Fsm) (stmt : Stmt) (nulls types : Bytes) (v : Values)
    → Core m
    → Keeps (execute_values m stmt nulls types v)
unfolding execute_values
execute_values-Keeps m stmt nulls types v c =
    by_result (parse_exec_params stmt.num_params nulls types v) λ out h.
      executed-IsValid m stmt out c (length-parse_exec_params stmt.num_params nulls types v h)
  where
    by_result :
        (r : Result ParseError (List Param))
        → ((out : List Param) → r ≡ ok out → IsValid (executed m stmt out))
        → Keeps (elim r [
          | ok params ↦ some (executed m stmt params)
          | err e ↦ some (set m unknown)
          | panic ↦ none
        ])
    by_result (ok out) h = h out refl
    by_result (err e) h = unknown-IsValid m c
    by_result panic h = tt

execute_first-Keeps :
    (spare : Bytes) (m : Fsm) (id : ℕ) (stmt : Stmt) (nulls s : Bytes)
    → Core m
    → stmt.id ≡ id
    → 1 + 2 * stmt.num_params ≤ length s
    → Keeps (execute_first spare m id stmt nulls (split_types (2 * stmt.num_params) s))
unfolding execute_first split_types
execute_first-Keeps spare m id stmt nulls s c same enough =
    let types = take (2 * stmt.num_params) (drop 1 s) in
    let typed = record stmt { types = some types } in
    rw (le→leb _ _ enough) (
      execute_values-Keeps (record m { stmts = insert id typed m.stmts }) typed nulls types _
        (record {
          numbered = c.numbered;
          table =
              All-insert IsEntry id typed m.stmts
                (same, omega (arith, length-take (2 * stmt.num_params) (drop 1 s), length-drop 1 s))
                c.table;
        }))

execute_again-Keeps :
    (spare : Bytes) (m : Fsm) (stmt : Stmt) (nulls s : Bytes)
    → Core m
    → Keeps (execute_again spare m stmt nulls s)
unfolding execute_again
execute_again-Keeps spare m stmt nulls s c = known stmt.types
  where
    known :
        (o : Option Bytes)
        → Keeps (elim o [
          | none ↦ some (set m unknown)
          | some types ↦ elim (tail_of s) [
            | none ↦ none
            | some values ↦
                execute_values m stmt nulls types (record { text = values; spare = spare })
          ]
        ])
    known none = unknown-IsValid m c
    known (some old) = tail-Keeps (tail_of s) _ λ values. execute_values-Keeps m stmt nulls old _ c

execute_typed-Keeps :
    (spare : Bytes) (m : Fsm) (id : ℕ) (stmt : Stmt) (nulls s : Bytes)
    → Core m
    → stmt.id ≡ id
    → 1 + 2 * stmt.num_params ≤ length s
    → Keeps (execute_typed spare m id stmt nulls s)
unfolding execute_typed
execute_typed-Keeps spare m id stmt nulls s c same enough = byte (get_elem? s 0)
  where
    byte :
        (o : Option ℕ)
        → Keeps (elim o [
          | none ↦ none
          | some b ↦
              if b == 1
              then execute_first spare m id stmt nulls (split_types (2 * stmt.num_params) s)
              else execute_again spare m stmt nulls s
        ])
    byte none = tt
    byte (some b) =
        if-Keeps (b == 1) _ _ (execute_first-Keeps spare m id stmt nulls s c same enough)
          (execute_again-Keeps spare m stmt nulls s c)

execute_params-Keeps :
    (spare : Bytes) (m : Fsm) (id : ℕ) (stmt : Stmt) (s : Bytes)
    → Core m
    → stmt.id ≡ id
    → Keeps (execute_params spare m id stmt s)
unfolding execute_params
execute_params-Keeps spare m id stmt s c same =
    attempt-Keeps m (read_bytes_n s (pos ((stmt.num_params + 7) / 8))) _ c λ r.
      elim (Bool-cases (ltb (length r.1) (1 + 2 * stmt.num_params))) [
        | inl e ↦ rw e (unknown-IsValid m c)
        | inr e ↦ rw e (execute_typed-Keeps spare m id stmt r.0 r.1 c same (ground arith))
      ]

execute_stmt-Keeps :
    (spare : Bytes) (m : Fsm) (id : ℕ) (s : Bytes) (o : Option Stmt)
    → Core m
    → lookup id m.stmts ≡ o
    → Keeps (execute_stmt spare m id s o)
unfolding execute_stmt
execute_stmt-Keeps spare m id s none c e = unknown-IsValid m c
execute_stmt-Keeps spare m id s (some stmt) c e = attempt-Keeps m (read_bytes_n s (pos 5)) _ c λ r.
    elim (Bool-cases (ltb 0 stmt.num_params)) [
      | inl p ↦ rw p (
          execute_params-Keeps spare m id stmt r.1 c
            (All-lookup IsEntry id stmt m.stmts c.table e).0)
      | inr p ↦ rw p (executed-IsValid m stmt [] c (ground arith))
    ]

handle_com_stmt_execute-Keeps :
    (spare : Bytes) (m : Fsm) → Core m → Keeps (handle_com_stmt_execute spare m)
unfolding handle_com_stmt_execute
handle_com_stmt_execute-Keeps spare m c = tail-Keeps (tail_of m.buffer) _ λ s.
    attempt-Keeps m (read_uint32 s) _ c
      λ r. execute_stmt-Keeps spare m r.0 r.1 (lookup r.0 m.stmts) c refl

handle_com_stmt_close-Keeps : (m : Fsm) → Core m → Keeps (handle_com_stmt_close m)
unfolding handle_com_stmt_close
handle_com_stmt_close-Keeps m c = tail-Keeps (tail_of m.buffer) _ λ s.
    attempt-Keeps m (read_uint32 s) _ c λ r.
      set-IsValid _ com_stmt_close_state
        (record { numbered = c.numbered; table = All-erase IsEntry r.0 m.stmts c.table }) tt tt

handle_com_stmt_prepare_request-Keeps :
    (m : Fsm) → Core m → Keeps (handle_com_stmt_prepare_request m)
unfolding handle_com_stmt_prepare_request
handle_com_stmt_prepare_request-Keeps m c = tail-Keeps (tail_of m.buffer) _ λ q.
    set-IsValid (record m { stmt = record no_stmt { query = q } }) com_stmt_prepare0
      (record { numbered = c.numbered; table = c.table }) refl tt

prepare_ok-Keeps : (m : Fsm) (s : Bytes) → Core m → m.stmt.types ≡ none → Keeps (prepare_ok m s)
unfolding prepare_ok
prepare_ok-Keeps m s c fresh = attempt-Keeps m (read_uint32 s) _ c λ id.
    attempt-Keeps m (read_uint16 id.1) _ c λ columns.
      attempt-Keeps m (read_uint16 columns.1) _ c λ params.
        let stmt = record m.stmt { id = id.0; num_params = params.0 } in
        set-IsValid (record m { stmt = stmt; stmts = insert id.0 stmt m.stmts }) com_stmt_prepare1
          (record {
            numbered = c.numbered;
            table = All-insert IsEntry id.0 stmt m.stmts (refl, rw fresh tt) c.table;
          })
          tt tt

pub handle_com_stmt_prepare_response-Keeps :
    (m : Fsm) → Core m → m.stmt.types ≡ none → Keeps (handle_com_stmt_prepare_response m)
unfolding handle_com_stmt_prepare_response
handle_com_stmt_prepare_response-Keeps m old fresh =
    let c = load-Core 1 m old in
    let m' = (load 1 m).0 in
    if-Keeps (not (load 1 m).1) _ _ (unknown-IsValid m' c) (
      if-Keeps (not (assert_dir m' server_to_client)) _ _ (unknown-IsValid m' c) (
        if-Keeps (not (assert_data_byte m' 0 0)) _ _ (unknown-IsValid m' c) (
          tail-Keeps (tail_of m'.buffer) _
            λ s. prepare_ok-Keeps m' s c (rw (load-stmt 1 m) fresh))))

is_handshake_request-Keeps :
    (m : Fsm)
    → Core m
    → Keeps (elim (is_handshake_request m) [
      | none ↦ none
      | some b ↦ if b then some (set m handshake0) else some (set m unknown)
    ])
is_handshake_request-Keeps m c = elim (Option-cases (is_handshake_request m)) [
  | inl e ↦ rw e tt
  | inr (b, e) ↦ rw e (if-Keeps b _ _ (set-IsValid m handshake0 c tt tt) (unknown-IsValid m c))
]

pub handle_command-Keeps : (spare : Bytes) (m : Fsm) → Core m → Keeps (handle_command spare m)
unfolding handle_command
handle_command-Keeps spare m c =
    if-Keeps (is_client_command m com_query) _ _ (handle_com_query-Keeps m c) (
      if-Keeps (is_client_command m com_stmt_execute) _ _ (handle_com_stmt_execute-Keeps spare m c)
        (if-Keeps (is_client_command m com_stmt_prepare) _ _
          (handle_com_stmt_prepare_request-Keeps m c)
          (if-Keeps (is_client_command m com_stmt_close) _ _ (handle_com_stmt_close-Keeps m c) (
            if-Keeps (is_client_command m com_quit) _ _ (set-IsValid m com_quit_state c tt tt)
              (is_handshake_request-Keeps m c)))))
