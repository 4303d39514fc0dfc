-- ===== src/Stream/Fsm/Panics.antt =====
-- stream/mysql.go: panics of `Handle`.
use mysql_replay.Base.{
  ℕ, true, false, not, [], ◌∷◌, ◌++◌, none, some, ◌≡◌, ◌≢◌, inl, inr, refl, Bytes, length,
  get_elem?, ltb, ◌==◌, Bool-cases, if◌then◌else◌, ◌≤◌, ◌||◌, arith, Option-cases,
}
use mysql_replay.Base.Map.{lookup, nat_eq}
use mysql_replay.Stream.Fsm.Machine.{
  State, init, unknown, com_query_state, com_stmt_execute_state, com_stmt_close_state,
  com_stmt_prepare0, com_stmt_prepare1, com_quit_state, handshake0, handshake1, code, Fsm, set,
  load, ready, next_seq, assert_dir, assert_data_byte, byte_is,
}
use mysql_replay.Stream.Fsm.{
  is_client_command, is_handshake_request, handle_com_query, handle_com_stmt_execute,
  handle_com_stmt_close, handle_com_stmt_prepare_request, prepare_ok,
  handle_com_stmt_prepare_response, handle_command, handle_init_packet, handle_ready,
  handle_appended, handle,
}
use mysql_replay.Stream.Fsm.Returns.{
  Returns, attempt-Returns, if-Returns, tail-Returns, execute_stmt-Returns,
}
use mysql_replay.Stream.Packet.{
  MysqlPacket, client_to_server, server_to_client, com_query, com_stmt_execute, com_stmt_prepare,
  com_stmt_close, com_quit, handshake_v9, handshake_v10,
}
use mysql_replay.Stream.Reader.Laws.{read_uint16-Calm, read_uint32-Calm}
use mysql_replay.Stream.Reader.{read_uint16, read_uint32}

first_byte : (s : Bytes) → 1 ≤ length s → get_elem? s 0 ≢ none
first_byte [] h e = absurd (omega (arith, h))
first_byte (b ∷ s) h e = absurd cc

-- Behind the test of the length there is a first byte.
is_handshake_request-Returns :
    (m : Fsm)
    → Returns (elim (is_handshake_request m) [
      | none ↦ none
      | some b ↦ if b then some (set m handshake0) else some (set m unknown)
    ])
unfolding is_handshake_request
is_handshake_request-Returns m = elim (Bool-cases (not (assert_dir m server_to_client))) [
  | inl d ↦ rw d tt
  | inr d ↦ elim (Bool-cases (ltb (length m.buffer) 6)) [
    | inl short ↦ rw (d, short) tt
    | inr long ↦ elim (Option-cases (get_elem? m.buffer 0)) [
      | inl e ↦ absurd (first_byte m.buffer (ground arith) e)
      | inr (b, e) ↦
          rw (d, long, e) (if-Returns (b == handshake_v9 || b == handshake_v10) _ _ (λ v. tt) tt)
    ]
  ]
]

-- The command byte is there.
command_byte :
    (m : Fsm) (cmd : ℕ) → is_client_command m cmd ≡ true → byte_is cmd (get_elem? m.buffer 0) ≡ true
unfolding assert_data_byte is_client_command
command_byte m cmd e = elim (Bool-cases (assert_dir m client_to_server)) [
  | inl d ↦ cc (rw d at e)
  | inr d ↦ absurd (cc (rw d at e))
]

handle_command-Returns : (spare : Bytes) (m : Fsm) → Returns (handle_command spare m)
unfolding handle_command handle_com_query handle_com_stmt_execute handle_com_stmt_prepare_request
    handle_com_stmt_close
handle_command-Returns spare m =
    if-Returns (is_client_command m com_query) _ _
      (λ e. tail-Returns m.buffer com_query _ (command_byte m com_query e) λ q. tt)
      (if-Returns (is_client_command m com_stmt_execute) _ _
        (λ e. tail-Returns m.buffer com_stmt_execute _ (command_byte m com_stmt_execute e) λ s.
          attempt-Returns m (read_uint32 s) _ (read_uint32-Calm s)
            λ r. execute_stmt-Returns spare m r.0 r.1 (lookup r.0 m.stmts))
        (if-Returns (is_client_command m com_stmt_prepare) _ _
          (λ e.
            tail-Returns m.buffer com_stmt_prepare _ (command_byte m com_stmt_prepare e) λ q. tt)
          (if-Returns (is_client_command m com_stmt_close) _ _
            (λ e.
              tail-Returns m.buffer com_stmt_close _ (command_byte m com_stmt_close e)
                λ s. attempt-Returns m (read_uint32 s) _ (read_uint32-Calm s) λ r. tt)
            (if-Returns (is_client_command m com_quit) _ _ (λ e. tt)
              (is_handshake_request-Returns m)))))

prepare_ok-Returns : (m : Fsm) (s : Bytes) → Returns (prepare_ok m s)
unfolding prepare_ok
prepare_ok-Returns m s = attempt-Returns m (read_uint32 s) _ (read_uint32-Calm s) λ id.
    attempt-Returns m (read_uint16 id.1) _ (read_uint16-Calm id.1) λ columns.
      attempt-Returns m (read_uint16 columns.1) _ (read_uint16-Calm columns.1) λ params. tt

handle_com_stmt_prepare_response-Returns : (m : Fsm) → Returns (handle_com_stmt_prepare_response m)
unfolding handle_com_stmt_prepare_response assert_data_byte
handle_com_stmt_prepare_response-Returns m =
    let m' = (load 1 m).0 in
    if-Returns (not (load 1 m).1) _ _ (λ e. tt)
      (if-Returns (not (assert_dir m' server_to_client)) _ _ (λ e. tt)
        (elim (Bool-cases (byte_is 0 (get_elem? m'.buffer 0))) [
          | inl e ↦ rw e (tail-Returns m'.buffer 0 _ e λ s. prepare_ok-Returns m' s)
          | inr e ↦ rw e tt
        ]))

handle_ready-Returns :
    (spare : Bytes) (s : State) (m : Fsm) → s ≢ handshake0 → Returns (handle_ready spare s m)
unfolding handle_ready handle_init_packet
handle_ready-Returns spare init m e =
    if-Returns (not (load 0 m).1) _ _ (λ e. tt) (handle_command-Returns spare (load 0 m).0)
handle_ready-Returns spare com_stmt_prepare0 m e = handle_com_stmt_prepare_response-Returns m
handle_ready-Returns spare handshake0 m e = absurd (e refl)
handle_ready-Returns spare unknown m e = tt
handle_ready-Returns spare com_query_state m e = tt
handle_ready-Returns spare com_stmt_execute_state m e = tt
handle_ready-Returns spare com_stmt_close_state m e = tt
handle_ready-Returns spare com_stmt_prepare1 m e = tt
handle_ready-Returns spare com_quit_state m e = tt
handle_ready-Returns spare handshake1 m e = tt

handle_appended-Returns :
    (spare : Bytes) (m : Fsm) → m.state ≢ handshake0 → Returns (handle_appended spare m)
unfolding handle_appended
handle_appended-Returns spare m e =
    if-Returns (not (ready m)) _ _ (λ f. tt) (handle_ready-Returns spare m.state m e)

-- `Handle` does not panic, whatever the packet, unless the machine waits for the response to a
-- handshake.
pub handle-Returns :
    (spare : Bytes) (m : Fsm) (pkt : MysqlPacket)
    → m.state ≢ handshake0
    → Returns (handle spare m pkt)
unfolding handle set
handle-Returns spare m pkt e =
    if-Returns (code m.state == code com_quit_state) _ _ (λ quit. tt)
      (if-Returns (pkt.seq == 0) _ _
        (λ first.
          handle_appended-Returns spare
            (record (set (record m { changed = false }) init) { packets = pkt ∷ [] }) (λ q. cc))
        (if-Returns (next_seq (record m { changed = false }) == pkt.seq) _ _
          (λ next.
            handle_appended-Returns spare
              (record m { changed = false; packets = m.packets ++ pkt ∷ [] }) e)
          tt))
