-- ===== src/Stream/Events/Prepare.antt =====
-- stream/event.go: a prepare request with its response, and the event.
use mysql_replay.Base.{
  ℕ, ◌+◌, ◌<◌, true, false, [], ◌∷◌, ◌++◌, append-nil, none, some, ◌≡◌, ◌≢◌, ◌∙◌, sym, refl, arith,
  Bytes, length, lt→ltb, ltb→lt,
}
use mysql_replay.Base.Map.{insert, nat_eq}
use mysql_replay.Event.Types.{event_stmt_prepare}
use mysql_replay.Stream.Events.Command.{with_command, handle-next}
use mysql_replay.Stream.Events.Feed.{feed, feed-cons, feed-last, next_seq-append, on_packet-finish}
use mysql_replay.Stream.Events.Flows.{
  IsClientCommand, short-last_packet, feed-handled, tail_of-cons, is_client_command-with_command,
}
use mysql_replay.Stream.Events.{to_millis, empty_event, event_of, emitted, EventHandler}
use mysql_replay.Stream.Fsm.Load.{last, no_more, more, load-found}
use mysql_replay.Stream.Fsm.Machine.{
  com_stmt_prepare0, com_stmt_prepare1, com_quit_state, Fsm, set, ready, assert_dir,
  assert_data_byte,
}
use mysql_replay.Stream.Fsm.{
  handle, handle_appended, handle_ready, handle_command, no_stmt, handle_com_stmt_prepare_request,
  handle_com_stmt_prepare_response, prepare_ok,
}
use mysql_replay.Stream.Packet.{
  MysqlPacket, server_to_client, max_packet_size, com_query, com_stmt_prepare, com_stmt_execute,
}
use mysql_replay.Stream.Reader.Laws.{read_uint16-append, read_uint32-append}
use mysql_replay.Stream.Reader.{little_endian}

-- The numbers of an OK response.
pub record IsPrepareOk (r : MysqlPacket) (id params : Bytes) : Type 0 where
  pub columns : Bytes
  pub rest : Bytes
  pub from_server : r.dir ≡ server_to_client
  pub small : r.len < max_packet_size
  pub second : r.seq ≡ 1
  pub id_size : length id ≡ 4
  pub columns_size : length columns ≡ 2
  pub params_size : length params ≡ 2
  pub reads : r.data_bytes ≡ 0 ∷ id ++ (columns ++ (params ++ rest))

-- The machine after the numbers of a response.
registered : Fsm → Bytes → Bytes → Fsm
registered m id params =
    let stmt = record m.stmt { id = little_endian id; num_params = little_endian params } in
    set (record m { stmt = stmt; stmts = insert (little_endian id) stmt m.stmts }) com_stmt_prepare1

prepare_ok-reads :
    (m : Fsm) (id columns params rest : Bytes)
    → length id ≡ 4
    → length columns ≡ 2
    → length params ≡ 2
    → prepare_ok m (id ++ (columns ++ (params ++ rest))) ≡ some (registered m id params)
unfolding prepare_ok registered
prepare_ok-reads m id columns params rest i c p =
    rw
      (
        read_uint32-append id (columns ++ (params ++ rest)) i,
        read_uint16-append columns (params ++ rest) c,
        read_uint16-append params rest p,
      )
      refl

-- The machine that has loaded the response `r`.
with_response : Fsm → MysqlPacket → Fsm
with_response m r = record m { buffer = r.data_bytes ++ []; start = 1; count = 1 }

response :
    (m : Fsm) (p r : MysqlPacket) {id params : Bytes}
    → m.packets ≡ p ∷ r ∷ []
    → p.len < max_packet_size
    → IsPrepareOk r id params
    → handle_com_stmt_prepare_response m ≡ some (registered (with_response m r) id params)
unfolding handle_com_stmt_prepare_response assert_dir assert_data_byte with_response
response m p r {id} {params} e short k =
    let found =
      load-found m [] (more (last p (λ q. omega arith)) no_more)
        (last r (λ q. omega (arith, k.small))) e in
    let text = append-nil r.data_bytes ∙ k.reads in
    let m' = with_response m r in
    let dir : assert_dir m' server_to_client ≡ true = rw (assert_dir, e, k.from_server) refl in
    let byte : assert_data_byte m' 0 0 ≡ true = rw (assert_data_byte, text) refl in
    rw (found, dir, byte, tail_of-cons (r.data_bytes ++ []) text, found)
      (prepare_ok-reads m' id k.columns params k.rest k.id_size k.columns_size k.params_size)

handle_appended-response :
    (spare : Bytes) (m : Fsm) (p r : MysqlPacket)
    → m.packets ≡ p ∷ r ∷ []
    → m.state ≡ com_stmt_prepare0
    → r.len < max_packet_size
    → handle_appended spare m ≡ handle_com_stmt_prepare_response m
unfolding handle_appended ready handle_ready
handle_appended-response spare m p r e s size = rw (e, lt→ltb _ _ size, s) refl

module _ (spares : ℕ → Bytes) (h : EventHandler) (p r : MysqlPacket) {id params : Bytes} where
  -- A session has not quit. A prepare request in one packet, and an OK response in the next packet: the
  -- request gives no event, the response one, with the response's id and the request's query; and the
  -- table has the statement under that id, with the response's number of parameters and no types.
  pub feed-com_stmt_prepare :
      (q : Bytes)
      → h.fsm.state ≢ com_quit_state
      → IsClientCommand (p ∷ []) (com_stmt_prepare ∷ q)
      → IsPrepareOk r id params
      → (m : Fsm) × (feed spares h (p ∷ r ∷ [])
          ≡ some (record {
            fsm = m;
            events =
                h.events
                ++ record (empty_event (to_millis r.time) event_stmt_prepare) {
                  stmt_id = little_endian id;
                  query = q;
                }
                  ∷ [];
          }))
        × (m.state ≡ com_stmt_prepare1)
        × (m.stmts
            ≡ insert
                (little_endian id)
                (record {
                  id = little_endian id;
                  query = q;
                  num_params = little_endian params;
                  types = none;
                })
                h.fsm.stmts)
  unfolding emitted ready set registered with_response event_of handle_command
      handle_com_stmt_prepare_request
  feed-com_stmt_prepare q running k ok =
      let m1 =
        set (record (with_command false h.fsm (p ∷ [])) { stmt = record no_stmt { query = q } })
          com_stmt_prepare0 in
      let requested =
        feed-handled spares h p.time m1 running k
          (λ changed.
            rw
              (
                handle_command,
                is_client_command-with_command changed h.fsm com_query k,
                is_client_command-with_command changed h.fsm com_stmt_execute k,
                is_client_command-with_command changed h.fsm com_stmt_prepare k,
                handle_com_stmt_prepare_request,
                tail_of-cons (p.data_bytes ++ []) k.reads,
              )
              refl)
          refl refl in
      let first = on_packet-finish (spares 0) h p ∙ sym (feed-last spares h p) ∙ requested in
      let m2 = record m1 { changed = false; packets = p ∷ r ∷ [] } in
      let m3 = registered (with_response m2 r) id params in
      let second : handle (spares 1) m1 r ≡ some m3 =
        handle-next (spares 1) m1 r (λ q. cc) (λ q. omega (arith, ok.second))
          (next_seq-append m1 [] p refl
            ∙ (let z : p.seq + 1 ≡ r.seq = omega (arith, k.numbered.0, ok.second) in z))
        ∙ (handle_appended-response (spares 1) m2 p r refl refl ok.small
            ∙ response m2 p r refl (ltb→lt _ _ (short-last_packet k.command k.sizes)) ok) in
      (
        m3,
        rw
            (
              feed-cons spares h (record { fsm = m1; events = h.events }) p (r ∷ []) first,
              feed-last (λ n. spares (n + 1)) (record { fsm = m1; events = h.events }) r,
              second,
              emitted,
              ready,
              lt→ltb _ _ ok.small,
            )
            refl,
        refl,
        refl,
      )
