-- ===== src/Stream/Tests.antt =====
-- Packets at which the theorems on stream/ are applied.
mod Execute
mod Handshake
mod ConnId
mod Reassembly
use mysql_replay.Base.{
  ℕ, ◌+◌, ◌*◌, ◌/◌, ◌≤◌, ◌<◌, ◌≡◌, ◌≢◌, ◌↔◌, refl, arith, true, false, List, [], ◌∷◌, ◌++◌, Option,
  some, none, Bytes, codes, length, append-nil,
}
use mysql_replay.Base.Int.{ℤ, pos, negsuc}
use mysql_replay.Base.Map.{lookup, insert, erase, nat_eq}
use mysql_replay.Base.Result.{ok}
use mysql_replay.Event.Types.{
  Param, nil, i64, u64, MysqlEvent, event_query, event_quit, event_stmt_prepare, event_stmt_execute,
  event_stmt_close,
}
use mysql_replay.Stream.Events.Command.{end_time, end_spare, Sizes}
use mysql_replay.Stream.Events.Feed.{feed}
use mysql_replay.Stream.Events.Execute.{
  IsExecution, feed-execute_typed, feed-execute_again, feed-execute_short,
}
use mysql_replay.Stream.Events.Flows.{
  IsClientCommand, feed-com_query, feed-com_stmt_close, feed-com_stmt_close_unknown, feed-com_quit,
}
use mysql_replay.Stream.Events.Ignored.{feed-after_quit, on_packet-out_of_order}
use mysql_replay.Stream.Events.Prepare.{IsPrepareOk, feed-com_stmt_prepare}
use mysql_replay.Stream.Events.{to_millis, empty_event, EventHandler, on_packet}
use mysql_replay.Stream.Fsm.Invariant.Step.{Reaches, done, step, Reachable-IsValid}
use mysql_replay.Stream.Fsm.Invariant.{IsValid}
use mysql_replay.Stream.Fsm.Load.{
  IsCommand, last, full, IsCommands, no_more, more, CommandAt, load-found, load_iff,
}
use mysql_replay.Stream.Fsm.Machine.{
  com_query_state, com_stmt_execute_state, com_stmt_close_state, com_stmt_prepare1, com_quit_state,
  unknown, Stmt, Fsm, new_mysql_fsm, joined, load, next_seq, set, ready, find_command, skip_full,
  assert_dir, assert_data_byte,
}
use mysql_replay.Stream.Fsm.Panics.{handle-Returns}
use mysql_replay.Stream.Fsm.Returns.{Returns}
use mysql_replay.Stream.Fsm.{
  handle, handle_appended, handle_ready, handle_init_packet, handle_command, handle_com_query,
  is_client_command,
}
use mysql_replay.Stream.Packet.{
  client_to_server, server_to_client, MysqlPacket, max_packet_size, com_query, com_stmt_prepare,
  com_stmt_execute, com_stmt_close, com_quit,
}
use mysql_replay.Stream.Params.Temporal.{Values, le_at}
use mysql_replay.Stream.Params.{parse_exec_params, parse_params, parse_value, parse_integer}
use mysql_replay.Stream.Reader.LenEnc.{Agree, Agree-two}
use mysql_replay.Stream.Reader.{little_endian}

-- A packet of the client, at a second of its own.
abbrev pub sent : ℕ → ℕ → Bytes → MysqlPacket
sent len seq s = record {
  time = pos (1_000_000_000 * (seq + 1));
  dir = client_to_server;
  len = len;
  seq = seq;
  data_bytes = s;
}

abbrev pub no_spares : ℕ → Bytes
no_spares n = []

-- A statement of one parameter, and a session that knows it.
abbrev pub one_param : Stmt
one_param = record { id = 7; query = codes "select ?"; num_params = 1; types = some (8 ∷ 0 ∷ []) }

abbrev pub session : EventHandler
session = record { fsm = record new_mysql_fsm { stmts = (7, one_param) ∷ [] }; events = [] }

-- A query in two packets.
abbrev query_packets : List MysqlPacket
query_packets = sent max_packet_size 0 (com_query ∷ codes "select ") ∷ sent 1 1 (codes "1") ∷ []

query_packets-IsCommand : IsCommand query_packets
query_packets-IsCommand = full _ refl (last _ (λ e. omega arith))

query_packets-IsClientCommand : IsClientCommand query_packets (com_query ∷ codes "select 1")
query_packets-IsClientCommand = record {
  command = query_packets-IsCommand;
  sizes = (omega arith, (omega arith, tt));
  numbered = (refl, (refl, tt));
  from_client = (_, _, refl, refl);
  reads = refl;
}

feed-com_query_example :
    (m : Fsm) × (feed no_spares session query_packets
      ≡ some (record {
        fsm = m;
        events = record (empty_event (pos 2000) event_query) { query = codes "select 1" } ∷ [];
      }))
    × (m.state ≡ com_query_state)
    × (m.stmts ≡ (7, one_param) ∷ [])
feed-com_query_example =
    feed-com_query no_spares session (pos 0) (codes "select 1") (λ e. cc)
      query_packets-IsClientCommand

-- A command in one packet.
pub small-IsClientCommand :
    (len : ℕ) (b : ℕ) (s : Bytes)
    → len < max_packet_size
    → IsClientCommand (sent len 0 (b ∷ s) ∷ []) (b ∷ s)
small-IsClientCommand len b s small = record {
  command = last _ (λ e. omega arith);
  sizes = (omega arith, tt);
  numbered = (refl, tt);
  from_client = (_, _, refl, refl);
  reads = append-nil (b ∷ s);
}

feed-com_stmt_close_unknown_example :
    (m : Fsm) × (feed no_spares session (sent 5 0 (com_stmt_close ∷ 8 ∷ 0 ∷ 0 ∷ 0 ∷ []) ∷ [])
      ≡ some (record {
        fsm = m;
        events = record (empty_event (pos 1000) event_stmt_close) { stmt_id = 0 } ∷ [];
      }))
    × (m.state ≡ com_stmt_close_state)
    × (m.stmts ≡ erase 8 session.fsm.stmts)
unfolding lookup
feed-com_stmt_close_unknown_example =
    feed-com_stmt_close_unknown no_spares session (pos 0) (8 ∷ 0 ∷ 0 ∷ 0 ∷ []) [] (λ e. cc) refl
      (small-IsClientCommand 5 com_stmt_close _ (omega arith)) refl

feed-com_stmt_close_example :
    (m : Fsm) × (feed no_spares session (sent 5 0 (com_stmt_close ∷ 7 ∷ 0 ∷ 0 ∷ 0 ∷ []) ∷ [])
      ≡ some (record {
        fsm = m;
        events = record (empty_event (pos 1000) event_stmt_close) { stmt_id = 7 } ∷ [];
      }))
    × (m.state ≡ com_stmt_close_state)
    × (m.stmts ≡ erase 7 session.fsm.stmts)
unfolding lookup
feed-com_stmt_close_example =
    feed-com_stmt_close no_spares session (pos 0) (7 ∷ 0 ∷ 0 ∷ 0 ∷ []) [] one_param (λ e. cc) refl
      (small-IsClientCommand 5 com_stmt_close _ (omega arith)) refl

abbrev prepare_ok_packet : MysqlPacket
prepare_ok_packet = record {
  time = pos 5_000_000;
  dir = server_to_client;
  len = 12;
  seq = 1;
  data_bytes = 0 ∷ 9 ∷ 0 ∷ 0 ∷ 0 ∷ 1 ∷ 0 ∷ 2 ∷ 0 ∷ 0 ∷ 0 ∷ 0 ∷ [];
}

feed-com_stmt_prepare_example :
    (m : Fsm) × (feed no_spares session
        (sent 9 0 (com_stmt_prepare ∷ codes "select ?") ∷ prepare_ok_packet ∷ [])
      ≡ some (record {
        fsm = m;
        events =
            record (empty_event (pos 5) event_stmt_prepare) {
              stmt_id = 9;
              query = codes "select ?";
            }
            ∷ [];
      }))
    × (m.state ≡ com_stmt_prepare1)
    × (m.stmts
        ≡ insert 9
            (record { id = 9; query = codes "select ?"; num_params = 2; types = none })
            session.fsm.stmts)
feed-com_stmt_prepare_example =
    feed-com_stmt_prepare no_spares session (sent 9 0 (com_stmt_prepare ∷ codes "select ?"))
      prepare_ok_packet {id = 9 ∷ 0 ∷ 0 ∷ 0 ∷ []} {params = 2 ∷ 0 ∷ []} (codes "select ?") (λ e. cc)
      (small-IsClientCommand 9 com_stmt_prepare _ (omega arith))
      (record {
        columns = 1 ∷ 0 ∷ [];
        rest = 0 ∷ 0 ∷ 0 ∷ [];
        from_server = refl;
        small = omega arith;
        second = refl;
        id_size = refl;
        columns_size = refl;
        params_size = refl;
        reads = refl;
      })

feed-after_quit_example :
    (m : Fsm) × (feed no_spares
        (record session { fsm = record session.fsm { state = com_quit_state } })
        query_packets
      ≡ some (record { fsm = m; events = [] }))
    × (m.state ≡ com_quit_state)
feed-after_quit_example =
    feed-after_quit no_spares
      (record session { fsm = record session.fsm { state = com_quit_state } }) query_packets refl

on_packet-out_of_order_example :
    on_packet [] session (sent 5 4 (com_query ∷ []))
    ≡ some (record session { fsm = record session.fsm { changed = false } })
unfolding next_seq
on_packet-out_of_order_example =
    on_packet-out_of_order [] session (sent 5 4 (com_query ∷ [])) (λ e. omega arith)
      (λ e. omega arith)

-- The machine behind the packets of the query and a short one.
abbrev loaded_session : Fsm
loaded_session = record session.fsm { packets = query_packets ++ sent 3 2 (codes "abc") ∷ [] }

load-found_example :
    load 2 loaded_session
    ≡ (record loaded_session { buffer = codes "abc"; start = 2; count = 1 }, true)
load-found_example =
    load-found loaded_session [] (more query_packets-IsCommand no_more)
      (last (sent 3 2 (codes "abc")) (λ e. omega arith)) refl

load_iff_example : ((load 1 loaded_session).1 ≡ true) ↔ CommandAt 1 0 loaded_session.packets
load_iff_example = load_iff 1 loaded_session

-- An execution that ends behind its bitmap.
abbrev cut_execution : MysqlPacket
cut_execution = sent 11 0 (com_stmt_execute ∷ 7 ∷ 0 ∷ 0 ∷ 0 ∷ 0 ∷ 1 ∷ 0 ∷ 0 ∷ 0 ∷ 0 ∷ [])

handle-Returns_example : Returns (handle [] session.fsm cut_execution)
handle-Returns_example = handle-Returns [] session.fsm cut_execution (λ e. cc)

Agree-two_example : Agree (0xfc ∷ 1 ∷ 2 ∷ []) ↔ ◌≡◌ {A = ℕ} 1 2
Agree-two_example = Agree-two 1 2 []

-- The machine after a query in one packet.
abbrev after_query : Fsm
after_query = record new_mysql_fsm {
  changed = true;
  state = com_query_state;
  query = codes "select 1";
  buffer = com_query ∷ codes "select 1";
  packets = sent 9 0 (com_query ∷ codes "select 1") ∷ [];
  count = 1;
}

after_query-Reaches :
    Reaches new_mysql_fsm (sent 9 0 (com_query ∷ codes "select 1") ∷ []) after_query
unfolding handle set next_seq ready load find_command skip_full handle_appended handle_ready
    handle_init_packet handle_command is_client_command handle_com_query assert_dir assert_data_byte
after_query-Reaches = step [] refl done

Reachable-IsValid_example : IsValid after_query
Reachable-IsValid_example = Reachable-IsValid _ after_query after_query-Reaches
