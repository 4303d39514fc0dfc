-- ===== src/Stream/Events/Flows.antt =====
-- stream/event.go: whole commands, `COM_QUERY`, `COM_STMT_CLOSE` and `COM_QUIT`, and their events.
use mysql_replay.Base.{
  Option, none, ℕ, Bool, true, false, List, [], ◌∷◌, ◌++◌, some, ◌≡◌, ◌≢◌, refl, arith, Bytes,
  length, ◌==◌, lt→ltb,
}
use mysql_replay.Base.Int.{ℤ}
use mysql_replay.Base.Map.{lookup, erase, nat_eq}
use mysql_replay.Event.Types.{event_query, event_quit, event_stmt_close}
use mysql_replay.Stream.Events.Command.{with_command, end_time, end_spare, Sizes, feed-command}
use mysql_replay.Stream.Events.Feed.{feed}
use mysql_replay.Stream.Events.{to_millis, empty_event, event_of, emitted, appended, EventHandler}
use mysql_replay.Stream.Fsm.Invariant.{Consecutive}
use mysql_replay.Stream.Fsm.Load.{IsCommand, last, full}
use mysql_replay.Stream.Fsm.Machine.{
  com_query_state, com_stmt_close_state, com_quit_state, Stmt, Fsm, set, ready, short, last_packet,
  joined, tail_of, assert_dir, assert_data_byte,
}
use mysql_replay.Stream.Fsm.{
  stmt_or_zero, handle_command, handle_com_query, handle_com_stmt_close, is_client_command,
}
use mysql_replay.Stream.Packet.{
  MysqlPacket, client_to_server, com_query, com_stmt_close, com_quit, com_stmt_execute,
  com_stmt_prepare,
}
use mysql_replay.Stream.Reader.{little_endian}
use mysql_replay.Stream.Reader.Laws.{read_uint32-append}

-- The packets of a command of the client, numbered from 0, of the sizes that the protocol allows, and
-- their data.
pub record IsClientCommand (c : List MysqlPacket) (text : Bytes) : Type 0 where
  pub command : IsCommand c
  pub sizes : Sizes c
  pub numbered : Consecutive 0 c
  pub from_client :
      (p : MysqlPacket) × (ps : List MysqlPacket) × (c ≡ p ∷ ps) × (p.dir ≡ client_to_server)
  pub reads : joined c ≡ text

pub short-last_packet :
    {c : List MysqlPacket} → IsCommand c → Sizes c → short (last_packet c) ≡ true
short-last_packet (last p h) s = lt→ltb _ _ (omega (arith, s.0, h))
short-last_packet (full p h (last q g)) s = short-last_packet (last q g) s.1
short-last_packet (full p h (full q g c)) s = short-last_packet (full q g c) s.1

ready-with_command :
    (changed : Bool) (m : Fsm) {c : List MysqlPacket}
    → IsCommand c
    → Sizes c
    → ready (with_command changed m c) ≡ true
unfolding ready
ready-with_command changed m h s = short-last_packet h s

pub is_client_command-with_command :
    (changed : Bool) (m : Fsm) {c : List MysqlPacket} {b : ℕ} {q : Bytes} (k : ℕ)
    → IsClientCommand c (b ∷ q)
    → is_client_command (with_command changed m c) k ≡ (b == k)
unfolding assert_dir assert_data_byte is_client_command
is_client_command-with_command changed m k h =
    let (p, ps, e, d) = h.from_client in
    rw (is_client_command, assert_dir, assert_data_byte, h.reads, e, d) refl

pub tail_of-cons : (s : Bytes) {b : ℕ} {q : Bytes} → s ≡ b ∷ q → tail_of s ≡ some q
tail_of-cons s e = rw e refl

module _ (spares : ℕ → Bytes) (h : EventHandler) {c : List MysqlPacket} (t : ℤ) where
  -- Behind a command that the machine has handled, with a change of state, the state's event is added.
  pub feed-handled :
      {text : Bytes} (m : Fsm)
      → h.fsm.state ≢ com_quit_state
      → IsClientCommand c text
      → ((changed : Bool)
          → handle_command (end_spare spares c) (with_command changed h.fsm c) ≡ some m)
      → m.changed ≡ true
      → m.packets ≡ c
      → feed spares h c
        ≡ some (record {
          fsm = m;
          events = appended h.events (event_of m.state (to_millis (end_time t c)) m);
        })
  unfolding emitted ready
  feed-handled m running k handled changes same =
      let (changed, e) = feed-command spares h t running k.command k.sizes k.numbered in
      rw (e, handled changed, emitted, ready, same, short-last_packet k.command k.sizes, changes)
        refl

  -- A session has not quit. The packets of a query, one or more, give one event: the query's text, whole, at
  -- the time of the last packet. The table of statements stays.
  pub feed-com_query :
      (q : Bytes)
      → h.fsm.state ≢ com_quit_state
      → IsClientCommand c (com_query ∷ q)
      → (m : Fsm) × (feed spares h c
          ≡ some (record {
            fsm = m;
            events =
                h.events
                ++ record (empty_event (to_millis (end_time t c)) event_query) { query = q } ∷ [];
          }))
        × (m.state ≡ com_query_state)
        × (m.stmts ≡ h.fsm.stmts)
  unfolding handle_command handle_com_query event_of set
  feed-com_query q running k =
      let m = set (record (with_command false h.fsm c) { query = q }) com_query_state in
      (
        m,
        feed-handled m running k
            (λ changed.
              rw
                (
                  handle_command,
                  is_client_command-with_command changed h.fsm com_query k,
                  handle_com_query,
                  tail_of-cons (joined c) k.reads,
                )
                refl)
            refl refl,
        refl,
        refl,
      )

  feed-close :
      (id rest : Bytes) (o : Option Stmt)
      → h.fsm.state ≢ com_quit_state
      → length id ≡ 4
      → IsClientCommand c (com_stmt_close ∷ id ++ rest)
      → lookup (little_endian id) h.fsm.stmts ≡ o
      → (m : Fsm) × (feed spares h c
          ≡ some (record {
            fsm = m;
            events =
                h.events
                ++ record (empty_event (to_millis (end_time t c)) event_stmt_close) {
                  stmt_id = (stmt_or_zero o).id;
                }
                  ∷ [];
          }))
        × (m.state ≡ com_stmt_close_state)
        × (m.stmts ≡ erase (little_endian id) h.fsm.stmts)
  unfolding handle_command handle_com_stmt_close event_of set
  feed-close id rest o running size k known =
      let m =
        set
          (record (with_command false h.fsm c) {
            stmt = stmt_or_zero o;
            stmts = erase (little_endian id) h.fsm.stmts;
          })
          com_stmt_close_state in
      (
        m,
        feed-handled m running k
            (λ changed.
              rw
                (
                  handle_command,
                  is_client_command-with_command changed h.fsm com_query k,
                  is_client_command-with_command changed h.fsm com_stmt_execute k,
                  is_client_command-with_command changed h.fsm com_stmt_prepare k,
                  is_client_command-with_command changed h.fsm com_stmt_close k,
                  handle_com_stmt_close,
                  tail_of-cons (joined c) k.reads,
                  read_uint32-append id rest size,
                  known,
                )
                refl)
            refl refl,
        refl,
        refl,
      )

  -- A session has not quit. A close command whose four bytes of id are those of a statement of the table
  -- gives one event with that statement's id, and takes the statement out of the table.
  pub feed-com_stmt_close :
      (id rest : Bytes) (s : Stmt)
      → h.fsm.state ≢ com_quit_state
      → length id ≡ 4
      → IsClientCommand c (com_stmt_close ∷ id ++ rest)
      → lookup (little_endian id) h.fsm.stmts ≡ some s
      → (m : Fsm) × (feed spares h c
          ≡ some (record {
            fsm = m;
            events =
                h.events
                ++ record (empty_event (to_millis (end_time t c)) event_stmt_close) {
                  stmt_id = s.id;
                }
                  ∷ [];
          }))
        × (m.state ≡ com_stmt_close_state)
        × (m.stmts ≡ erase (little_endian id) h.fsm.stmts)
  feed-com_stmt_close id rest s = feed-close id rest (some s)

  -- A session has not quit. A close command whose four bytes of id are of no statement of the table gives one
  -- event with the statement id 0, whatever those bytes are.
  pub feed-com_stmt_close_unknown :
      (id rest : Bytes)
      → h.fsm.state ≢ com_quit_state
      → length id ≡ 4
      → IsClientCommand c (com_stmt_close ∷ id ++ rest)
      → lookup (little_endian id) h.fsm.stmts ≡ none
      → (m : Fsm) × (feed spares h c
          ≡ some (record {
            fsm = m;
            events =
                h.events
                ++ record (empty_event (to_millis (end_time t c)) event_stmt_close) { stmt_id = 0 }
                  ∷ [];
          }))
        × (m.state ≡ com_stmt_close_state)
        × (m.stmts ≡ erase (little_endian id) h.fsm.stmts)
  feed-com_stmt_close_unknown id rest = feed-close id rest none

  -- A session has not quit. A quit command gives one event.
  pub feed-com_quit :
      h.fsm.state ≢ com_quit_state
      → (rest : Bytes) → IsClientCommand c (com_quit ∷ rest)
      → (m : Fsm) × (feed spares h c
          ≡ some (record {
            fsm = m;
            events = h.events ++ empty_event (to_millis (end_time t c)) event_quit ∷ [];
          }))
        × (m.state ≡ com_quit_state)
  unfolding handle_command event_of set
  feed-com_quit running rest k =
      let m = set (with_command false h.fsm c) com_quit_state in
      (
        m,
        feed-handled m running k
            (λ changed.
              rw
                (
                  handle_command,
                  is_client_command-with_command changed h.fsm com_query k,
                  is_client_command-with_command changed h.fsm com_stmt_execute k,
                  is_client_command-with_command changed h.fsm com_stmt_prepare k,
                  is_client_command-with_command changed h.fsm com_stmt_close k,
                  is_client_command-with_command changed h.fsm com_quit k,
                )
                refl)
            refl refl,
        refl,
      )
