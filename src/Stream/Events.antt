-- ===== src/Stream/Events.antt =====
-- stream/event.go: `eventHandler.OnPacket`. The handler's `impl` is the list of the events it is given.
pub mod Command
pub mod Execute
pub mod Feed
pub mod Flows
pub mod Ignored
pub mod Prepare
use mysql_replay.Base.{
  ℕ, zero, suc, ◌/◌, ◌-◌, ◌+◌, Bool, not, ◌||◌, List, [], ◌∷◌, ◌++◌, Option, none, some, Bytes,
  if◌then◌else◌,
}
use mysql_replay.Base.Int.{ℤ, pos, negsuc}
use mysql_replay.Event.Types.{
  MysqlEvent, event_handshake, event_quit, event_query, event_stmt_prepare, event_stmt_execute,
  event_stmt_close,
}
use mysql_replay.Stream.Fsm.Machine.{
  State, init, unknown, com_query_state, com_stmt_execute_state, com_stmt_close_state,
  com_stmt_prepare0, com_stmt_prepare1, com_quit_state, handshake0, handshake1, Fsm, ready,
}
use mysql_replay.Stream.Fsm.{handle}
use mysql_replay.Stream.Packet.{MysqlPacket}

abbrev negated : ℕ → ℤ
negated zero = pos 0
negated (suc k) = negsuc k

-- `t.UnixNano() / int64(time.Millisecond)`: division towards 0.
abbrev pub to_millis : ℤ → ℤ
to_millis (pos n) = pos (n / 1_000_000)
to_millis (negsuc n) = negated ((n + 1) / 1_000_000)

abbrev pub empty_event : ℤ → ℕ → MysqlEvent
empty_event t y = record { time = t; type = y; stmt_id = 0; params = []; db = []; query = [] }

-- The switch on the state.
unfoldable pub event_of : State → ℤ → Fsm → Option MysqlEvent
event_of com_query_state t m = some (record (empty_event t event_query) { query = m.query })
event_of com_stmt_execute_state t m =
    some (record (empty_event t event_stmt_execute) { stmt_id = m.stmt.id; params = m.params })
event_of com_stmt_prepare1 t m =
    some (record (empty_event t event_stmt_prepare) { stmt_id = m.stmt.id; query = m.stmt.query })
event_of com_stmt_close_state t m =
    some (record (empty_event t event_stmt_close) { stmt_id = m.stmt.id })
event_of handshake1 t m = some (record (empty_event t event_handshake) { db = m.schema })
event_of com_quit_state t m = some (empty_event t event_quit)
event_of _ t m = none

-- What `OnPacket` hands to `OnEvent` behind `Handle`.
unfoldable pub emitted : ℤ → Fsm → Option MysqlEvent
unfolding event_of
emitted t m = if not (ready m) || not m.changed then none else event_of m.state t m

abbrev pub appended {ℓ} : {A : Type ℓ} → List A → Option A → List A
appended xs none = xs
appended xs (some x) = xs ++ x ∷ []

-- The handler: its machine, and the events so far.
pub record EventHandler : Type 0 where
  pub fsm : Fsm
  pub events : List MysqlEvent

unfoldable pub on_packet : Bytes → EventHandler → MysqlPacket → Option EventHandler
unfolding emitted
on_packet spare h pkt = elim (handle spare h.fsm pkt) [
  | none ↦ none
  | some m ↦ some (record { fsm = m; events = appended h.events (emitted (to_millis pkt.time) m) })
]
