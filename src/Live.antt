-- ===== src/Live.antt =====
-- stream/packet.go: the handlers that replay a connection while it is read.
pub mod Texts
pub mod Queries
mod Tests
use mysql_replay.Base.{
  ℕ, ◌+◌, ◌-◌, ◌^◌, Bool, true, false, not, ◌&&◌, List, [], ◌∷◌, Option, none, some, Bytes, length,
  if◌then◌else◌, ltb, ◌==◌,
}
use mysql_replay.Play.Driver.{
  Request, open_pool, exec_query, close_pool, Reply, failed, gave, History, Driver,
}
use mysql_replay.Stats.Counter.{Counters, name, queries, conns, err_queries, add}
use mysql_replay.Stream.Fsm.Machine.{Fsm, State, code, com_query_state, new_mysql_fsm, ready}
use mysql_replay.Stream.Fsm.{handle}
use mysql_replay.Stream.Packet.{MysqlPacket}

-- `regexp.Compile`, and whether the expression is found in a text.
abbrev pub Compile : Type 0
Compile = Bytes → Option (Bytes → Bool)

pub record ReplayOptions : Type 0 where
  pub dry_run : Bool
  pub target_dsn : Bytes
  pub filter_in : Bytes
  pub filter_out : Bytes

-- `history` is what the database was asked, the newest first; `stats` are the process's.
pub record ReplayHandler : Type 0 where
  pub fsm : Fsm
  pub db : Option ℕ
  pub filter : Option (Bytes → Bool)
  pub stats : Counters
  pub history : History

abbrev pub without : Option (Bytes → Bool) → (Bytes → Bool) → Bytes → Bool
without none p s = not (p s)
without (some f) p s = f s && not (p s)

abbrev pub filtered_out : Option (Bytes → Bool) → Option (Bytes → Bool) → Option (Bytes → Bool)
filtered_out f none = f
filtered_out f (some p) = some (without f p)

-- The test on the length of the first filter always holds.
unfoldable pub new_filter : Compile → ReplayOptions → Option (Bytes → Bool)
new_filter compile o =
    let f = compile o.filter_in in
    if ltb 0 (length o.filter_out) then filtered_out f (compile o.filter_out) else f

abbrev pub replay_handler : Option ℕ → Option (Bytes → Bool) → Counters → History → ReplayHandler
replay_handler db f c past = record {
  fsm = new_mysql_fsm;
  db = db;
  filter = f;
  stats = c;
  history = past;
}

-- `NewPacketHandler`; `none` is the handler that rejects the connection.
unfoldable pub new_packet_handler :
    Compile → Driver → Counters → ReplayOptions → Option ReplayHandler
unfolding new_filter
new_packet_handler compile dr c o =
    let f = new_filter compile o in
    let q = open_pool o.target_dsn in
    let opened : Option ReplayHandler = elim (dr [] q) [
      | failed e ↦ none
      | gave p ↦ some (replay_handler (some p) f (add c (name conns) 1).0 ((q, gave p) ∷ []))
    ] in
    if o.dry_run then some (replay_handler none f c []) else opened

abbrev pub passes : Option (Bytes → Bool) → Bytes → Bool
passes none s = true
passes (some f) s = f s

-- A query that has passed the filter.
unfoldable pub exec : Driver → ReplayHandler → Bytes → Option ℕ → ReplayHandler
exec dr h text none = h
exec dr h text (some p) =
    let q = exec_query p text in
    let asked = record h { history = (q, dr h.history q) ∷ h.history } in
    elim (dr h.history q) [
      | failed e ↦ record asked { stats = (add h.stats (name err_queries) 1).0 }
      | gave _ ↦ asked
    ]

unfoldable pub replay_query : Driver → ReplayHandler → Bytes → ReplayHandler
unfolding exec
replay_query dr h text =
    let counted = record h { stats = (add h.stats (name queries) 1).0 } in
    let ran = exec dr counted text h.db in if passes h.filter text then ran else counted

-- `OnPacket` behind `Handle`.
unfoldable pub handled : Driver → ReplayHandler → Fsm → ReplayHandler
unfolding replay_query
handled dr h m =
    let next = record h { fsm = m } in
    let queried = replay_query dr next m.query in
    if not (ready m)
    then next
    else if not m.changed
    then next
    else if code m.state == code com_query_state
    then queried
    else next

unfoldable pub on_replay_packet :
    Driver → Bytes → ReplayHandler → MysqlPacket → Option ReplayHandler
unfolding handled
on_replay_packet dr spare h pkt = elim (handle spare h.fsm pkt) [
  | none ↦ none
  | some m ↦ some (handled dr h m)
]

unfoldable pub on_replay_close : Driver → ReplayHandler → ReplayHandler
on_replay_close dr h = elim h.db [
  | none ↦ h
  | some p ↦
      let q = close_pool p in
      record h {
        history = (q, dr h.history q) ∷ h.history;
        stats = (add h.stats (name conns) (2 ^ 64 - 1)).0;
      }
]

-- The packets of a connection, one after the other; `spares n` is the spare of the packet `n`.
unfoldable pub replay_packets :
    Driver → (ℕ → Bytes) → ReplayHandler → List MysqlPacket → Option ReplayHandler
unfolding on_replay_packet
replay_packets dr spares h [] = some h
replay_packets dr spares h (p ∷ ps) = elim (on_replay_packet dr (spares 0) h p) [
  | none ↦ none
  | some next ↦ replay_packets dr (λ n. spares (n + 1)) next ps
]
