-- ===== src/Live/Tests.antt =====
-- A connection and a database at which the theorem on the live replay is applied.
use mysql_replay.Base.{
  ◌+◌, ◌%◌, ◌^◌, false, ◌≡◌, refl, arith, List, [], ◌∷◌, Option, some, none, length, codes,
  append-nil, ltb,
}
use mysql_replay.Base.Int.{pos}
use mysql_replay.Event.Types.{MysqlEvent, event_query}
use mysql_replay.Live.Queries.{replay_packets-feed}
use mysql_replay.Live.Texts.{texts, to_run, query_texts}
use mysql_replay.Live.{
  Compile, ReplayOptions, ReplayHandler, replay_handler, new_packet_handler, replay_packets,
}
use mysql_replay.Play.Driver.{Driver, gave}
use mysql_replay.Stats.Counter.{name, queries, get}
use mysql_replay.Stats.Laws.{initial, sum_of}
use mysql_replay.Stream.Events.Feed.{feed}
use mysql_replay.Stream.Events.Flows.{IsClientCommand, feed-com_query}
use mysql_replay.Stream.Events.{empty_event, EventHandler}
use mysql_replay.Stream.Fsm.Load.{last}
use mysql_replay.Stream.Fsm.Machine.{Fsm, new_mysql_fsm}
use mysql_replay.Stream.Packet.{client_to_server, MysqlPacket, com_query}

-- An expression is found in the texts that are longer than it.
abbrev by_length : Compile
by_length e = some (λ s. ltb (length e) (length s))

abbrev willing : Driver
willing past q = gave (length past)

abbrev options : ReplayOptions
options = record {
  dry_run = false;
  target_dsn = codes "dsn";
  filter_in = codes "x";
  filter_out = [];
}

abbrev behind : Option ReplayHandler → ReplayHandler
behind none = replay_handler none none initial []
behind (some h) = h

abbrev made : ReplayHandler
made = behind (new_packet_handler by_length willing initial options)

new_packet_handler-made : new_packet_handler by_length willing initial options ≡ some made
unfolding new_packet_handler
new_packet_handler-made = refl

abbrev query_packet : MysqlPacket
query_packet = record {
  time = pos 5_000_000;
  dir = client_to_server;
  len = 9;
  seq = 0;
  data_bytes = com_query ∷ codes "select 1";
}

query_packet-IsClientCommand : IsClientCommand (query_packet ∷ []) (com_query ∷ codes "select 1")
query_packet-IsClientCommand = record {
  command = last _ (λ e. omega arith);
  sizes = (omega arith, tt);
  numbered = (refl, tt);
  from_client = (_, _, refl, refl);
  reads = append-nil (com_query ∷ codes "select 1");
}

abbrev fresh : EventHandler
fresh = record { fsm = new_mysql_fsm; events = [] }

abbrev its_events : List MysqlEvent
its_events = record (empty_event (pos 5) event_query) { query = codes "select 1" } ∷ []

feed-query_packet :
    (m : Fsm) × (feed (λ n. []) fresh (query_packet ∷ [])
      ≡ some (record { fsm = m; events = its_events }))
feed-query_packet =
    let (m, r, s, t) =
      feed-com_query (λ n. []) fresh (pos 0) (codes "select 1") (λ e. cc)
        query_packet-IsClientCommand in
    (m, r)

replay_packets-feed_example :
    (y : ReplayHandler) × (replay_packets willing (λ n. []) made (query_packet ∷ []) ≡ some y)
    × (texts y.history ≡ to_run y.db y.filter (query_texts its_events))
    × (get y.stats (name queries)
        ≡ (sum_of (name queries) [] + length (query_texts its_events)) % 2 ^ 64)
replay_packets-feed_example =
    replay_packets-feed by_length willing [] options made (λ n. []) (query_packet ∷ [])
      (record { fsm = feed-query_packet.0; events = its_events }) new_packet_handler-made
      feed-query_packet.1
