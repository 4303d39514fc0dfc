-- ===== src/Stream/Tests/Reassembly.antt =====
-- Segments at which the theorems on stream/stream.go are applied.
use mysql_replay.Base.{
  codes, ℕ, ◌+◌, ◌%◌, ◌^◌, ◌≡◌, ◌≢◌, inl, refl, arith, List, [], ◌∷◌, ◌++◌, Option, some, none,
  Bytes, length, All,
}
use mysql_replay.Base.Int.{pos}
use mysql_replay.Stats.Counter.{name, packets, data_in, get}
use mysql_replay.Stats.Laws.{initial, run, sum_of}
use mysql_replay.Event.Types.{event_query}
use mysql_replay.Stream.Events.Feed.{feed}
use mysql_replay.Stream.Events.{to_millis, empty_event, EventHandler}
use mysql_replay.Stream.Fsm.Machine.{Fsm, new_mysql_fsm}
use mysql_replay.Stream.Pipeline.{reassembled-feed_query}
use mysql_replay.Stream.Packet.{Direction, client_to_server, server_to_client, MysqlPacket}
use mysql_replay.Stream.Reassembly.Counts.{
  drain_loop-returned, reassembled-counters, reassembled_sg-refused,
}
use mysql_replay.Stream.Reassembly.Traffic.{size_of}
use mysql_replay.Stream.Reassembly.Reads.{Frame, IsPart, IsWhole, encoded_all}
use mysql_replay.Stream.Reassembly.Runs.{IsConnection, Sends, reassembled-encoded_all}
use mysql_replay.Stream.Reassembly.Steps.{reassembled, bytes_of}
use mysql_replay.Stream.Reassembly.{
  MysqlStream, Segment, new_stream, returned, drain_loop, drain, later, lookup_packet_seq,
  reassembled_sg, zero_time,
}

abbrev segment : Direction → Bytes → ℕ → Segment
segment d s t = record { dir = d; data_bytes = s; skip = pos 0; stamp = some (pos t) }

-- A query in two segments, its response between them, and the start of another packet.
abbrev first_segment : Segment
first_segment = segment client_to_server (3 ∷ 0 ∷ 0 ∷ 0 ∷ 3 ∷ []) 10

abbrev more_segments : List Segment
more_segments =
    segment server_to_client (1 ∷ 0 ∷ []) 11
    ∷ segment client_to_server [] 12
    ∷ segment client_to_server (65 ∷ 66 ∷ 9 ∷ []) 13
    ∷ segment server_to_client (0 ∷ 1 ∷ 0 ∷ []) 14
    ∷ []

abbrev frames : Direction → List Frame
frames client_to_server = record { len = 3; seq = 0; payload = 3 ∷ 65 ∷ 66 ∷ [] } ∷ []
frames server_to_client = record { len = 1; seq = 1; payload = 0 ∷ [] } ∷ []

abbrev rest : Direction → Bytes
rest client_to_server = 9 ∷ []
rest server_to_client = []

frames-IsWhole : (d : Direction) → All IsWhole (frames d)
frames-IsWhole client_to_server = (refl, tt)
frames-IsWhole server_to_client = (refl, tt)

rest-IsPart : (d : Direction) → IsPart (rest d)
rest-IsPart client_to_server = inl (omega arith)
rest-IsPart server_to_client = inl (omega arith)

segments-bytes :
    (d : Direction) → bytes_of d (first_segment ∷ more_segments) ≡ encoded_all (frames d) ++ rest d
segments-bytes client_to_server = refl
segments-bytes server_to_client = refl

segments-IsConnection : IsConnection first_segment more_segments
unfolding lookup_packet_seq
segments-IsConnection = record {
  in_order = (refl, (refl, (refl, (refl, (refl, tt)))));
  first = refl;
}

reassembled-encoded_all_example : Sends (new_stream initial) (first_segment ∷ more_segments) frames
reassembled-encoded_all_example =
    reassembled-encoded_all initial first_segment more_segments frames rest segments-IsConnection
      frames-IsWhole rest-IsPart segments-bytes

-- The stream behind the segments.
abbrev behind : Option MysqlStream → MysqlStream
behind none = new_stream initial
behind (some z) = z

abbrev streamed : MysqlStream
streamed = behind (reassembled (new_stream (run initial [])) (first_segment ∷ more_segments))

segments-streamed :
    reassembled (new_stream (run initial [])) (first_segment ∷ more_segments) ≡ some streamed
unfolding reassembled
segments-streamed = refl

reassembled-counters_example :
    (get streamed.stats (name packets) ≡ (sum_of (name packets) [] + length streamed.sent) % 2 ^ 64)
    × (get streamed.stats (name data_in)
        ≡ (sum_of (name data_in) [] + size_of streamed.sent) % 2 ^ 64)
reassembled-counters_example =
    reassembled-counters [] (first_segment ∷ more_segments) streamed segments-streamed

abbrev full_stream : MysqlStream
full_stream = record (new_stream initial) { buf0 = some (1 ∷ 0 ∷ 0 ∷ 0 ∷ 14 ∷ []) }

drain_loop-returned_example :
    drain_loop 9 client_to_server zero_time full_stream
    ≡ returned (drain 6 client_to_server zero_time full_stream)
drain_loop-returned_example =
    drain_loop-returned 9 client_to_server zero_time full_stream (1 ∷ 0 ∷ 0 ∷ 0 ∷ 14 ∷ []) refl
      (omega arith)

abbrev short_segment : Segment
short_segment = segment client_to_server (3 ∷ 0 ∷ []) 10

short_segment-seq : lookup_packet_seq (3 ∷ 0 ∷ []) ≢ some 0
unfolding lookup_packet_seq
short_segment-seq e = cc

reassembled_sg-refused_example :
    reassembled_sg (new_stream initial) short_segment
    ≡ some (later (new_stream initial) client_to_server (some (pos 10)))
reassembled_sg-refused_example =
    reassembled_sg-refused initial short_segment (3 ∷ 0 ∷ []) (λ e. omega (arith, e)) refl
      short_segment-seq

-- A query in three segments.
abbrev query_start : Segment
query_start = segment client_to_server (9 ∷ 0 ∷ 0 ∷ 0 ∷ 3 ∷ []) 10

abbrev query_rest : List Segment
query_rest =
    segment client_to_server (codes "sel") 11 ∷ segment client_to_server (codes "ect 1") 12 ∷ []

query-IsConnection : IsConnection query_start query_rest
unfolding lookup_packet_seq
query-IsConnection = record { in_order = (refl, (refl, (refl, tt))); first = refl }

abbrev fresh : EventHandler
fresh = record { fsm = new_mysql_fsm; events = [] }

reassembled-feed_query_example :
    (z : MysqlStream) × (p : MysqlPacket) × (m : Fsm) × (reassembled
        (new_stream initial)
        (query_start ∷ query_rest)
      ≡ some z)
    × (z.sent ≡ p ∷ [])
    × (feed (λ n. []) fresh z.sent
        ≡ some (record {
          fsm = m;
          events =
              record (empty_event (to_millis p.time) event_query) { query = codes "select 1" } ∷ [];
        }))
reassembled-feed_query_example =
    reassembled-feed_query initial query_start query_rest (codes "select 1") (λ n. []) fresh
      query-IsConnection (omega arith) refl refl (λ e. cc)
