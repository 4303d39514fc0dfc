-- ===== src/Stream/Pipeline.antt =====
-- stream/stream.go and stream/event.go: from the segments of a connection to its events.
use mysql_replay.Base.{
  ℕ, ◌+◌, ◌<◌, List, [], ◌∷◌, ◌++◌, some, Bytes, ◌≡◌, ◌≢◌, inl, refl, sym, ap, ◌∙◌, arith, length,
  append-nil, All,
}
use mysql_replay.Event.Types.{event_query}
use mysql_replay.Stats.Counter.{Counters}
use mysql_replay.Stream.Events.Feed.{feed}
use mysql_replay.Stream.Events.Flows.{IsClientCommand, feed-com_query}
use mysql_replay.Stream.Events.{to_millis, empty_event, EventHandler}
use mysql_replay.Stream.Fsm.Load.{last}
use mysql_replay.Stream.Fsm.Machine.{Fsm, com_quit_state}
use mysql_replay.Stream.Packet.{
  Direction, client_to_server, server_to_client, MysqlPacket, max_packet_size, com_query,
}
use mysql_replay.Stream.Reassembly.Invariant.{frames_of}
use mysql_replay.Stream.Reassembly.Reads.{Frame, frame, IsPart, IsWhole, encoded, encoded_all}
use mysql_replay.Stream.Reassembly.Runs.{IsConnection, Sends, reassembled-encoded_all}
use mysql_replay.Stream.Reassembly.Steps.{reassembled, bytes_of}
use mysql_replay.Stream.Reassembly.{MysqlStream, Segment, new_stream}

-- The packets are one packet of the client.
record IsSingle (f : Frame) (ps : List MysqlPacket) : Type 0 where
  packet : MysqlPacket
  only : ps ≡ packet ∷ []
  dir : packet.dir ≡ client_to_server
  content : frame packet ≡ f

no_frames-frames_of :
    (ps : List MysqlPacket)
    → frames_of client_to_server ps ≡ []
    → frames_of server_to_client ps ≡ []
    → ps ≡ []
no_frames-frames_of [] c s = refl
no_frames-frames_of (p ∷ ps) c s = by_dir p.dir refl
  where
    by_dir : (d : Direction) → p.dir ≡ d → p ∷ ps ≡ []
    by_dir client_to_server e = cc (rw e at c)
    by_dir server_to_client e = cc (rw e at s)

IsSingle-frames_of :
    (f : Frame) (ps : List MysqlPacket)
    → frames_of client_to_server ps ≡ f ∷ []
    → frames_of server_to_client ps ≡ []
    → IsSingle f ps
IsSingle-frames_of f [] c s = cc
IsSingle-frames_of f (p ∷ ps) c s = by_dir p.dir refl
  where
    by_dir : (d : Direction) → p.dir ≡ d → IsSingle f (p ∷ ps)
    by_dir server_to_client e = cc (rw e at s)
    by_dir client_to_server e =
        let client : frame p ∷ frames_of client_to_server ps ≡ f ∷ [] = (rw e at c) in
        let server : frames_of server_to_client ps ≡ [] = (rw e at s) in
        let rest : frames_of client_to_server ps ≡ [] = cc client in
        record {
          packet = p;
          only = ap (◌∷◌ p) (no_frames-frames_of ps rest server);
          dir = e;
          content = cc client;
        }

-- A text of the client in one packet.
abbrev pub query_frame : Bytes → Frame
query_frame q = record { len = length q + 1; seq = 0; payload = com_query ∷ q }

abbrev of_client : {A : Type 0} → A → A → Direction → A
of_client a b client_to_server = a
of_client a b server_to_client = b

single-IsClientCommand :
    (q : Bytes) (p : MysqlPacket)
    → length q + 1 < max_packet_size
    → p.dir ≡ client_to_server
    → frame p ≡ query_frame q
    → IsClientCommand (p ∷ []) (com_query ∷ q)
single-IsClientCommand q p small d e =
    let size : p.len ≡ length q + 1 = ap (λ f. f.len) e in
    let number : p.seq ≡ 0 = ap (λ f. f.seq) e in
    let payload : p.data_bytes ≡ com_query ∷ q = ap (λ f. f.payload) e in
    record {
      command = last p (λ z. omega (arith, z, size, small));
      sizes = (omega (arith, size, small), tt);
      numbered = (number, tt);
      from_client = (p, [], refl, d);
      reads = append-nil p.data_bytes ∙ payload;
    }

-- The client of a new connection sends a query that fits one packet, in any segments, the first of
-- which has the header at least, with nothing skipped or repeated, and the server has not answered: the
-- handler of a session that has not quit gives one event, the query's text at the time of the packet.
pub reassembled-feed_query :
    (c : Counters) (g : Segment) (gs : List Segment) (q : Bytes) (spares : ℕ → Bytes)
    (h : EventHandler)
    → IsConnection g gs
    → length q + 1 < max_packet_size
    → bytes_of client_to_server (g ∷ gs) ≡ encoded (query_frame q)
    → bytes_of server_to_client (g ∷ gs) ≡ []
    → h.fsm.state ≢ com_quit_state
    → (z : MysqlStream) × (p : MysqlPacket) × (m : Fsm) × (reassembled (new_stream c) (g ∷ gs)
        ≡ some z)
      × (z.sent ≡ p ∷ [])
      × (feed spares h z.sent
          ≡ some (record {
            fsm = m;
            events =
                h.events ++ record (empty_event (to_millis p.time) event_query) { query = q } ∷ [];
          }))
reassembled-feed_query c g gs q spares h k small client server running =
    let sends : Sends (new_stream c) (g ∷ gs) (of_client (query_frame q ∷ []) []) =
      reassembled-encoded_all c g gs (of_client (query_frame q ∷ []) []) (of_client [] []) k whole
        part bytes in
    let z = sends.stream in
    let one : IsSingle (query_frame q) z.sent =
      IsSingle-frames_of (query_frame q) z.sent (sends.frames client_to_server)
        (sends.frames server_to_client) in
    let p = one.packet in
    let command = single-IsClientCommand q p small one.dir one.content in
    let (m, r, _, _) = feed-com_query spares h p.time q running command in
    (z, p, m, sends.result, one.only, ap (feed spares h) one.only ∙ r)
  where
    whole : (d : Direction) → All IsWhole (of_client (query_frame q ∷ []) [] d)
    whole client_to_server = (omega arith, tt)
    whole server_to_client = tt

    part : (d : Direction) → IsPart (of_client [] [] d)
    part client_to_server = inl (omega arith)
    part server_to_client = inl (omega arith)

    bytes :
        (d : Direction)
        → bytes_of d (g ∷ gs)
          ≡ encoded_all (of_client (query_frame q ∷ []) [] d) ++ of_client [] [] d
    bytes client_to_server =
        client
        ∙ sym (append-nil (encoded (query_frame q)))
        ∙ sym (append-nil (encoded (query_frame q) ++ []))
    bytes server_to_client = server
