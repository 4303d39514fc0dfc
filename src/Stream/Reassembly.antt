-- ===== src/Stream/Reassembly.antt =====
-- stream/stream.go: `mysqlStream`, which cuts the bytes of a TCP connection into packets.
pub mod Reads
pub mod Invariant
pub mod Segments
pub mod Steps
pub mod Runs
pub mod Traffic
pub mod Counts
pub mod Drain
use mysql_replay.Base.{
  ℕ, zero, suc, ◌+◌, ◌-◌, Bool, true, false, not, ◌&&◌, List, [], ◌∷◌, ◌++◌, Option, none, some,
  Bytes, length, take, drop, replicate, get_elem?, ltb, leb, ◌==◌, if◌then◌else◌, ◌^◌, ◌*◌,
}
use mysql_replay.Base.Int.{ℤ, pos, negsuc, ltb_ℤ, pos_part, neg_part}
use mysql_replay.Stats.Counter.{Counters, name, packets, data_in, streams, add}
use mysql_replay.Stream.Packet.{Direction, client_to_server, server_to_client, MysqlPacket}
use mysql_replay.Stream.Reader.{little_endian}

-- `stats` are the process's counters; `sent` are the packets that were given to the handler, or to
-- the channel that the handler's goroutine reads; `closed` tells whether `OnClose` was called.
pub record MysqlStream : Type 0 where
  pub buf0 : Option Bytes
  pub buf1 : Option Bytes
  pub pkt0 : Option MysqlPacket
  pub pkt1 : Option MysqlPacket
  pub t0 : ℤ
  pub t1 : ℤ
  pub stats : Counters
  pub sent : List MysqlPacket
  pub closed : Bool

-- What the assembler gives: `data_bytes` is `sg.Fetch` of all available bytes, `skip` the number of bytes
-- that are missing in front of them, or repeated where it is negative, and `stamp` the capture time
-- where there is a context.
pub record Segment : Type 0 where
  pub dir : Direction
  pub data_bytes : Bytes
  pub skip : ℤ
  pub stamp : Option ℤ

-- The zero `time.Time`, the start of year 1, in nanoseconds since 1970.
abbrev pub zero_time : ℤ
zero_time = negsuc (62_135_596_800 * 1_000_000_000 - 1)

-- `mysqlStreamFactory.New`, behind the factory of the handler.
unfoldable pub new_stream : Counters → MysqlStream
new_stream c = record {
  buf0 = none;
  buf1 = none;
  pkt0 = none;
  pkt1 = none;
  t0 = zero_time;
  t1 = zero_time;
  stats = (add c (name streams) 1).0;
  sent = [];
  closed = false;
}

-- `!dir`
abbrev pub reverse : Direction → Direction
reverse client_to_server = server_to_client
reverse server_to_client = client_to_server

abbrev pub get_buf : MysqlStream → Direction → Option Bytes
get_buf s client_to_server = s.buf0
get_buf s server_to_client = s.buf1

abbrev pub set_buf : MysqlStream → Direction → Option Bytes → MysqlStream
set_buf s client_to_server b = record s { buf0 = b }
set_buf s server_to_client b = record s { buf1 = b }

abbrev pub get_pkt : MysqlStream → Direction → Option MysqlPacket
get_pkt s client_to_server = s.pkt0
get_pkt s server_to_client = s.pkt1

abbrev pub set_pkt : MysqlStream → Direction → Option MysqlPacket → MysqlStream
set_pkt s client_to_server p = record s { pkt0 = p }
set_pkt s server_to_client p = record s { pkt1 = p }

abbrev pub get_time : MysqlStream → Direction → ℤ
get_time s client_to_server = s.t0
get_time s server_to_client = s.t1

abbrev pub set_time : MysqlStream → Direction → ℤ → MysqlStream
set_time s client_to_server t = record s { t0 = t }
set_time s server_to_client t = record s { t1 = t }

-- `none` is -1.
unfoldable pub lookup_packet_len : Bytes → Option ℕ
lookup_packet_len s = if ltb (length s) 3 then none else some (little_endian (take 3 s))

unfoldable pub lookup_packet_seq : Bytes → Option ℕ
lookup_packet_seq s = get_elem? s 3

-- The new packet of a round of the loop, `none` where its `Seq` is -1.
unfoldable pub new_packet : ℤ → Direction → Option ℕ → Option ℕ → Option MysqlPacket
new_packet t d (some n) (some q) =
    some (record { time = t; dir = d; len = n; seq = q; data_bytes = [] })
new_packet t d _ _ = none

unfoldable pub packet_of : MysqlStream → Direction → ℤ → Bytes → Option MysqlPacket
packet_of s d t buf = elim (get_pkt s d) [
  | some p ↦ some p
  | none ↦ new_packet t d (lookup_packet_len buf) (lookup_packet_seq buf)
]

-- The packet that waits for its data is kept, unless it is already.
unfoldable pub kept : MysqlStream → Direction → MysqlPacket → MysqlStream
kept s d p = elim (get_pkt s d) [ some q ↦ s | none ↦ set_pkt s d (some p) ]

-- `pkt` with the data that is taken from the buffer.
abbrev pub filled : MysqlPacket → Bytes → MysqlPacket
filled p buf = record p { data_bytes = drop 4 (take (p.len + 4) buf) }

-- The rest of a round that has a whole packet.
unfoldable pub passed : MysqlStream → Direction → MysqlPacket → Bytes → MysqlStream
passed s d p buf =
    let counted = (add (add s.stats (name packets) 1).0 (name data_in) (p.len + 4)).0 in
    let after = record s { stats = counted; sent = s.sent ++ filled p buf ∷ [] } in
    set_pkt (set_buf after d (some (drop (p.len + 4) buf))) d none

-- How the loop ends: by itself, or for want of fuel.
pub data Loop : Type 0 where
  returned : MysqlStream → Loop
  out_of_fuel : MysqlStream → Loop

abbrev pub state_of : Loop → MysqlStream
state_of (returned s) = s
state_of (out_of_fuel s) = s

-- The loop. Fuel: each round that goes on takes four bytes at least from the buffer.
unfoldable pub drain_loop : ℕ → Direction → ℤ → MysqlStream → Loop
drain_loop zero d t s = out_of_fuel s
drain_loop (suc fuel) d t s = elim (get_buf s d) [
  | none ↦ returned s
  | some buf ↦ elim (packet_of s d t buf) [
    | none ↦ returned s
    | some p ↦
        let rest = drain_loop fuel d t (passed s d p buf) in
        if length buf == 0
        then returned s
        else if ltb (length buf) (p.len + 4)
        then returned (kept s d p)
        else rest
  ]
]

abbrev pub drain : ℕ → Direction → ℤ → MysqlStream → MysqlStream
drain fuel d t s = state_of (drain_loop fuel d t s)

-- The time of a direction goes on only.
abbrev pub later : MysqlStream → Direction → Option ℤ → MysqlStream
later s d none = s
later s d (some t) = if ltb_ℤ (get_time s d) t then set_time s d t else s

-- `data[-skip:]` where `skip` is negative; `none` is the panic of a slice out of range.
abbrev pub trimmed : ℤ → Bytes → Option Bytes
trimmed (pos n) bytes = some bytes
trimmed (negsuc n) bytes = if leb (n + 1) (length bytes) then some (drop (n + 1) bytes) else none

-- The zeros for the skipped bytes.
abbrev pub skipped : ℤ → Bytes
skipped skip = replicate (pos_part skip) 0

-- The test on a first segment: the other direction has no buffer, and the number is not 0. It is -1
-- where there are fewer than four bytes.
abbrev pub starts : Option ℕ → Bool
starts none = false
starts (some q) = q == 0

abbrev pub is_nil : Option Bytes → Bool
is_nil none = true
is_nil (some b) = false

abbrev pub refused : MysqlStream → Direction → Bytes → Bool
refused s d bytes = is_nil (get_buf s (reverse d)) && not (starts (lookup_packet_seq bytes))

-- What a segment writes to the buffer, and the loop.
unfoldable pub write : MysqlStream → Direction → ℤ → Bytes → MysqlStream
write s d skip bytes = elim (get_buf s d) [
  | none ↦
      let rest = drain (suc (length bytes)) d (get_time s d) (set_buf s d (some bytes)) in
      if refused s d bytes then s else rest
  | some buf ↦
      let all = buf ++ (skipped skip ++ bytes) in
      drain (suc (length all)) d (get_time s d) (set_buf s d (some all))
]

-- `none` is a panic.
unfoldable pub reassembled_sg : MysqlStream → Segment → Option MysqlStream
reassembled_sg s g = elim (trimmed g.skip g.data_bytes) [
  | none ↦ if length g.data_bytes == 0 then some s else none
  | some bytes ↦
      let next = write (later s g.dir g.stamp) g.dir g.skip bytes in
      if length g.data_bytes == 0 then some s else some next
]

unfoldable pub reassembly_complete : MysqlStream → MysqlStream
reassembly_complete s = record s {
  stats = (add s.stats (name streams) (2 ^ 64 - 1)).0;
  closed = true;
}
