-- ===== src/Stream/Reassembly/Steps.antt =====
-- stream/stream.go: a segment of a connection, and what it adds to its direction.
use mysql_replay.Base.{
  List, [], ◌∷◌, ◌++◌, Option, none, some, Bytes, ◌≡◌, ◌≢◌, inl, inr, refl, length, if◌then◌else◌,
  append-nil, ne→==,
}
use mysql_replay.Base.Int.{ℤ, pos}
use mysql_replay.Stream.Packet.{Direction, client_to_server, server_to_client, same_dir}
use mysql_replay.Stream.Reassembly.Drain.{Follows-Alike}
use mysql_replay.Stream.Reassembly.Invariant.{Follows}
use mysql_replay.Stream.Reassembly.Segments.{Drained, Alike-later, Accepts, given, write-Drained}
use mysql_replay.Stream.Reassembly.{
  MysqlStream, Segment, get_buf, trimmed, later, write, reassembled_sg,
}

-- The segments of a connection, one after the other.
unfoldable pub reassembled : MysqlStream → List Segment → Option MysqlStream
unfolding reassembled_sg
reassembled s [] = some s
reassembled s (g ∷ gs) = elim (reassembled_sg s g) [ none ↦ none | some z ↦ reassembled z gs ]

-- No byte is missing in front of the segment or repeated.
abbrev pub InOrder : Segment → Type 0
InOrder g = g.skip ≡ pos 0

-- The bytes of a direction.
abbrev pub bytes_of : Direction → List Segment → Bytes
bytes_of d [] = []
bytes_of d (g ∷ gs) = (if same_dir g.dir d then g.data_bytes else []) ++ bytes_of d gs

-- Of what each direction was given, `w`, the whole packets are sent.
pub record Tracks (s : MysqlStream) (w : Direction → Bytes) : Type 0 where
  pub follows : (d : Direction) → Follows s d (w d)

-- A direction has a buffer.
abbrev pub Opened : MysqlStream → Type 0
Opened s = (d : Direction) × (b : Bytes) × (get_buf s d ≡ some b)

pub Opened-Accepts : (s : MysqlStream) (d : Direction) (x : Bytes) → Opened s → Accepts s d x
Opened-Accepts s client_to_server x (client_to_server, b, e) = inl (b, e)
Opened-Accepts s client_to_server x (server_to_client, b, e) = inr (rw e refl)
Opened-Accepts s server_to_client x (client_to_server, b, e) = inr (rw e refl)
Opened-Accepts s server_to_client x (server_to_client, b, e) = inl (b, e)

-- What a segment gives, one that starts its direction or stands behind skipped bytes included.
abbrev pub added : MysqlStream → Segment → Bytes → Direction → Bytes
added s g x d = if same_dir g.dir d then given (get_buf s g.dir) g.skip x else []

module _ (s z : MysqlStream) (w : Direction → Bytes) (x : Bytes) (h : Tracks s w) where
  Follows-Drained :
      (d e : Direction)
      → Drained d (w d ++ x) s z
      → Follows z e (w e ++ (if same_dir d e then x else []))
  Follows-Drained client_to_server client_to_server r = r.follows
  Follows-Drained server_to_client server_to_client r = r.follows
  Follows-Drained client_to_server server_to_client r =
      rw (append-nil (w server_to_client)) (
        Follows-Alike server_to_client s z (w server_to_client) r.alike
          (h.follows server_to_client))
  Follows-Drained server_to_client client_to_server r =
      rw (append-nil (w client_to_server)) (
        Follows-Alike client_to_server s z (w client_to_server) r.alike
          (h.follows client_to_server))

Tracks-later :
    (s : MysqlStream) (w : Direction → Bytes) (d : Direction) (t : Option ℤ)
    → Tracks s w
    → Tracks (later s d t) w
Tracks-later s w d t h = record {
  follows = λ e. Follows-Alike e s (later s d t) (w e) (Alike-later s d e t) (h.follows e);
}

-- `z` is the stream behind the segment `g`, of which the bytes `x` are left by the trimming.
pub record Step (s : MysqlStream) (g : Segment) (x : Bytes) (w : Direction → Bytes)
    (z : MysqlStream) : Type 0 where
  pub result : reassembled_sg s g ≡ some z
  pub tracks : Tracks z (λ d. w d ++ added (later s g.dir g.stamp) g x d)
  pub opened : Opened z

pub reassembled_sg-Tracks :
    (s : MysqlStream) (g : Segment) (x : Bytes) (w : Direction → Bytes)
    → Tracks s w
    → trimmed g.skip g.data_bytes ≡ some x
    → length g.data_bytes ≢ 0
    → Accepts (later s g.dir g.stamp) g.dir x
    → (z : MysqlStream) × Step s g x w z
unfolding reassembled_sg
reassembled_sg-Tracks s g x w h e full a =
    let d = g.dir in
    let t = later s d g.stamp in
    let timed : Tracks t w = Tracks-later s w d g.stamp h in
    let f = timed.follows d in
    let z = write t d g.skip x in
    let y = given (get_buf t d) g.skip x in
    let r : Drained d (w d ++ y) t z = write-Drained t d (w d) f.holds g.skip x a in
    let (b, has) = r.some_buf in
    (
      z,
      record {
        result = rw (reassembled_sg, e, ne→== (length g.data_bytes) 0 full) refl;
        tracks = record { follows = λ e. Follows-Drained t z w y timed d e r };
        opened = (d, b, has);
      },
    )
