-- ===== src/Stream/Reassembly/Runs.antt =====
-- stream/stream.go: the segments of a connection, one after the other.
use mysql_replay.Base.{
  Bool, true, false, List, [], ◌∷◌, ◌++◌, Option, none, some, Bytes, ◌≡◌, ◌≢◌, inl, inr, refl, sym,
  ap, ◌∙◌, arith, length, ◌==◌, if◌then◌else◌, append-nil, append_assoc, Bool-cases, Option-cases,
  All, length-eq-zero,
}
use mysql_replay.Base.Int.{ℤ}
use mysql_replay.Stats.Counter.{Counters}
use mysql_replay.Stream.Packet.{Direction, client_to_server, server_to_client, same_dir}
use mysql_replay.Stream.Reassembly.Drain.{Alike}
use mysql_replay.Stream.Reassembly.Invariant.{frames_of, held, Follows}
use mysql_replay.Stream.Reassembly.Reads.{
  Frame, IsPart, IsWhole, encoded_all, Reads-encoded_all, Reads-unique, get_elem?_lt,
}
use mysql_replay.Stream.Reassembly.Segments.{Alike-later, Accepts}
use mysql_replay.Stream.Reassembly.{
  MysqlStream, Segment, new_stream, reverse, get_buf, lookup_packet_seq, trimmed, later, refused,
  reassembled_sg,
}
use mysql_replay.Stream.Reassembly.Steps.{
  reassembled, InOrder, bytes_of, Tracks, Opened, Opened-Accepts, added, reassembled_sg-Tracks,
}

-- Where nothing is skipped, a segment adds its own bytes.
InOrder-added :
    (s : MysqlStream) (g : Segment) (d : Direction)
    → InOrder g
    → added s g g.data_bytes d ≡ (if same_dir g.dir d then g.data_bytes else [])
InOrder-added s g d e = elim (Option-cases (get_buf s g.dir)) [
  | inl k ↦ rw k refl
  | inr (b, k) ↦ rw (k, e) refl
]

trimmed-InOrder : (g : Segment) → InOrder g → trimmed g.skip g.data_bytes ≡ some g.data_bytes
trimmed-InOrder g e = rw e refl

Tracks-same :
    (s : MysqlStream) (w v : Direction → Bytes)
    → ((d : Direction) → w d ≡ v d)
    → Tracks s w
    → Tracks s v
Tracks-same s w v e h = record { follows = λ d. rw (sym (e d)) (h.follows d) }

-- Nothing comes of an empty segment.
reassembled_sg_empty :
    (s : MysqlStream) (g : Segment)
    → InOrder g
    → length g.data_bytes ≡ 0
    → reassembled_sg s g ≡ some s
unfolding reassembled_sg
reassembled_sg_empty s g e z = rw (reassembled_sg, e, z) refl

abbrev pub Behind : MysqlStream → List Segment → (Direction → Bytes) → Type 0
Behind s gs w =
    (z : MysqlStream) × (reassembled s gs ≡ some z) × Tracks z (λ d. w d ++ bytes_of d gs)

Behind-step :
    (s z : MysqlStream) (g : Segment) (gs : List Segment) (w : Direction → Bytes)
    → reassembled_sg s g ≡ some z
    → Behind z gs (λ d. w d ++ (if same_dir g.dir d then g.data_bytes else []))
    → Behind s (g ∷ gs) w
unfolding reassembled
Behind-step s z g gs w e (y, r, h) = (
  y,
  rw (reassembled, e) r,
  Tracks-same y _ (λ d. w d ++ bytes_of d (g ∷ gs))
      (λ d. append_assoc (w d) (if same_dir g.dir d then g.data_bytes else []) (bytes_of d gs)) h,
)

Behind-accepted :
    (s : MysqlStream) (g : Segment) (gs : List Segment) (w : Direction → Bytes)
    → Tracks s w
    → InOrder g
    → length g.data_bytes ≢ 0
    → Accepts (later s g.dir g.stamp) g.dir g.data_bytes
    → ((z : MysqlStream) (v : Direction → Bytes) → Tracks z v → Opened z → Behind z gs v)
    → Behind s (g ∷ gs) w
Behind-accepted s g gs w h o full a rest =
    let (z, one) = reassembled_sg-Tracks s g g.data_bytes w h (trimmed-InOrder g o) full a in
    let v = λ (d : Direction). w d ++ (if same_dir g.dir d then g.data_bytes else []) in
    let now : Tracks z v =
      Tracks-same z _ v (λ d. ap (λ y. w d ++ y) (InOrder-added (later s g.dir g.stamp) g d o))
        one.tracks in
    Behind-step s z g gs w one.result (rest z v now one.opened)

Opened-later : (s : MysqlStream) (d : Direction) (t : Option ℤ) → Opened s → Opened (later s d t)
Opened-later s d t (e, b, h) =
    let a : Alike e s (later s d t) = Alike-later s d e t in (e, b, a.buf ∙ h)

pub reassembled-Tracks :
    (gs : List Segment) (s : MysqlStream) (w : Direction → Bytes)
    → All InOrder gs
    → Opened s
    → Tracks s w
    → Behind s gs w
unfolding reassembled
reassembled-Tracks [] s w o k h =
    (s, refl, Tracks-same s w (λ d. w d ++ []) (λ d. sym (append-nil (w d))) h)
reassembled-Tracks (g ∷ gs) s w (o, os) k h = elim (Bool-cases (length g.data_bytes == 0)) [
  | inl e ↦
      let none_left : g.data_bytes ≡ [] = length-eq-zero g.data_bytes (ground arith) in
      let v = λ (d : Direction). w d ++ (if same_dir g.dir d then g.data_bytes else []) in
      let same : Tracks s v = Tracks-same s w v (λ d. empty (w d) (same_dir g.dir d) none_left) h in
      Behind-step s s g gs w (reassembled_sg_empty s g o (ground arith))
        (reassembled-Tracks gs s v os k same)
  | inr e ↦
      Behind-accepted s g gs w h o (λ z. cc (e, z))
        (Opened-Accepts (later s g.dir g.stamp) g.dir g.data_bytes (Opened-later s g.dir g.stamp k))
        (λ z v t p. reassembled-Tracks gs z v os p t)
]
  where
    empty : (a : Bytes) (b : Bool) → g.data_bytes ≡ [] → a ≡ a ++ (if b then g.data_bytes else [])
    empty a true e = rw e (sym (append-nil a))
    empty a false e = sym (append-nil a)

new_stream-Tracks : (c : Counters) → Tracks (new_stream c) (λ d. [])
unfolding new_stream
new_stream-Tracks c = record { follows = none_yet }
  where
    none_yet : (d : Direction) → Follows (new_stream c) d []
    none_yet client_to_server = record {
      holds = record { reads = refl; pending = tt };
      part = inl (omega arith);
    }
    none_yet server_to_client = record {
      holds = record { reads = refl; pending = tt };
      part = inl (omega arith);
    }

-- The segments of a connection whose first one holds the start of a packet with the number 0.
pub record IsConnection (g : Segment) (gs : List Segment) : Type 0 where
  pub in_order : All InOrder (g ∷ gs)
  pub first : lookup_packet_seq g.data_bytes ≡ some 0

first_full : (g : Segment) → lookup_packet_seq g.data_bytes ≡ some 0 → length g.data_bytes ≢ 0
unfolding lookup_packet_seq
first_full g e z = omega (arith, get_elem?_lt g.data_bytes 3 0 e)

pub get_buf-new_stream : (c : Counters) (d : Direction) → get_buf (new_stream c) d ≡ none
unfolding new_stream
get_buf-new_stream c client_to_server = refl
get_buf-new_stream c server_to_client = refl

first_accepted :
    (c : Counters) (g : Segment)
    → lookup_packet_seq g.data_bytes ≡ some 0
    → refused (later (new_stream c) g.dir g.stamp) g.dir g.data_bytes ≡ false
first_accepted c g e =
    let a : Alike (reverse g.dir) (new_stream c) (later (new_stream c) g.dir g.stamp) =
      Alike-later (new_stream c) g.dir (reverse g.dir) g.stamp in
    rw (a.buf, get_buf-new_stream c (reverse g.dir), e) refl

pub record Sends (s : MysqlStream) (gs : List Segment) (fs : Direction → List Frame) : Type 0 where
  pub stream : MysqlStream
  pub result : reassembled s gs ≡ some stream
  pub frames : (d : Direction) → frames_of d stream.sent ≡ fs d

-- The bytes of a new connection are, in each direction, the packets `fs` and the start of another one,
-- and come in segments with nothing skipped or repeated, cut and interleaved in any way, the first of which
-- has four bytes at least and a packet's number 0. Then no segment panics, and the packets that the stream
-- sends are, in each direction, the packets `fs` in their order.
pub reassembled-encoded_all :
    (c : Counters) (g : Segment) (gs : List Segment) (fs : Direction → List Frame)
    (rest : Direction → Bytes)
    → IsConnection g gs
    → ((d : Direction) → All IsWhole (fs d))
    → ((d : Direction) → IsPart (rest d))
    → ((d : Direction) → bytes_of d (g ∷ gs) ≡ encoded_all (fs d) ++ rest d)
    → Sends (new_stream c) (g ∷ gs) fs
reassembled-encoded_all c g gs fs rest k whole part bytes =
    let (o, os) = k.in_order in
    let s = new_stream c in
    let full : length g.data_bytes ≢ 0 = (λ e. first_full g k.first e) in
    let (z, r, t) : Behind s (g ∷ gs) (λ d. []) =
      Behind-accepted s g gs (λ d. []) (new_stream-Tracks c) o full
        (inr (first_accepted c g k.first)) (λ z v t p. reassembled-Tracks gs z v os p t) in
    record {
      stream = z;
      result = r;
      frames = λ d.
          let f = t.follows d in
          Reads-unique (frames_of d z.sent) (fs d) (bytes_of d (g ∷ gs)) (held (get_buf z d))
            (rest d) f.part (part d) f.holds.reads
            (rw (bytes d) (Reads-encoded_all (fs d) (rest d) (whole d)));
    }
