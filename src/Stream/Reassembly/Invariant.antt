-- ===== src/Stream/Reassembly/Invariant.antt =====
-- stream/stream.go: `ReassembledSG`, the packets that its segments give.
use mysql_replay.Base.{
  ℕ, suc, zero, ◌+◌, ◌-◌, ◌≤◌, ◌<◌, ◌%◌, ◌^◌, Bool, true, false, not, ◌&&◌, List, [], ◌∷◌, ◌++◌,
  map, Option, none, some, Bytes, ◌≡◌, ◌≢◌, inl, inr, refl, sym, ap, ◌∙◌, arith, length, take, drop,
  ltb, ltb→lt, ◌==◌, if◌then◌else◌, length-append, append_assoc, append-nil, Bool-cases,
  Option-cases, length-drop,
}
use mysql_replay.Base.Int.{ℤ}
use mysql_replay.Stream.Packet.{Direction, same_dir, MysqlPacket}
use mysql_replay.Stream.Reassembly.Reads.{Frame, frame, Reads, IsPart}
use mysql_replay.Stream.Reassembly.{
  MysqlStream, get_buf, get_pkt, lookup_packet_len, lookup_packet_seq, new_packet, packet_of,
}

-- The packets of one direction.
abbrev pub frames_of : Direction → List MysqlPacket → List Frame
frames_of d [] = []
frames_of d (p ∷ ps) = if same_dir p.dir d then frame p ∷ frames_of d ps else frames_of d ps

-- The bytes of a direction that no packet has taken.
abbrev pub held : Option Bytes → Bytes
held none = []
held (some b) = b

-- The packet that waits has its size and number from the buffer.
abbrev pub IsPending : Direction → Bytes → Option MysqlPacket → Type 0
IsPending d b none = Unit
IsPending d b (some p) =
    (p.dir ≡ d) × (lookup_packet_len b ≡ some p.len) × (lookup_packet_seq b ≡ some p.seq)

-- Of the bytes `w` that a direction was given, the packets of `s` are the whole packets, and the
-- buffer has the rest.
pub record Holds (s : MysqlStream) (d : Direction) (w : Bytes) : Type 0 where
  pub reads : Reads (frames_of d s.sent) w (held (get_buf s d))
  pub pending : IsPending d (held (get_buf s d)) (get_pkt s d)

pub record Follows (s : MysqlStream) (d : Direction) (w : Bytes) : Type 0 where
  pub holds : Holds s d w
  pub part : IsPart (held (get_buf s d))

module _ (d : Direction) where
  pub frames_of-append :
      (ps qs : List MysqlPacket) → frames_of d (ps ++ qs) ≡ frames_of d ps ++ frames_of d qs
  frames_of-append [] qs = refl
  frames_of-append (p ∷ ps) qs = elim (Bool-cases (same_dir p.dir d)) [
    | inl e ↦ rw e (ap (◌∷◌ (frame p)) (frames_of-append ps qs))
    | inr e ↦ rw e (frames_of-append ps qs)
  ]

-- The packet of a round, whichever way it is found.
abbrev pub Found : Direction → Bytes → MysqlPacket → Type 0
Found d b p = IsPending d b (some p)

lookup_packet_len-none : (b : Bytes) → lookup_packet_len b ≡ none → length b < 4
unfolding lookup_packet_len
lookup_packet_len-none b e = elim (Bool-cases (ltb (length b) 3)) [
  | inl h ↦ omega (arith, ltb→lt (length b) 3 h)
  | inr h ↦ cc (rw h at e)
]

get_elem?-none : (b : Bytes) (n : ℕ) → mysql_replay.Base.get_elem? b n ≡ none → length b ≤ n
get_elem?-none [] n e = omega arith
get_elem?-none (x ∷ b) zero e = cc
get_elem?-none (x ∷ b) (suc n) e = omega (arith, get_elem?-none b n e)

lookup_packet_seq-none : (b : Bytes) → lookup_packet_seq b ≡ none → length b < 4
unfolding lookup_packet_seq
lookup_packet_seq-none b e = omega (arith, get_elem?-none b 3 e)

module _ (s : MysqlStream) (d : Direction) (t : ℤ) (b : Bytes) where
  pub packet_of-none : packet_of s d t b ≡ none → length b < 4
  unfolding packet_of new_packet
  packet_of-none e = elim (Option-cases (get_pkt s d)) [
    | inr (p, h) ↦ cc (rw (packet_of, h) at e)
    | inl h ↦ elim (Option-cases (lookup_packet_len b)) [
      | inl k ↦ lookup_packet_len-none b k
      | inr (n, k) ↦ elim (Option-cases (lookup_packet_seq b)) [
        | inl l ↦ lookup_packet_seq-none b l
        | inr (q, l) ↦ cc (rw (packet_of, h, k, l, new_packet) at e)
      ]
    ]
  ]

  pub packet_of-Found :
      (p : MysqlPacket) → IsPending d b (get_pkt s d) → packet_of s d t b ≡ some p → Found d b p
  unfolding packet_of new_packet
  packet_of-Found p pending e = elim (Option-cases (get_pkt s d)) [
    | inr (q, h) ↦
        let same : p ≡ q = cc (rw (packet_of, h) at e) in
        let f : IsPending d b (some q) = (rw h at pending) in rw same f
    | inl h ↦ elim (Option-cases (lookup_packet_len b)) [
      | inl k ↦ cc (rw (packet_of, h, k, new_packet) at e)
      | inr (n, k) ↦ elim (Option-cases (lookup_packet_seq b)) [
        | inl l ↦ cc (rw (packet_of, h, k, l, new_packet) at e)
        | inr (q, l) ↦
            let fresh : MysqlPacket = record {
              time = t;
              dir = d;
              len = n;
              seq = q;
              data_bytes = [];
            } in
            let same : p ≡ fresh = cc (rw (packet_of, h, k, l, new_packet) at e) in
            rw same (refl, k, l)
      ]
    ]
  ]
