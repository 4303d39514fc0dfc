-- ===== src/Stream/Reassembly/Traffic.antt =====
-- stream/stream.go: what `ReassembledSG` counts.
use Prim.Native.String.{String}
use mysql_replay.Base.{
  ℕ, suc, zero, ◌+◌, Bool, true, false, List, [], ◌∷◌, ◌++◌, Option, none, some, Bytes, ◌≡◌, inl,
  inr, refl, ap, arith, length, drop, ltb, ◌==◌, if◌then◌else◌, Bool-cases, Option-cases,
}
use mysql_replay.Base.Int.{ℤ, ltb_ℤ}
use mysql_replay.Stats.Counter.{Counters, name, packets, data_in, add}
use mysql_replay.Stats.Laws.{run, sum_of}
use mysql_replay.Stream.Packet.{Direction, client_to_server, server_to_client, MysqlPacket}
use mysql_replay.Stream.Reassembly.Steps.{reassembled}
use mysql_replay.Stream.Reassembly.{
  MysqlStream, Segment, get_buf, set_buf, get_pkt, set_pkt, get_time, set_time, packet_of, kept,
  filled, passed, Loop, state_of, drain_loop, drain, later, trimmed, write, refused, reassembled_sg,
  skipped,
}

-- The calls of `Add` for packets that were sent.
abbrev pub traffic : List MysqlPacket → List (String × ℕ)
traffic [] = []
traffic (p ∷ ps) = (name packets, 1) ∷ (name data_in, p.len + 4) ∷ traffic ps

abbrev pub size_of : List MysqlPacket → ℕ
size_of [] = 0
size_of (p ∷ ps) = p.len + 4 + size_of ps

traffic-append : (ps qs : List MysqlPacket) → traffic (ps ++ qs) ≡ traffic ps ++ traffic qs
traffic-append [] qs = refl
traffic-append (p ∷ ps) qs =
    ap (λ t. (name packets, 1) ∷ (name data_in, p.len + 4) ∷ t) (traffic-append ps qs)

pub run-append : (c : Counters) (xs ys : List (String × ℕ)) → run c (xs ++ ys) ≡ run (run c xs) ys
run-append c [] ys = refl
run-append c ((n, d) ∷ xs) ys = run-append (add c n d).0 xs ys

pub sum_of-append :
    (n : String) (xs ys : List (String × ℕ)) → sum_of n (xs ++ ys) ≡ sum_of n xs + sum_of n ys
sum_of-append n [] ys = omega arith
sum_of-append n ((m, d) ∷ xs) ys = omega (arith, sum_of-append n xs ys)

pub sum_of-traffic_packets :
    (ps : List MysqlPacket) → sum_of (name packets) (traffic ps) ≡ length ps
sum_of-traffic_packets [] = refl
sum_of-traffic_packets (p ∷ ps) = omega (arith, sum_of-traffic_packets ps)

pub sum_of-traffic_data_in :
    (ps : List MysqlPacket) → sum_of (name data_in) (traffic ps) ≡ size_of ps
sum_of-traffic_data_in [] = refl
sum_of-traffic_data_in (p ∷ ps) = omega (arith, sum_of-traffic_data_in ps)

-- Since the counters were `c`, the packets that were sent are all that was counted.
abbrev pub IsCounted : Counters → MysqlStream → Type 0
IsCounted c s = s.stats ≡ run c (traffic s.sent)

module _ (c : Counters) where
  IsCounted-set_buf :
      (s : MysqlStream) (d : Direction) (b : Option Bytes)
      → IsCounted c s
      → IsCounted c (set_buf s d b)
  IsCounted-set_buf s client_to_server b h = h
  IsCounted-set_buf s server_to_client b h = h

  IsCounted-set_pkt :
      (s : MysqlStream) (d : Direction) (p : Option MysqlPacket)
      → IsCounted c s
      → IsCounted c (set_pkt s d p)
  IsCounted-set_pkt s client_to_server p h = h
  IsCounted-set_pkt s server_to_client p h = h

  IsCounted-kept :
      (s : MysqlStream) (d : Direction) (p : MysqlPacket) → IsCounted c s → IsCounted c (kept s d p)
  unfolding kept
  IsCounted-kept s d p h = elim (Option-cases (get_pkt s d)) [
    | inl e ↦ rw (kept, e) (IsCounted-set_pkt s d (some p) h)
    | inr (q, e) ↦ rw (kept, e) h
  ]

  IsCounted-passed :
      (s : MysqlStream) (d : Direction) (p : MysqlPacket) (b : Bytes)
      → IsCounted c s
      → IsCounted c (passed s d p b)
  unfolding passed
  IsCounted-passed s d p b h =
      let counted = (add (add s.stats (name packets) 1).0 (name data_in) (p.len + 4)).0 in
      let after : MysqlStream = record s { stats = counted; sent = s.sent ++ filled p b ∷ [] } in
      let now : IsCounted c after =
        rw
          (
            traffic-append s.sent (filled p b ∷ []),
            run-append c (traffic s.sent) (traffic (filled p b ∷ [])),
          )
          (ap (λ k. (add (add k (name packets) 1).0 (name data_in) (p.len + 4)).0) h) in
      IsCounted-set_pkt (set_buf after d (some (drop (p.len + 4) b))) d none
        (IsCounted-set_buf after d (some (drop (p.len + 4) b)) now)

  IsCounted-if :
      (b : Bool) (s z : MysqlStream)
      → IsCounted c s
      → IsCounted c z
      → IsCounted c (if b then s else z)
  IsCounted-if true s z h k = h
  IsCounted-if false s z h k = k

  IsCounted-state_of :
      (b : Bool) (x y : Loop)
      → IsCounted c (state_of x)
      → IsCounted c (state_of y)
      → IsCounted c (state_of (if b then x else y))
  IsCounted-state_of true x y h k = h
  IsCounted-state_of false x y h k = k

  IsCounted-drain :
      (fuel : ℕ) (d : Direction) (t : ℤ) (s : MysqlStream)
      → IsCounted c s
      → IsCounted c (drain fuel d t s)
  unfolding drain_loop
  IsCounted-drain zero d t s h = h
  IsCounted-drain (suc fuel) d t s h = elim (Option-cases (get_buf s d)) [
    | inl e ↦ rw (drain_loop, e) h
    | inr (b, e) ↦ elim (Option-cases (packet_of s d t b)) [
      | inl k ↦ rw (drain_loop, e, k) h
      | inr (p, k) ↦
          rw (drain_loop, e, k)
            (IsCounted-state_of (length b == 0) _ _ h (
              IsCounted-state_of (ltb (length b) (p.len + 4)) _ _ (IsCounted-kept s d p h)
                (IsCounted-drain fuel d t (passed s d p b) (IsCounted-passed s d p b h))))
    ]
  ]

  IsCounted-later :
      (s : MysqlStream) (d : Direction) (t : Option ℤ) → IsCounted c s → IsCounted c (later s d t)
  IsCounted-later s d none h = h
  IsCounted-later s d (some t) h = IsCounted-if (ltb_ℤ (get_time s d) t) _ _ (set d) h
    where
      set : (d : Direction) → IsCounted c (set_time s d t)
      set client_to_server = h
      set server_to_client = h

  IsCounted-write :
      (s : MysqlStream) (d : Direction) (skip : ℤ) (x : Bytes)
      → IsCounted c s
      → IsCounted c (write s d skip x)
  unfolding write
  IsCounted-write s d skip x h = elim (Option-cases (get_buf s d)) [
    | inl e ↦
        rw (write, e)
          (IsCounted-if (refused s d x) _ _ h (
            IsCounted-drain (suc (length x)) d (get_time s d) _ (IsCounted-set_buf s d (some x) h)))
    | inr (b, e) ↦
        let all = b ++ (skipped skip ++ x) in
        rw (write, e)
          (IsCounted-drain (suc (length all)) d (get_time s d) _
            (IsCounted-set_buf s d (some all) h))
  ]

  IsCounted-reassembled_sg :
      (s z : MysqlStream) (g : Segment)
      → IsCounted c s
      → reassembled_sg s g ≡ some z
      → IsCounted c z
  unfolding reassembled_sg
  IsCounted-reassembled_sg s z g h r = elim (Option-cases (trimmed g.skip g.data_bytes)) [
    | inl e ↦ elim (Bool-cases (length g.data_bytes == 0)) [
      | inl k ↦ let same : z ≡ s = cc (rw (reassembled_sg, e, k) at r) in rw same h
      | inr k ↦ cc (rw (reassembled_sg, e, k) at r)
    ]
    | inr (x, e) ↦ elim (Bool-cases (length g.data_bytes == 0)) [
      | inl k ↦ let same : z ≡ s = cc (rw (reassembled_sg, e, k) at r) in rw same h
      | inr k ↦
          let y = write (later s g.dir g.stamp) g.dir g.skip x in
          let same : z ≡ y = cc (rw (reassembled_sg, e, k) at r) in
          rw same (
            IsCounted-write (later s g.dir g.stamp) g.dir g.skip x
              (IsCounted-later s g.dir g.stamp h))
    ]
  ]

  pub IsCounted-reassembled :
      (gs : List Segment) (s z : MysqlStream)
      → IsCounted c s
      → reassembled s gs ≡ some z
      → IsCounted c z
  unfolding reassembled
  IsCounted-reassembled [] s z h r = let same : z ≡ s = cc in rw same h
  IsCounted-reassembled (g ∷ gs) s z h r = elim (Option-cases (reassembled_sg s g)) [
    | inl e ↦ cc (rw (reassembled, e) at r)
    | inr (y, e) ↦
        IsCounted-reassembled gs y z (IsCounted-reassembled_sg s y g h e) (rw (reassembled, e) at r)
  ]
