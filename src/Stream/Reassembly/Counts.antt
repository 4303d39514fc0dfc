-- ===== src/Stream/Reassembly/Counts.antt =====
-- stream/stream.go: the counters of packets and bytes, the fuel of the loop, and what a stream that
-- has just been made refuses.
use Prim.Native.String.{String}
use mysql_replay.Base.{
  ℕ, suc, zero, ◌+◌, ◌≤◌, ◌<◌, ◌%◌, ◌^◌, false, List, ◌∷◌, ◌++◌, Option, none, some, Bytes, ◌≡◌,
  ◌≢◌, inl, inr, refl, sym, ap, ◌∙◌, arith, length, drop, ltb, ◌==◌, length-drop, Bool-cases,
  Option-cases, ne→==,
}
use mysql_replay.Base.Int.{ℤ}
use mysql_replay.Stats.Counter.{Counters, name, packets, data_in, streams, add, get}
use mysql_replay.Stats.Laws.{run, sum_of, initial, get-run}
use mysql_replay.Stream.Packet.{Direction}
use mysql_replay.Stream.Reassembly.Drain.{Alike, get_buf-passed}
use mysql_replay.Stream.Reassembly.Runs.{get_buf-new_stream}
use mysql_replay.Stream.Reassembly.Steps.{reassembled}
use mysql_replay.Stream.Reassembly.Segments.{Alike-later}
use mysql_replay.Stream.Reassembly.{
  MysqlStream, Segment, new_stream, reverse, get_buf, packet_of, kept, passed, returned, state_of,
  drain_loop, drain, later, trimmed, write, reassembled_sg, lookup_packet_seq, starts,
}
use mysql_replay.Stream.Reassembly.Traffic.{
  traffic, size_of, run-append, sum_of-append, sum_of-traffic_packets, sum_of-traffic_data_in,
  IsCounted, IsCounted-reassembled,
}

-- Whatever segments a new connection brings, skipped and repeated bytes included, the counter of
-- packets goes up by the number of packets that were sent, and the counter of incoming bytes by
-- their sizes with the four bytes of their headers, modulo 2 ^ 64.
pub reassembled-counters :
    (ops : List (String × ℕ)) (gs : List Segment) (z : MysqlStream)
    → reassembled (new_stream (run initial ops)) gs ≡ some z
    → (get z.stats (name packets) ≡ (sum_of (name packets) ops + length z.sent) % 2 ^ 64)
      × (get z.stats (name data_in) ≡ (sum_of (name data_in) ops + size_of z.sent) % 2 ^ 64)
unfolding new_stream
reassembled-counters ops gs z r =
    let start = (add (run initial ops) (name streams) 1).0 in
    let counted : IsCounted start z = IsCounted-reassembled start gs _ z refl r in
    let calls = ops ++ (name streams, 1) ∷ traffic z.sent in
    let all : z.stats ≡ run initial calls =
      counted ∙ sym (run-append initial ops ((name streams, 1) ∷ traffic z.sent)) in
    let total : (n : String)
        → get z.stats n ≡ (sum_of n ops + sum_of n ((name streams, 1) ∷ traffic z.sent)) % 2 ^ 64 =
      λ n.
        rw (all, get-run calls n, sum_of-append n ops ((name streams, 1) ∷ traffic z.sent)) refl in
    (
      rw (total (name packets), sum_of-traffic_packets z.sent) (omega arith),
      rw (total (name data_in), sum_of-traffic_data_in z.sent) (omega arith),
    )

-- With either fuel the loop returns, and in the same state.
abbrev Ends : Direction → ℤ → MysqlStream → ℕ → ℕ → Type 0
Ends d t s n m =
    (z : MysqlStream) × (drain_loop n d t s ≡ returned z) × (drain_loop m d t s ≡ returned z)

drain_loop-Ends :
    (n m : ℕ) (d : Direction) (t : ℤ) (s : MysqlStream) (b : Bytes)
    → get_buf s d ≡ some b
    → length b < n
    → length b < m
    → Ends d t s n m
unfolding drain_loop
drain_loop-Ends zero m d t s b e p q = absurd (omega (arith, p))
drain_loop-Ends (suc n) zero d t s b e p q = absurd (omega (arith, q))
drain_loop-Ends (suc n) (suc m) d t s b e p q = elim (Option-cases (packet_of s d t b)) [
  | inl k ↦ (s, rw (drain_loop, e, k) refl, rw (drain_loop, e, k) refl)
  | inr (x, k) ↦ elim (Bool-cases (length b == 0)) [
    | inl z ↦ (s, rw (drain_loop, e, k, z) refl, rw (drain_loop, e, k, z) refl)
    | inr z ↦ elim (Bool-cases (ltb (length b) (x.len + 4))) [
      | inl short ↦
          (kept s d x, rw (drain_loop, e, k, z, short) refl, rw (drain_loop, e, k, z, short) refl)
      | inr long ↦
          let shorter : length (drop (x.len + 4) b) + 1 ≤ length b =
            ground (arith, length-drop (x.len + 4) b) in
          let (y, by_n, by_m) =
            drain_loop-Ends n m d t (passed s d x b) (drop (x.len + 4) b) (get_buf-passed s x b d)
              (omega (arith, shorter, p)) (omega (arith, shorter, q)) in
          (y, rw (drain_loop, e, k, z, long) by_n, rw (drain_loop, e, k, z, long) by_m)
    ]
  ]
]

-- The loop over a buffer ends by itself: with fuel for more rounds than the buffer has bytes it returns,
-- and in the state that it has with the fuel that `write` gives it, whatever the fuel is.
pub drain_loop-returned :
    (n : ℕ) (d : Direction) (t : ℤ) (s : MysqlStream) (b : Bytes)
    → get_buf s d ≡ some b
    → length b < n
    → drain_loop n d t s ≡ returned (drain (suc (length b)) d t s)
drain_loop-returned n d t s b e enough =
    let (z, by_n, by_length) = drain_loop-Ends n (suc (length b)) d t s b e enough (omega arith) in
    by_n ∙ ap (λ l. returned (state_of l)) (sym by_length)

starts-ne : (o : Option ℕ) → o ≢ some 0 → starts o ≡ false
starts-ne none ne = refl
starts-ne (some q) ne = ne→== q 0 (λ e. ne (ap some e))

-- The first segment of a connection, where it is shorter than four bytes or starts no packet of
-- number 0, is lost: the stream goes on as if the segment had not come, but for the time.
pub reassembled_sg-refused :
    (c : Counters) (g : Segment) (x : Bytes)
    → length g.data_bytes ≢ 0
    → trimmed g.skip g.data_bytes ≡ some x
    → lookup_packet_seq x ≢ some 0
    → reassembled_sg (new_stream c) g ≡ some (later (new_stream c) g.dir g.stamp)
unfolding reassembled_sg write
reassembled_sg-refused c g x full e ne =
    let s = later (new_stream c) g.dir g.stamp in
    let empty : (d : Direction) → get_buf s d ≡ none = λ d.
      let a : Alike d (new_stream c) s = Alike-later (new_stream c) g.dir d g.stamp in
      a.buf ∙ get_buf-new_stream c d in
    rw
      (
        reassembled_sg,
        e,
        ne→== (length g.data_bytes) 0 full,
        write,
        empty g.dir,
        empty (reverse g.dir),
        starts-ne (lookup_packet_seq x) ne,
      )
      refl
