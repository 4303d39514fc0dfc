-- ===== src/Stream/Reassembly/Segments.antt =====
-- stream/stream.go: `ReassembledSG` on the segments of a connection.
use mysql_replay.Base.{
  ℕ, suc, zero, ◌+◌, ◌≤◌, ◌<◌, Bool, true, false, not, ◌&&◌, List, [], ◌∷◌, ◌++◌, Option, none,
  some, Bytes, ◌≡◌, ◌⊎◌, inl, inr, refl, sym, ap, ◌∙◌, arith, length, take, drop, ltb, leb, ltb→lt,
  ◌==◌, if◌then◌else◌, length-append, length-drop, append-nil, append_assoc, Bool-cases,
  Option-cases, All, length-eq-zero,
}
use mysql_replay.Base.Int.{ℤ, pos, negsuc}
use mysql_replay.Stream.Packet.{Direction, client_to_server, server_to_client, MysqlPacket}
use mysql_replay.Stream.Reassembly.Reads.{
  IsPart, Reads-append, lookup_packet_len-append, lookup_packet_seq-append,
}
use mysql_replay.Stream.Reassembly.Invariant.{
  frames_of, held, IsPending, Holds, Follows, Found, packet_of-none, packet_of-Found,
}
use mysql_replay.Stream.Reassembly.Drain.{
  Alike, Alike-refl, Alike-trans, Alike-passed, Alike-kept, Holds-passed, Holds-kept, get_buf-kept,
  get_buf-passed,
}
use mysql_replay.Stream.Reassembly.{
  MysqlStream, reverse, get_buf, set_buf, get_time, set_time, later, packet_of, kept, passed,
  drain_loop, drain, skipped, refused, write,
}

-- What the loop leaves: all whole packets of the direction are sent, and the other is as it was.
pub record Drained (d : Direction) (w : Bytes) (s z : MysqlStream) : Type 0 where
  pub follows : Follows z d w
  pub alike : Alike (reverse d) s z
  pub some_buf : (b : Bytes) × (get_buf z d ≡ some b)

module _ (d : Direction) (t : ℤ) (w : Bytes) where
  stop :
      (s : MysqlStream) (b : Bytes)
      → get_buf s d ≡ some b
      → Holds s d w
      → IsPart b
      → Drained d w s s
  stop s b e h part = record {
    follows = record { holds = h; part = rw e part };
    alike = Alike-refl (reverse d) s;
    some_buf = (b, e);
  }

  pub drain-Drained :
      (fuel : ℕ) (s : MysqlStream) (b : Bytes)
      → get_buf s d ≡ some b
      → Holds s d w
      → length b ≤ fuel
      → Drained d w s (drain fuel d t s)
  unfolding drain_loop
  drain-Drained zero s b e h enough = stop s b e h (inl (omega arith))
  drain-Drained (suc fuel) s b e h enough = elim (Option-cases (packet_of s d t b)) [
    | inl k ↦ rw (drain_loop, e, k) (stop s b e h (inl (packet_of-none s d t b k)))
    | inr (p, k) ↦
        let f : Found d b p = packet_of-Found s d t b p (rw e at h.pending) k in
        elim (Bool-cases (length b == 0)) [
          | inl q ↦ rw (drain_loop, e, k, q) (stop s b e h (inl (ground arith)))
          | inr q ↦ elim (Bool-cases (ltb (length b) (p.len + 4))) [
            | inl short ↦ rw (drain_loop, e, k, q, short) (waits s b p e h f (ltb→lt _ _ short))
            | inr long ↦
                let (x, y, z) = f in
                let whole : p.len + 4 ≤ length b = ground arith in
                let next = passed s d p b in
                let rest : Drained d w next (drain fuel d t next) =
                  drain-Drained fuel next (drop (p.len + 4) b) (get_buf-passed s p b d)
                    (Holds-passed s p b d w e h f whole)
                    (omega (arith, length-drop (p.len + 4) b)) in
                rw (drain_loop, e, k, q, long)
                  (record {
                    follows = rest.follows;
                    alike = Alike-trans (reverse d) s next _ (Alike-passed s p b d x) rest.alike;
                    some_buf = rest.some_buf;
                  })
          ]
        ]
  ]
    where
      waits :
          (s : MysqlStream) (b : Bytes) (p : MysqlPacket)
          → get_buf s d ≡ some b
          → Holds s d w
          → Found d b p
          → length b < p.len + 4
          → Drained d w s (kept s d p)
      waits s b p e h (x, y, z) short = record {
        follows = record {
          holds = Holds-kept s p b d w e h (x, y, z);
          part = rw (get_buf-kept s p b d, e) (inr (p.len, y, short));
        };
        alike = Alike-kept s p b d;
        some_buf = (b, get_buf-kept s p b d ∙ e);
      }

module _ (d : Direction) where
  IsPending-append :
      (b x : Bytes) (p : Option MysqlPacket) → IsPending d b p → IsPending d (b ++ x) p
  IsPending-append b x none h = tt
  IsPending-append b x (some p) (e, f, g) =
      (e, lookup_packet_len-append b x p.len f, lookup_packet_seq-append b x p.seq g)

-- More bytes behind what is left.
Holds-extend :
    (s : MysqlStream) (d : Direction) (w x : Bytes)
    → Holds s d w
    → Holds (set_buf s d (some (held (get_buf s d) ++ x))) d (w ++ x)
Holds-extend s client_to_server w x h = record {
  reads =
      let more = Reads-append (frames_of client_to_server s.sent) [] w _ x _ h.reads refl in
      rw (sym (append-nil (frames_of client_to_server s.sent))) more;
  pending = IsPending-append client_to_server (held s.buf0) x s.pkt0 h.pending;
}
Holds-extend s server_to_client w x h = record {
  reads =
      let more = Reads-append (frames_of server_to_client s.sent) [] w _ x _ h.reads refl in
      rw (sym (append-nil (frames_of server_to_client s.sent))) more;
  pending = IsPending-append server_to_client (held s.buf1) x s.pkt1 h.pending;
}

get_buf-set_buf :
    (s : MysqlStream) (d : Direction) (b : Option Bytes) → get_buf (set_buf s d b) d ≡ b
get_buf-set_buf s client_to_server b = refl
get_buf-set_buf s server_to_client b = refl

Alike-set_buf :
    (s : MysqlStream) (d : Direction) (b : Option Bytes) → Alike (reverse d) s (set_buf s d b)
Alike-set_buf s client_to_server b = record { buf = refl; pkt = refl; frames = refl }
Alike-set_buf s server_to_client b = record { buf = refl; pkt = refl; frames = refl }

pub Alike-later : (s : MysqlStream) (d e : Direction) (t : Option ℤ) → Alike e s (later s d t)
Alike-later s d e none = Alike-refl e s
Alike-later s d e (some t) = choose (mysql_replay.Base.Int.ltb_ℤ (get_time s d) t) (at d e)
  where
    at : (d e : Direction) → Alike e s (set_time s d t)
    at client_to_server client_to_server = record { buf = refl; pkt = refl; frames = refl }
    at client_to_server server_to_client = record { buf = refl; pkt = refl; frames = refl }
    at server_to_client client_to_server = record { buf = refl; pkt = refl; frames = refl }
    at server_to_client server_to_client = record { buf = refl; pkt = refl; frames = refl }

    choose : (b : Bool) → Alike e s (set_time s d t) → Alike e s (if b then set_time s d t else s)
    choose true a = a
    choose false a = Alike-refl e s

-- The direction has a buffer, or its first segment is not refused.
abbrev pub Accepts : MysqlStream → Direction → Bytes → Type 0
Accepts s d bytes = ((b : Bytes) × (get_buf s d ≡ some b)) ⊎ (refused s d bytes ≡ false)

-- What is written: on a first segment the skipped bytes are not filled in.
abbrev pub given : Option Bytes → ℤ → Bytes → Bytes
given none skip bytes = bytes
given (some b) skip bytes = skipped skip ++ bytes

module _ (s : MysqlStream) (d : Direction) (w : Bytes) (h : Holds s d w) where
  drain-set_buf :
      (t : ℤ) (x : Bytes)
      → let all = held (get_buf s d) ++ x in
        Drained d (w ++ x) s (drain (suc (length all)) d t (set_buf s d (some all)))
  drain-set_buf t x =
      let all = held (get_buf s d) ++ x in
      let next = set_buf s d (some all) in
      let rest : Drained d (w ++ x) next (drain (suc (length all)) d t next) =
        drain-Drained d t (w ++ x) (suc (length all)) next all (get_buf-set_buf s d (some all))
          (Holds-extend s d w x h) (omega arith) in
      record {
        follows = rest.follows;
        alike = Alike-trans (reverse d) s next _ (Alike-set_buf s d (some all)) rest.alike;
        some_buf = rest.some_buf;
      }

  pub write-Drained :
      (skip : ℤ) (bytes : Bytes)
      → Accepts s d bytes
      → Drained d (w ++ given (get_buf s d) skip bytes) s (write s d skip bytes)
  unfolding write
  write-Drained skip bytes a = elim (Option-cases (get_buf s d)) [
    | inr (b, e) ↦ rw (write, e) (rw e at (drain-set_buf (get_time s d) (skipped skip ++ bytes)))
    | inl e ↦
        let free : refused s d bytes ≡ false = first e a in
        rw (write, e, free) (rw e at (drain-set_buf (get_time s d) bytes))
  ]
    where
      first : get_buf s d ≡ none → Accepts s d bytes → refused s d bytes ≡ false
      first e (inr f) = f
      first e (inl (b, f)) = cc
