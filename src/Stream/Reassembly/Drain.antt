-- ===== src/Stream/Reassembly/Drain.antt =====
-- stream/stream.go: the loop of `ReassembledSG`.
use mysql_replay.Base.{
  ◌+◌, ◌≤◌, true, false, [], ◌∷◌, ◌++◌, none, some, Bytes, ◌≡◌, inl, inr, refl, ◌∙◌, length, drop,
  append-nil, Option-cases,
}
use mysql_replay.Stream.Packet.{
  Direction, client_to_server, server_to_client, same_dir, MysqlPacket,
}
use mysql_replay.Stream.Reassembly.Reads.{frame, Starts, Reads, Reads-more}
use mysql_replay.Stream.Reassembly.Invariant.{
  frames_of, frames_of-append, IsPending, Holds, Follows, Found,
}
use mysql_replay.Stream.Reassembly.{
  MysqlStream, reverse, get_buf, get_pkt, set_pkt, kept, filled, passed,
}

-- What `s` and `z` know of a direction is the same.
pub record Alike (d : Direction) (s z : MysqlStream) : Type 0 where
  pub buf : get_buf z d ≡ get_buf s d
  pub pkt : get_pkt z d ≡ get_pkt s d
  pub frames : frames_of d z.sent ≡ frames_of d s.sent

pub Alike-refl : (d : Direction) (s : MysqlStream) → Alike d s s
Alike-refl d s = record { buf = refl; pkt = refl; frames = refl }

pub Alike-trans : (d : Direction) (s z y : MysqlStream) → Alike d s z → Alike d z y → Alike d s y
Alike-trans d s z y a b = record {
  buf = b.buf ∙ a.buf;
  pkt = b.pkt ∙ a.pkt;
  frames = b.frames ∙ a.frames;
}

pub Follows-Alike :
    (d : Direction) (s z : MysqlStream) (w : Bytes) → Alike d s z → Follows s d w → Follows z d w
Follows-Alike d s z w a f = record {
  holds = record {
    reads = rw (a.buf, a.frames) f.holds.reads;
    pending = rw (a.buf, a.pkt) f.holds.pending;
  };
  part = rw a.buf f.part;
}

same_dir_refl : (d : Direction) → same_dir d d ≡ true
same_dir_refl client_to_server = refl
same_dir_refl server_to_client = refl

same_dir-reverse : (d : Direction) → same_dir d (reverse d) ≡ false
same_dir-reverse client_to_server = refl
same_dir-reverse server_to_client = refl

module _ (s : MysqlStream) (p : MysqlPacket) (b : Bytes) where
  pub get_buf-passed : (d : Direction) → get_buf (passed s d p b) d ≡ some (drop (p.len + 4) b)
  unfolding passed
  get_buf-passed client_to_server = refl
  get_buf-passed server_to_client = refl

  get_pkt-passed : (d : Direction) → get_pkt (passed s d p b) d ≡ none
  unfolding passed
  get_pkt-passed client_to_server = refl
  get_pkt-passed server_to_client = refl

  sent-passed : (d : Direction) → (passed s d p b).sent ≡ s.sent ++ filled p b ∷ []
  unfolding passed
  sent-passed client_to_server = refl
  sent-passed server_to_client = refl

  frames_of-passed :
      (d : Direction)
      → p.dir ≡ d
      → frames_of d (passed s d p b).sent ≡ frames_of d s.sent ++ frame (filled p b) ∷ []
  frames_of-passed d e =
      rw (sent-passed d, frames_of-append d s.sent (filled p b ∷ []), e, same_dir_refl d) refl

  frames_of-passed_other :
      (d : Direction)
      → p.dir ≡ d
      → frames_of (reverse d) (passed s d p b).sent ≡ frames_of (reverse d) s.sent
  frames_of-passed_other d e =
      rw
        (
          sent-passed d,
          frames_of-append (reverse d) s.sent (filled p b ∷ []),
          e,
          same_dir-reverse d,
        )
        (append-nil (frames_of (reverse d) s.sent))

  pub Alike-passed : (d : Direction) → p.dir ≡ d → Alike (reverse d) s (passed s d p b)
  unfolding passed
  Alike-passed client_to_server e = record {
    buf = refl;
    pkt = refl;
    frames = frames_of-passed_other client_to_server e;
  }
  Alike-passed server_to_client e = record {
    buf = refl;
    pkt = refl;
    frames = frames_of-passed_other server_to_client e;
  }

  pub Alike-kept : (d : Direction) → Alike (reverse d) s (kept s d p)
  unfolding kept
  Alike-kept d = elim (Option-cases (get_pkt s d)) [
    | inl e ↦ rw (kept, e) (set d)
    | inr (q, e) ↦ rw (kept, e) (Alike-refl (reverse d) s)
  ]
    where
      set : (e : Direction) → Alike (reverse e) s (set_pkt s e (some p))
      set client_to_server = record { buf = refl; pkt = refl; frames = refl }
      set server_to_client = record { buf = refl; pkt = refl; frames = refl }

  pub Holds-passed :
      (d : Direction) (w : Bytes)
      → get_buf s d ≡ some b
      → Holds s d w
      → Found d b p
      → p.len + 4 ≤ length b
      → Holds (passed s d p b) d w
  Holds-passed d w e h (x, y, z) long = record {
    reads =
        let before : Reads (frames_of d s.sent) w b = (rw e at h.reads) in
        let this : Starts (frame (filled p b)) b = record {
          size = y;
          number = z;
          whole = long;
          content = refl;
        } in
        rw (frames_of-passed d x, get_buf-passed d)
          (Reads-more (frames_of d s.sent) (frame (filled p b) ∷ []) w b (drop (p.len + 4) b) before
            (this, refl));
    pending = rw (get_buf-passed d, get_pkt-passed d) tt;
  }

  pub Holds-kept :
      (d : Direction) (w : Bytes)
      → get_buf s d ≡ some b
      → Holds s d w
      → Found d b p
      → Holds (kept s d p) d w
  unfolding kept
  Holds-kept d w e h (x, y, z) = elim (Option-cases (get_pkt s d)) [
    | inr (q, k) ↦ rw (kept, k) h
    | inl k ↦ rw (kept, k) (set d (rw e at h.reads) e (x, y, z))
  ]
    where
      set :
          (d : Direction)
          → Reads (frames_of d s.sent) w b
          → get_buf s d ≡ some b
          → IsPending d b (some p)
          → Holds (set_pkt s d (some p)) d w
      set client_to_server r e q = record { reads = rw e r; pending = rw e q }
      set server_to_client r e q = record { reads = rw e r; pending = rw e q }

  pub get_buf-kept : (d : Direction) → get_buf (kept s d p) d ≡ get_buf s d
  unfolding kept
  get_buf-kept d = elim (Option-cases (get_pkt s d)) [
    | inr (q, k) ↦ rw (kept, k) refl
    | inl k ↦ rw (kept, k) (set d)
  ]
    where
      set : (d : Direction) → get_buf (set_pkt s d (some p)) d ≡ get_buf s d
      set client_to_server = refl
      set server_to_client = refl
