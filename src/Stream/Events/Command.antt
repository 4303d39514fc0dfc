-- ===== src/Stream/Events/Command.antt =====
-- A command that comes in packets of its own, from the first packet to the event.
use mysql_replay.Base.{
  ℕ, ◌+◌, ◌≤◌, ◌<◌, Bool, false, List, [], ◌∷◌, ◌++◌, append-nil, append_assoc, some, ◌≡◌, ◌≢◌, ◌∙◌,
  refl, sym, ap, arith, Bytes, All, length, ==_iff, ne→==, lt→ltb,
}
use mysql_replay.Base.Int.{ℤ}
use mysql_replay.Stream.Events.{EventHandler}
use mysql_replay.Stream.Fsm.Invariant.{Consecutive}
use mysql_replay.Stream.Fsm.Load.{IsCommand, last, full, no_more, load-found}
use mysql_replay.Stream.Fsm.Machine.{init, com_quit_state, Fsm, set, ready, short, next_seq, joined}
use mysql_replay.Stream.Fsm.{
  handle, handle_appended, handle_init_packet, handle_ready, handle_command,
}
use mysql_replay.Stream.Packet.{MysqlPacket, max_packet_size}
use mysql_replay.Stream.Events.Feed.{
  feed, finish, last_packet-append, code-ne, next_seq-append, feed-last, feed-full,
}

-- The machine that has loaded the command `c`.
abbrev pub with_command : Bool → Fsm → List MysqlPacket → Fsm
with_command changed m c = record m {
  changed = changed;
  state = init;
  packets = c;
  buffer = joined c;
  start = 0;
  count = length c;
}

-- The time of the last packet.
abbrev pub end_time : ℤ → List MysqlPacket → ℤ
end_time t [] = t
end_time t (p ∷ ps) = end_time p.time ps

abbrev pub end_spare : (ℕ → Bytes) → List MysqlPacket → Bytes
end_spare spares [] = spares 0
end_spare spares (p ∷ []) = spares 0
end_spare spares (p ∷ q ∷ ps) = end_spare (λ n. spares (n + 1)) (q ∷ ps)

-- The first packet of a command.
handle-first :
    (spare : Bytes) (m : Fsm) (p : MysqlPacket)
    → m.state ≢ com_quit_state
    → p.seq ≡ 0
    → handle spare m p
      ≡ handle_appended spare
          (record (set (record m { changed = false }) init) { packets = p ∷ [] })
unfolding handle
handle-first spare m p running e = rw (code-ne m.state running, e) refl

-- A packet behind those of the command so far.
pub handle-next :
    (spare : Bytes) (m : Fsm) (p : MysqlPacket)
    → m.state ≢ com_quit_state
    → p.seq ≢ 0
    → next_seq m ≡ p.seq
    → handle spare m p
      ≡ handle_appended spare (record m { changed = false; packets = m.packets ++ p ∷ [] })
unfolding handle next_seq
handle-next spare m p running first next =
    rw (code-ne m.state running, ne→== p.seq 0 first, (==_iff _ _).1 next) refl

handle_appended-full :
    (spare : Bytes) (m : Fsm) (ps : List MysqlPacket) (p : MysqlPacket)
    → m.packets ≡ ps ++ p ∷ []
    → p.len ≡ max_packet_size
    → handle_appended spare m ≡ some m
unfolding handle_appended ready
handle_appended-full spare m ps p e size = rw (e, last_packet-append ps p, size) refl

handle_appended-last :
    (spare : Bytes) (m : Fsm) (ps : List MysqlPacket) (p : MysqlPacket)
    → m.state ≡ init
    → m.packets ≡ ps ++ p ∷ []
    → p.len < max_packet_size
    → handle_appended spare m ≡ handle_init_packet spare m
unfolding handle_appended ready handle_ready
handle_appended-last spare m ps p s e size =
    rw (e, last_packet-append ps p, lt→ltb _ _ size, s) refl

-- The command is loaded whole.
handle_init_packet-command :
    (spare : Bytes) (m : Fsm)
    → m.state ≡ init
    → IsCommand m.packets
    → handle_init_packet spare m ≡ handle_command spare (with_command m.changed m m.packets)
unfolding handle_init_packet
handle_init_packet-command spare m e c =
    rw (load-found m [] no_more c (sym (append-nil m.packets)))
      (ap (λ s. handle_command spare (record (with_command m.changed m m.packets) { state = s })) e)

last-length : {c : List MysqlPacket} → IsCommand c → 0 < length c
last-length (last p h) = omega arith
last-length (full p h c) = omega arith

end_spare-full :
    (spares : ℕ → Bytes) (p : MysqlPacket) {c : List MysqlPacket}
    → IsCommand c
    → end_spare spares (p ∷ c) ≡ end_spare (λ n. spares (n + 1)) c
end_spare-full spares p (last q h) = refl
end_spare-full spares p (full q h c) = refl

-- Packets of at most the size that their three bytes of length can tell.
abbrev pub Sizes : List MysqlPacket → Type 0
Sizes = All (λ p. p.len ≤ max_packet_size)

-- The rest of a command that has begun.
feed-rest :
    (spares : ℕ → Bytes) (h : EventHandler) {c : List MysqlPacket} (t : ℤ)
    → h.fsm.state ≡ init
    → IsCommand c
    → Sizes c
    → 0 < next_seq h.fsm
    → Consecutive (next_seq h.fsm) c
    → IsCommand (h.fsm.packets ++ c)
    → feed spares h c
      ≡ finish
          (end_time t c)
          h.events
          (handle_command (end_spare spares c) (with_command false h.fsm (h.fsm.packets ++ c)))
feed-rest spares h t e (last p short) sizes begun seq whole =
    let m = record h.fsm { changed = false; packets = h.fsm.packets ++ p ∷ [] } in
    rw
      (
        feed-last spares h p,
        handle-next (spares 0) h.fsm p (λ q. cc (e, q)) (λ z. omega (arith, seq.0)) (sym seq.0),
        handle_appended-last (spares 0) m h.fsm.packets p e refl (omega (arith, sizes.0, short)),
        handle_init_packet-command (spares 0) m e whole,
      )
      refl
feed-rest spares h t e (full p {ps = c} size rest) sizes begun seq whole =
    let m = record h.fsm { changed = false; packets = h.fsm.packets ++ p ∷ [] } in
    let step : handle (spares 0) h.fsm p ≡ some m =
      handle-next (spares 0) h.fsm p (λ q. cc (e, q)) (λ z. omega (arith, seq.0)) (sym seq.0)
      ∙ handle_appended-full (spares 0) m h.fsm.packets p refl size in
    let next : next_seq m ≡ next_seq h.fsm + 1 =
      next_seq-append m h.fsm.packets p refl ∙ ap (λ n. n + 1) seq.0 in
    let assoc = append_assoc h.fsm.packets (p ∷ []) c in
    rw (feed-full spares h p c h.fsm.packets m step refl size) (
      feed-rest (λ n. spares (n + 1)) (record h { fsm = m }) p.time e rest sizes.1
        (rw next (omega (arith, begun))) (rw next seq.1) (rw assoc whole)
      ∙ rw (end_spare-full spares p rest, assoc) refl)

-- A session has not quit. The packets of a command, numbered from 0, of at most the size that
-- three bytes can tell, come to what the handler of commands makes of the packets' data, joined.
pub feed-command :
    (spares : ℕ → Bytes) (h : EventHandler) {c : List MysqlPacket} (t : ℤ)
    → h.fsm.state ≢ com_quit_state
    → IsCommand c
    → Sizes c
    → Consecutive 0 c
    → (changed : Bool) × (feed spares h c
        ≡ finish
            (end_time t c)
            h.events
            (handle_command (end_spare spares c) (with_command changed h.fsm c)))
unfolding set
feed-command spares h t e (last p short) sizes seq =
    let m = record (set (record h.fsm { changed = false }) init) { packets = p ∷ [] } in
    (
      m.changed,
      rw
          (
            feed-last spares h p,
            handle-first (spares 0) h.fsm p e seq.0,
            handle_appended-last (spares 0) m [] p refl refl (omega (arith, sizes.0, short)),
            handle_init_packet-command (spares 0) m refl (last p short),
          )
          refl,
    )
feed-command spares h t e (full p {ps = c} size rest) sizes seq =
    let m = record (set (record h.fsm { changed = false }) init) { packets = p ∷ [] } in
    let step : handle (spares 0) h.fsm p ≡ some m =
      handle-first (spares 0) h.fsm p e seq.0 ∙ handle_appended-full (spares 0) m [] p refl size in
    let next : next_seq m ≡ 1 = next_seq-append m [] p refl ∙ ap (λ n. n + 1) seq.0 in
    (
      false,
      rw (feed-full spares h p c [] m step refl size) (
          feed-rest (λ n. spares (n + 1)) (record h { fsm = m }) p.time refl rest sizes.1
            (rw next (omega arith)) (rw next seq.1) (full p size rest)
          ∙ rw (end_spare-full spares p rest) refl),
    )
