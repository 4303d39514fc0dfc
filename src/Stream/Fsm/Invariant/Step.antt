-- ===== src/Stream/Fsm/Invariant/Step.antt =====
-- stream/mysql.go: `Handle`, its steps over the packets of a session, and the invariant.
use mysql_replay.Base.{
  ℕ, ◌+◌, true, false, not, List, [], ◌∷◌, ◌++◌, some, ◌≡◌, inl, inr, refl, sym, Bytes, ◌==◌,
  ==_iff, Bool-cases,
}
use mysql_replay.Stream.Fsm.Invariant.{
  Consecutive, IsValid, Core, Keeps, if-Keeps, load-Core, unknown-IsValid,
}
use mysql_replay.Stream.Fsm.Invariant.Commands.{
  handle_command-Keeps, handle_com_stmt_prepare_response-Keeps,
}
use mysql_replay.Stream.Fsm.Invariant.Handshake.{handle_handshake_response-Keeps}
use mysql_replay.Stream.Fsm.Machine.{
  State, init, unknown, com_query_state, com_stmt_execute_state, com_stmt_close_state,
  com_stmt_prepare0, com_stmt_prepare1, com_quit_state, handshake0, handshake1, code, Fsm,
  new_mysql_fsm, set, load, ready, next_seq, last_packet, seq_after,
}
use mysql_replay.Stream.Fsm.{handle_init_packet, handle_ready, handle_appended, handle}
use mysql_replay.Stream.Packet.{MysqlPacket}

handle_init_packet-Keeps : (spare : Bytes) (m : Fsm) → Core m → Keeps (handle_init_packet spare m)
unfolding handle_init_packet
handle_init_packet-Keeps spare m c =
    if-Keeps (not (load 0 m).1) _ _ (unknown-IsValid (load 0 m).0 (load-Core 0 m c))
      (handle_command-Keeps spare (load 0 m).0 (load-Core 0 m c))

-- The packets and the table of a valid machine.
core : (m : Fsm) → IsValid m → Core m
core m v = record { numbered = v.numbered; table = v.table }

handle_ready-Keeps :
    (spare : Bytes) (s : State) (m : Fsm) → s ≡ m.state → IsValid m → Keeps (handle_ready spare s m)
unfolding handle_ready
handle_ready-Keeps spare init m e v = handle_init_packet-Keeps spare m (core m v)
handle_ready-Keeps spare unknown m e v = v
handle_ready-Keeps spare com_query_state m e v = v
handle_ready-Keeps spare com_stmt_execute_state m e v = v
handle_ready-Keeps spare com_stmt_close_state m e v = v
handle_ready-Keeps spare com_stmt_prepare0 m e v =
    handle_com_stmt_prepare_response-Keeps m (core m v) (rw (sym e) at v.prepared)
handle_ready-Keeps spare com_stmt_prepare1 m e v = v
handle_ready-Keeps spare com_quit_state m e v = v
handle_ready-Keeps spare handshake0 m e v = handle_handshake_response-Keeps m (core m v)
handle_ready-Keeps spare handshake1 m e v = v

handle_appended-Keeps : (spare : Bytes) (m : Fsm) → IsValid m → Keeps (handle_appended spare m)
unfolding handle_appended
handle_appended-Keeps spare m v =
    if-Keeps (not (ready m)) _ _ v (handle_ready-Keeps spare m.state m refl v)

-- A packet numbered behind the last one goes behind it.
append-Consecutive :
    (n : ℕ) (p : MysqlPacket) (ps : List MysqlPacket) (q : MysqlPacket)
    → Consecutive n (p ∷ ps)
    → seq_after (last_packet (p ∷ ps)) ≡ q.seq
    → Consecutive n (p ∷ ps ++ q ∷ [])
append-Consecutive n p [] q c e = (c.0, (cc (c.0, e), tt))
append-Consecutive n p (r ∷ ps) q c e = (c.0, append-Consecutive (n + 1) r ps q c.1 e)

append-numbered :
    (ps : List MysqlPacket) (q : MysqlPacket)
    → Consecutive 0 ps
    → seq_after (last_packet ps) ≡ q.seq
    → Consecutive 0 (ps ++ q ∷ [])
append-numbered [] q c e = (sym e, tt)
append-numbered (p ∷ ps) q c e = append-Consecutive 0 p ps q c e

-- The machine after a packet is valid, if it was before and the packet is no panic.
pub handle-IsValid :
    (spare : Bytes) (m : Fsm) (pkt : MysqlPacket) → IsValid m → Keeps (handle spare m pkt)
unfolding handle next_seq set
handle-IsValid spare m pkt v =
    let m' = record m { changed = false } in
    let v' : IsValid m' = record {
      numbered = v.numbered;
      table = v.table;
      prepared = v.prepared;
      counted = v.counted;
    } in
    let fresh : pkt.seq == 0 ≡ true → IsValid (record (set m' init) { packets = pkt ∷ [] }) = λ e.
      record { numbered = ((==_iff _ _).0 e, tt); table = v.table; prepared = tt; counted = tt } in
    let next : next_seq m' ≡ pkt.seq → IsValid (record m' { packets = m'.packets ++ pkt ∷ [] }) =
      λ q. record {
        numbered = append-numbered m'.packets pkt v.numbered q;
        table = v.table;
        prepared = v.prepared;
        counted = v.counted;
      } in
    if-Keeps (code m.state == code com_quit_state) _ _ v' (elim (Bool-cases (pkt.seq == 0)) [
      | inl e ↦
          rw e (handle_appended-Keeps spare (record (set m' init) { packets = pkt ∷ [] }) (fresh e))
      | inr e ↦ rw e (elim (Bool-cases (next_seq m' == pkt.seq)) [
        | inl f ↦ rw f (
            handle_appended-Keeps spare (record m' { packets = m'.packets ++ pkt ∷ [] })
              (next ((==_iff _ _).0 f)))
        | inr f ↦ rw f v'
      ])
    ])

-- The machine before the packets, and after them; each packet has its own spare bytes.
pub data Reaches : Fsm → List MysqlPacket → Fsm → Type 0 where
  done : {m : Fsm} → Reaches m [] m
  step :
      {m next last : Fsm} {pkt : MysqlPacket} {ps : List MysqlPacket}
      → (spare : Bytes) → handle spare m pkt ≡ some next
      → Reaches next ps last
      → Reaches m (pkt ∷ ps) last

Reaches-IsValid :
    {m last : Fsm} {ps : List MysqlPacket} → Reaches m ps last → IsValid m → IsValid last
Reaches-IsValid done v = v
Reaches-IsValid (step {m} {next} {last} {pkt} {ps} spare e r) v =
    Reaches-IsValid r (rw e at (handle-IsValid spare m pkt v))

-- Whatever packets a session brings: the packets of the current command are numbered from 0 one by one,
-- every statement of the table stands under its own id, with two bytes of type for each parameter once
-- they are known, the statement of a prepare request that waits for its response has no types yet, and
-- the statement being executed has as many values as parameters.
pub Reachable-IsValid : (ps : List MysqlPacket) (m : Fsm) → Reaches new_mysql_fsm ps m → IsValid m
Reachable-IsValid ps m r =
    Reaches-IsValid r (record { numbered = tt; table = tt; prepared = tt; counted = tt })
