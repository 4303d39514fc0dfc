-- ===== src/Stream/Events/Ignored.antt =====
-- stream/event.go: packets behind a quit, and packets out of order.
use mysql_replay.Base.{
  ℕ, ◌+◌, false, List, [], ◌∷◌, none, some, ◌≡◌, ◌≢◌, refl, sym, inl, inr, Bytes, ◌==◌, ne→==,
  Bool-cases,
}
use mysql_replay.Base.Int.{ℤ}
use mysql_replay.Stream.Events.Feed.{feed, feed-cons, on_packet-finish}
use mysql_replay.Stream.Events.{emitted, EventHandler, on_packet}
use mysql_replay.Stream.Fsm.Machine.{com_quit_state, code, Fsm, ready, next_seq}
use mysql_replay.Stream.Fsm.{handle}
use mysql_replay.Stream.Packet.{MysqlPacket}

-- No change is no event.
emitted-unchanged : (t : ℤ) (m : Fsm) → m.changed ≡ false → emitted t m ≡ none
unfolding emitted
emitted-unchanged t m e = elim (Bool-cases (ready m)) [
  | inl r ↦ rw (emitted, r, e) refl
  | inr r ↦ rw (emitted, r) refl
]

on_packet-unchanged :
    (spare : Bytes) (h : EventHandler) (p : MysqlPacket)
    → handle spare h.fsm p ≡ some (record h.fsm { changed = false })
    → on_packet spare h p ≡ some (record h { fsm = record h.fsm { changed = false } })
on_packet-unchanged spare h p e =
    rw (on_packet-finish spare h p, e, emitted-unchanged _ (record h.fsm { changed = false }) refl)
      refl

-- Behind a quit command no packet, whatever it is, gives an event, ends the quit or panics.
pub feed-after_quit :
    (spares : ℕ → Bytes) (h : EventHandler) (ps : List MysqlPacket)
    → h.fsm.state ≡ com_quit_state
    → (m : Fsm) × (feed spares h ps ≡ some (record { fsm = m; events = h.events }))
      × (m.state ≡ com_quit_state)
unfolding feed handle
feed-after_quit spares h [] e = (h.fsm, refl, e)
feed-after_quit spares h (p ∷ ps) e =
    let quiet : handle (spares 0) h.fsm p ≡ some (record h.fsm { changed = false }) =
      rw (handle, e) refl in
    let next = record h { fsm = record h.fsm { changed = false } } in
    rw (feed-cons spares h next p ps (on_packet-unchanged (spares 0) h p quiet))
      (feed-after_quit (λ n. spares (n + 1)) next ps e)

-- A packet that starts no command and is not the next of the current one changes nothing but the mark of
-- a change, and gives no event.
pub on_packet-out_of_order :
    (spare : Bytes) (h : EventHandler) (p : MysqlPacket)
    → p.seq ≢ 0
    → p.seq ≢ next_seq h.fsm
    → on_packet spare h p ≡ some (record h { fsm = record h.fsm { changed = false } })
unfolding handle next_seq
on_packet-out_of_order spare h p first next =
    on_packet-unchanged spare h p (elim (Bool-cases (code h.fsm.state == code com_quit_state)) [
      | inl e ↦ rw (handle, e) refl
      | inr e ↦ rw (handle, e, ne→== p.seq 0 first, ne→== _ p.seq (λ q. next (sym q))) refl
    ])
