-- ===== src/Stream/Events/Feed.antt =====
-- The packets of a session, fed to the handler one by one.
use mysql_replay.Base.{
  ℕ, ◌+◌, false, inl, inr, List, [], ◌∷◌, ◌++◌, Option, none, some, ◌≡◌, ◌≢◌, refl, Bytes, ◌==◌,
  Option-cases,
}
use mysql_replay.Base.Int.{ℤ}
use mysql_replay.Event.Types.{MysqlEvent}
use mysql_replay.Stream.Events.{to_millis, emitted, appended, EventHandler, on_packet}
use mysql_replay.Stream.Fsm.Machine.{
  State, init, unknown, com_query_state, com_stmt_execute_state, com_stmt_close_state,
  com_stmt_prepare0, com_stmt_prepare1, com_quit_state, handshake0, handshake1, code, Fsm, ready,
  next_seq, last_packet,
}
use mysql_replay.Stream.Fsm.{handle}
use mysql_replay.Stream.Packet.{MysqlPacket, max_packet_size}

-- The packets of a session, one after the other; `spares n` is the spare of the packet `n`.
unfoldable pub feed : (ℕ → Bytes) → EventHandler → List MysqlPacket → Option EventHandler
unfolding on_packet
feed spares h [] = some h
feed spares h (p ∷ ps) = elim (on_packet (spares 0) h p) [
  | none ↦ none
  | some next ↦ feed (λ n. spares (n + 1)) next ps
]

-- `OnPacket` behind `Handle`.
abbrev pub finish : ℤ → List MysqlEvent → Option Fsm → Option EventHandler
finish t events none = none
finish t events (some m) =
    some (record { fsm = m; events = appended events (emitted (to_millis t) m) })

pub last_packet-append :
    (ps : List MysqlPacket) (p : MysqlPacket) → last_packet (ps ++ p ∷ []) ≡ some p
last_packet-append [] p = refl
last_packet-append (q ∷ []) p = refl
last_packet-append (q ∷ r ∷ ps) p = last_packet-append (r ∷ ps) p

pub code-ne : (s : State) → s ≢ com_quit_state → (code s == code com_quit_state) ≡ false
code-ne init h = refl
code-ne unknown h = refl
code-ne com_query_state h = refl
code-ne com_stmt_execute_state h = refl
code-ne com_stmt_close_state h = refl
code-ne com_stmt_prepare0 h = refl
code-ne com_stmt_prepare1 h = refl
code-ne com_quit_state h = absurd (h refl)
code-ne handshake0 h = refl
code-ne handshake1 h = refl

pub next_seq-append :
    (m : Fsm) (ps : List MysqlPacket) (p : MysqlPacket)
    → m.packets ≡ ps ++ p ∷ []
    → next_seq m ≡ p.seq + 1
unfolding next_seq
next_seq-append m ps p e = rw (e, last_packet-append ps p) refl

pub on_packet-finish :
    (spare : Bytes) (h : EventHandler) (p : MysqlPacket)
    → on_packet spare h p ≡ finish p.time h.events (handle spare h.fsm p)
unfolding on_packet
on_packet-finish spare h p = elim (Option-cases (handle spare h.fsm p)) [
  | inl e ↦ rw (on_packet, e) refl
  | inr (m, e) ↦ rw (on_packet, e) refl
]

pub feed-cons :
    (spares : ℕ → Bytes) (h next : EventHandler) (p : MysqlPacket) (ps : List MysqlPacket)
    → on_packet (spares 0) h p ≡ some next
    → feed spares h (p ∷ ps) ≡ feed (λ n. spares (n + 1)) next ps
unfolding feed
feed-cons spares h next p ps e = rw (feed, e) refl

pub feed-last :
    (spares : ℕ → Bytes) (h : EventHandler) (p : MysqlPacket)
    → feed spares h (p ∷ []) ≡ finish p.time h.events (handle (spares 0) h.fsm p)
unfolding feed
feed-last spares h p = elim (Option-cases (handle (spares 0) h.fsm p)) [
  | inl e ↦ rw (feed, on_packet-finish (spares 0) h p, e) refl
  | inr (m, e) ↦ rw (feed, on_packet-finish (spares 0) h p, e) refl
]

-- A packet that is full, and appended, is no event.
pub feed-full :
    (spares : ℕ → Bytes) (h : EventHandler) (p : MysqlPacket) (ps q : List MysqlPacket) (m : Fsm)
    → handle (spares 0) h.fsm p ≡ some m
    → m.packets ≡ q ++ p ∷ []
    → p.len ≡ max_packet_size
    → feed spares h (p ∷ ps) ≡ feed (λ n. spares (n + 1)) (record h { fsm = m }) ps
unfolding feed emitted ready
feed-full spares h p ps q m e packets size =
    rw
      (
        feed,
        on_packet-finish (spares 0) h p,
        e,
        emitted,
        ready,
        packets,
        last_packet-append q p,
        size,
      )
      refl
