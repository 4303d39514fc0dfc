-- ===== src/Stream/Fsm/Invariant.antt =====
-- stream/mysql.go: the invariant of `MySQLFSM`.
pub mod Commands
pub mod Handshake
pub mod Step
use mysql_replay.Base.{
  ℕ, zero, suc, ◌+◌, ◌-◌, ◌*◌, ◌≤◌, Bool, true, false, not, List, [], ◌∷◌, ◌++◌, Option, none, some,
  ◌≡◌, ◌≢◌, ◌∙◌, inl, inr, refl, sym, ap, arith, Bytes, All, length, length-take, length-drop, take,
  drop, ltb, ◌==◌, if◌then◌else◌, Bool-cases, Option-cases, set as set_at, replicate,
  length-replicate, length-set,
}
use mysql_replay.Base.Int.{pos}
use mysql_replay.Base.Map.{Map, lookup, insert, erase, nat_eq, All-insert, All-erase, All-lookup}
use mysql_replay.Base.Result.{Result, ok, err, panic}
use mysql_replay.Event.Types.{Param}
use mysql_replay.Stream.Fsm.Handshake.{
  has_flag, read_schema, skip_auth_response, handshake41, handshake320, handle_handshake_response,
}
use mysql_replay.Stream.Fsm.Machine.{
  State, init, unknown, com_query_state, com_stmt_execute_state, com_stmt_close_state,
  com_stmt_prepare0, com_stmt_prepare1, com_quit_state, handshake0, handshake1, code, Stmt, Fsm,
  new_mysql_fsm, set, load, ready, next_seq, last_packet, seq_after, attempt, tail_of, find_command,
}
use mysql_replay.Stream.Packet.{
  MysqlPacket, client_to_server, server_to_client, client_connect_with_db, client_protocol41,
  client_secure_conn, client_plugin_auth_len_enc_client_data,
}
use mysql_replay.Stream.Reader.{Failed}
use mysql_replay.Stream.Fsm.{
  handle_com_query, executed, execute_values, execute_typed, execute_params, execute_stmt,
  handle_com_stmt_execute, no_stmt, stmt_or_zero, handle_com_stmt_close,
  handle_com_stmt_prepare_request, prepare_ok, handle_com_stmt_prepare_response, handle_command,
  handle_init_packet, handle_ready, handle_appended, handle,
}

-- The packets of the command so far are numbered one by one from `n`.
abbrev pub Consecutive : ℕ → List MysqlPacket → Type 0
Consecutive n [] = Unit
Consecutive n (p ∷ ps) = (p.seq ≡ n) × Consecutive (n + 1) ps

-- Two bytes of type for each parameter, once they are known.
abbrev pub TypesFit : ℕ → Option Bytes → Type 0
TypesFit n none = Unit
TypesFit n (some types) = length types ≡ 2 * n

-- A statement of the table stands under its own id.
abbrev pub IsEntry : ℕ × Stmt → Type 0
IsEntry (k, s) = (s.id ≡ k) × TypesFit s.num_params s.types

-- A prepare request that waits for its response has a statement without types.
abbrev pub Prepared : State → Stmt → Type 0
Prepared com_stmt_prepare0 s = s.types ≡ none
Prepared _ s = Unit

-- The statement that is executed has as many values as parameters.
abbrev pub Counted : State → Stmt → List Param → Type 0
Counted com_stmt_execute_state s params = length params ≡ s.num_params
Counted _ s params = Unit

pub record IsValid (m : Fsm) : Type 0 where
  pub numbered : Consecutive 0 m.packets
  pub table : All IsEntry m.stmts
  pub prepared : Prepared m.state m.stmt
  pub counted : Counted m.state m.stmt m.params

-- What no handler but those of statements changes.
pub record Core (m : Fsm) : Type 0 where
  pub numbered : Consecutive 0 m.packets
  pub table : All IsEntry m.stmts

abbrev pub Holds : (Fsm → Type 0) → Option Fsm → Type 0
Holds P none = Unit
Holds P (some m) = P m

pub Holds-attempt :
    {A : Type 0} (P : Fsm → Type 0) (m : Fsm) (r : Result Failed A) (k : A → Option Fsm)
    → P (set m unknown)
    → ((a : A) → Holds P (k a))
    → Holds P (attempt m r k)
Holds-attempt P m (ok a) k u h = h a
Holds-attempt P m (err e) k u h = u
Holds-attempt P m panic k u h = tt

pub set-IsValid :
    (m : Fsm) (to : State)
    → Core m
    → Prepared to m.stmt
    → Counted to m.stmt m.params
    → IsValid (set m to)
unfolding set
set-IsValid m to c p q = record {
  numbered = c.numbered;
  table = c.table;
  prepared = p;
  counted = q;
}

pub unknown-IsValid : (m : Fsm) → Core m → IsValid (set m unknown)
unknown-IsValid m c = set-IsValid m unknown c tt tt

pub handshake1-IsValid : (m : Fsm) → Core m → IsValid (set m handshake1)
handshake1-IsValid m c = set-IsValid m handshake1 c tt tt

-- A handler that leaves the state machine valid, or panics.
abbrev pub Keeps : Option Fsm → Type 0
Keeps = Holds IsValid

pub attempt-Keeps :
    {A : Type 0} (m : Fsm) (r : Result Failed A) (k : A → Option Fsm)
    → Core m
    → ((a : A) → Keeps (k a))
    → Keeps (attempt m r k)
attempt-Keeps m r k c h = Holds-attempt IsValid m r k (unknown-IsValid m c) h

pub if-Keeps : (b : Bool) (x y : Option Fsm) → Keeps x → Keeps y → Keeps (if b then x else y)
if-Keeps true x y h k = h
if-Keeps false x y h k = k

-- A load changes nothing that the invariant speaks of.
pub load-Core : (k : ℕ) (m : Fsm) → Core m → Core (load k m).0
unfolding load
load-Core k m c = elim (Option-cases (find_command (length m.packets) m.packets k 0)) [
  | inl e ↦ rw e c
  | inr (ij, e) ↦ rw e (record { numbered = c.numbered; table = c.table })
]

pub load-stmt : (k : ℕ) (m : Fsm) → (load k m).0.stmt ≡ m.stmt
unfolding load
load-stmt k m = elim (Option-cases (find_command (length m.packets) m.packets k 0)) [
  | inl e ↦ rw e refl
  | inr (ij, e) ↦ rw e refl
]
