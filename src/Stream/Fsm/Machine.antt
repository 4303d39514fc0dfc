-- ===== src/Stream/Fsm/Machine.antt =====
-- stream/mysql.go: the states, the record `MySQLFSM`, `set`, `load` and the assertions.
use mysql_replay.Base.{
  ℕ, zero, suc, ◌+◌, ◌-◌, Bool, true, false, not, List, [], ◌∷◌, ◌++◌, Option, none, some, Bytes,
  length, take, drop, get_elem?, ltb, ◌==◌, if◌then◌else◌,
}
use mysql_replay.Base.Map.{Map}
use mysql_replay.Base.Result.{Result, ok, err, panic}
use mysql_replay.Event.Types.{Param}
use mysql_replay.Stream.Packet.{Direction, same_dir, MysqlPacket, max_packet_size}
use mysql_replay.Stream.Reader.{Failed}

pub data State : Type 0 where
  init unknown com_query_state com_stmt_execute_state com_stmt_close_state : State
  com_stmt_prepare0 com_stmt_prepare1 com_quit_state handshake0 handshake1 : State

-- The constants.
abbrev pub code : State → ℕ
code init = 0
code unknown = 1
code com_query_state = 2
code com_stmt_execute_state = 3
code com_stmt_close_state = 4
code com_stmt_prepare0 = 5
code com_stmt_prepare1 = 6
code com_quit_state = 7
code handshake0 = 8
code handshake1 = 9

-- `types` is nil until an execution has sent them.
pub record Stmt : Type 0 where
  pub id : ℕ
  pub query : Bytes
  pub num_params : ℕ
  pub types : Option Bytes

-- `buffer` is the field `data`.
pub record Fsm : Type 0 where
  pub changed : Bool
  pub state : State
  pub query : Bytes
  pub stmt : Stmt
  pub params : List Param
  pub schema : Bytes
  pub stmts : Map ℕ Stmt
  pub buffer : Bytes
  pub packets : List MysqlPacket
  pub start : ℕ
  pub count : ℕ

-- `NewMySQLFSM`
abbrev pub new_mysql_fsm : Fsm
new_mysql_fsm = record {
  changed = false;
  state = init;
  query = [];
  stmt = record { id = 0; query = []; num_params = 0; types = none };
  params = [];
  schema = [];
  stmts = [];
  buffer = [];
  packets = [];
  start = 0;
  count = 0;
}

unfoldable pub set : Fsm → State → Fsm
set m to = record m { state = to; changed = not (code m.state == code to) }

abbrev pub last_packet : List MysqlPacket → Option MysqlPacket
last_packet [] = none
last_packet (p ∷ []) = some p
last_packet (p ∷ q ∷ ps) = last_packet (q ∷ ps)

abbrev pub short : Option MysqlPacket → Bool
short none = false
short (some p) = ltb p.len max_packet_size

unfoldable pub ready : Fsm → Bool
ready m = short (last_packet m.packets)

abbrev pub seq_after : Option MysqlPacket → ℕ
seq_after none = 0
seq_after (some p) = p.seq + 1

unfoldable pub next_seq : Fsm → ℕ
next_seq m = seq_after (last_packet m.packets)

-- The inner loop of `load`: the first packet from `j` on that is not full, or the end. Fuel: each
-- round moves `j` on, and stops at the end of the packets.
unfoldable pub skip_full : ℕ → List MysqlPacket → ℕ → ℕ
skip_full zero ps j = j
skip_full (suc fuel) ps j = elim (get_elem? ps j) [
  | none ↦ j
  | some p ↦ let rest = skip_full fuel ps (j + 1) in if p.len == max_packet_size then rest else j
]

-- The outer loop: the first and the last packet of the command that starts at packet `k`.
unfoldable pub find_command : ℕ → List MysqlPacket → ℕ → ℕ → Option (ℕ × ℕ)
find_command zero ps k i = none
find_command (suc fuel) ps k i =
    let j = skip_full (length ps) ps i in
    let rest = find_command fuel ps k (j + 1) in
    if not (ltb i (length ps))
    then none
    else if j == length ps
    then none
    else if i == k
    then some (i, j)
    else rest

-- The data of the packets, one behind the other.
abbrev pub joined : List MysqlPacket → Bytes
joined [] = []
joined (p ∷ ps) = p.data_bytes ++ joined ps

abbrev pub loaded : Fsm → Option (ℕ × ℕ) → Fsm × Bool
loaded m none = (m, false)
loaded m (some (i, j)) = (
  record m { buffer = joined (take (j - i + 1) (drop i m.packets)); start = i; count = j - i + 1 },
  true,
)

-- Fuel for each packet is enough: every round of the outer loop takes one at least.
unfoldable pub load : ℕ → Fsm → Fsm × Bool
unfolding find_command skip_full
load k m = loaded m (find_command (length m.packets) m.packets k 0)

-- `Packets`
pub current_packets : Fsm → List MysqlPacket
current_packets m =
    if ltb (length m.packets) (m.start + m.count) then [] else take m.count (drop m.start m.packets)

abbrev pub dir_is : Direction → Option MysqlPacket → Bool
dir_is d none = false
dir_is d (some p) = same_dir p.dir d

unfoldable pub assert_dir : Fsm → Direction → Bool
assert_dir m d = dir_is d (get_elem? m.packets m.start)

abbrev pub byte_is : ℕ → Option ℕ → Bool
byte_is b none = false
byte_is b (some c) = c == b

unfoldable pub assert_data_byte : Fsm → ℕ → ℕ → Bool
assert_data_byte m offset b = byte_is b (get_elem? m.buffer offset)

-- `data[1:]`
abbrev pub tail_of : Bytes → Option Bytes
tail_of [] = none
tail_of (c ∷ s) = some s

-- Read, or go to `StateUnknown` and return.
abbrev pub attempt {ℓ} : {A : Type ℓ} → Fsm → Result Failed A → (A → Option Fsm) → Option Fsm
attempt m (ok a) k = k a
attempt m (err e) k = some (set m unknown)
attempt m panic k = none
