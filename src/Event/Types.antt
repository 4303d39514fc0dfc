-- ===== src/Event/Types.antt =====
-- event/event.go: the event record, its parameters, and the bytes that name their types.
use mysql_replay.Base.{ℕ, ◌≤◌, ◌<◌, ◌^◌, ◌≡◌, false, List, [], Bytes, All}
use mysql_replay.Base.Int.{ℤ, pos, IsI64}
use mysql_replay.Strconv.Decimal.{max_u64}
use mysql_replay.Strconv.Library.{is_nan32, is_nan64}
use mysql_replay.Strconv.Quote.RoundTrip.{IsBytes}

abbrev pub event_handshake : ℕ
event_handshake = 0

abbrev pub event_quit : ℕ
event_quit = 1

abbrev pub event_query : ℕ
event_query = 2

abbrev pub event_stmt_prepare : ℕ
event_stmt_prepare = 3

abbrev pub event_stmt_execute : ℕ
event_stmt_execute = 4

abbrev pub event_stmt_close : ℕ
event_stmt_close = 5

-- The dynamic types that a parameter may have; floats are bit patterns, and `unsupported` is a
-- value of any other type.
pub data Param : Type 0 where
  nil : Param
  i64 : ℤ → Param
  u64 : ℕ → Param
  str : Bytes → Param
  f32 : ℕ → Param
  f64 : ℕ → Param
  bin : Bytes → Param
  unsupported : Param

pub record MysqlEvent : Type 0 where
  pub time : ℤ
  pub type : ℕ
  pub stmt_id : ℕ
  pub params : List Param
  pub db : Bytes
  pub query : Bytes

-- `Reset`: the old event is overwritten field by field.
unfoldable pub reset : MysqlEvent → List Param → MysqlEvent
reset e params = record e {
  time = pos 0;
  type = 0;
  stmt_id = 0;
  params = params;
  db = [];
  query = [];
}

abbrev pub sep : ℕ
sep = b'\t'

abbrev pub type_i64 : ℕ
type_i64 = b'i'

abbrev pub type_u64 : ℕ
type_u64 = b'u'

abbrev pub type_f32 : ℕ
type_f32 = b'f'

abbrev pub type_f64 : ℕ
type_f64 = b'd'

abbrev pub type_str : ℕ
type_str = b's'

abbrev pub type_bin : ℕ
type_bin = b'b'

abbrev pub type_nil : ℕ
type_nil = b'0'

abbrev pub type_lst : ℕ
type_lst = b'['

-- The parameters that are values of their Go types, NaN apart.
abbrev pub IsParam : Param → Type 0
IsParam nil = Unit
IsParam (i64 a) = IsI64 a
IsParam (u64 n) = n ≤ max_u64
IsParam (str s) = IsBytes s
IsParam (f32 x) = (x < 2 ^ 32) × (is_nan32 x ≡ false)
IsParam (f64 x) = (x < 2 ^ 64) × (is_nan64 x ≡ false)
IsParam (bin s) = IsBytes s
IsParam unsupported = ⊥

-- The ranges of the Go types of an event's fields.
pub record IsEvent (e : MysqlEvent) : Type 0 where
  pub time : IsI64 e.time
  pub type : e.type ≤ max_u64
  pub stmt_id : e.stmt_id ≤ max_u64
  pub params : All IsParam e.params
  pub db : IsBytes e.db
  pub query : IsBytes e.query
