-- ===== src/Dump.antt =====
-- cmd/text.go: `textDumpHandler`, which writes the events of a connection to a file.
pub mod Lines
mod Tests
use mysql_replay.Base.{
  ℕ, ◌+◌, Bool, true, false, ◌&&◌, List, [], ◌∷◌, ◌++◌, Option, none, some, Bytes, codes, length,
  if◌then◌else◌, ◌==◌,
}
use mysql_replay.Base.Int.{ℤ, pos, negsuc}
use mysql_replay.Base.Result.{ok, err, panic}
use mysql_replay.Event.Append.{append_event}
use mysql_replay.Event.Types.{MysqlEvent}
use mysql_replay.Stats.Counter.{Counters, name, data_out, add}
use mysql_replay.Strconv.Decimal.{format_int}
use mysql_replay.Strconv.Library.{Library}

-- What becomes of the temporary file.
pub data FileState : Type 0 where
  open_file removed_file : FileState
  renamed_file : Bytes → FileState

-- `written` is what was written to the buffered writer, `hash` is `conn.HashStr()`.
pub record TextDumpHandler : Type 0 where
  pub hash : Bytes
  pub written : Bytes
  pub fst : ℤ
  pub lst : ℤ
  pub stats : Counters
  pub file : FileState

abbrev pub is_zero : ℤ → Bool
is_zero (pos n) = n == 0
is_zero (negsuc n) = false

abbrev pub new_dump_handler : Bytes → Counters → TextDumpHandler
new_dump_handler hash c = record {
  hash = hash;
  written = [];
  fst = pos 0;
  lst = pos 0;
  stats = c;
  file = open_file;
}

-- `OnEvent`, behind `AppendEvent`.
unfoldable pub dumped : TextDumpHandler → MysqlEvent → Bytes → TextDumpHandler
dumped h e b = record h {
  written = h.written ++ (b ++ b'\n' ∷ []);
  stats = (add h.stats (name data_out) (length b + 1)).0;
  lst = e.time;
  fst = if is_zero h.fst then e.time else h.fst;
}

-- An event that is not written is logged only. `none` is a panic.
unfoldable pub on_event : Library → TextDumpHandler → MysqlEvent → Option TextDumpHandler
unfolding dumped
on_event lib h e = elim (append_event lib [] e) [
  | ok b ↦ some (dumped h e b)
  | err f ↦ some h
  | panic ↦ none
]

-- The events of a connection.
unfoldable pub on_events : Library → TextDumpHandler → List MysqlEvent → Option TextDumpHandler
unfolding on_event
on_events lib h [] = some h
on_events lib h (e ∷ es) = elim (on_event lib h e) [ none ↦ none | some z ↦ on_events lib z es ]

-- `fst.lst.hash.tsv`
abbrev pub file_name : TextDumpHandler → Bytes
file_name h = format_int h.fst ++ (b'.' ∷ format_int h.lst ++ (b'.' ∷ h.hash ++ codes ".tsv"))

unfoldable pub on_close : TextDumpHandler → TextDumpHandler
on_close h = record h { file = if is_zero h.fst then removed_file else renamed_file (file_name h) }
