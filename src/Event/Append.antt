-- ===== src/Event/Append.antt =====
-- event/event.go: `AppendEvent` and `AppendStmtParams`.
use mysql_replay.Base.{
  ℕ, ◌+◌, List, [], ◌∷◌, ◌++◌, Bytes, codes, set, replicate, length, ◌==◌, if◌then◌else◌,
}
use mysql_replay.Base.Result.{Result, ok, err}
use mysql_replay.Strconv.Decimal.{format_uint, format_int}
use mysql_replay.Strconv.Hex.{encode_hex}
use mysql_replay.Strconv.Library.{Library}
use mysql_replay.Strconv.Quote.{quote}
use mysql_replay.Event.Types.{
  Param, nil, i64, u64, str, f32, f64, bin, unsupported, MysqlEvent, sep, type_i64, type_u64,
  type_f32, type_f64, type_str, type_bin, type_nil, type_lst, event_handshake, event_quit,
  event_query, event_stmt_prepare, event_stmt_execute, event_stmt_close,
}

pub data AppendError : Type 0 where
  unsupported_param : AppendError
  unknown_event_type : ℕ → AppendError

-- `buf[s+i] = tag; buf = append(buf, sep); buf = append(buf, text...)`
pub put : ℕ → ℕ → Bytes → Bytes → Bytes
put at tag text buf = set buf at tag ++ sep ∷ text

module _ (lib : Library) where
  -- The loop over the parameters; `at` is `s + i`.
  unfoldable pub append_params : ℕ → List Param → Bytes → Result AppendError Bytes
  unfolding put
  append_params at [] buf = ok buf
  append_params at (nil ∷ ps) buf = append_params (at + 1) ps (put at type_nil (codes "nil") buf)
  append_params at (i64 a ∷ ps) buf = append_params (at + 1) ps (put at type_i64 (format_int a) buf)
  append_params at (u64 n ∷ ps) buf =
      append_params (at + 1) ps (put at type_u64 (format_uint n) buf)
  append_params at (str s ∷ ps) buf =
      append_params (at + 1) ps (put at type_str (quote lib.is_print_table s) buf)
  append_params at (f32 x ∷ ps) buf =
      append_params (at + 1) ps (put at type_f32 (lib.format_float 32 x) buf)
  append_params at (f64 x ∷ ps) buf =
      append_params (at + 1) ps (put at type_f64 (lib.format_float 64 x) buf)
  append_params at (bin s ∷ ps) buf =
      append_params (at + 1) ps (put at type_bin (quote lib.is_print_table (encode_hex s)) buf)
  append_params at (unsupported ∷ ps) buf = err unsupported_param

  unfoldable pub append_stmt_params : Bytes → List Param → Result AppendError Bytes
  append_stmt_params buf params =
      append_params (length buf + 1) params ((buf ++ type_lst ∷ []) ++ replicate (length params) 0)

  unfoldable pub append_execute : Bytes → MysqlEvent → Result AppendError Bytes
  unfolding append_stmt_params
  append_execute buf e =
      append_stmt_params (((buf ++ sep ∷ []) ++ format_uint e.stmt_id) ++ sep ∷ []) e.params

  -- The switch on the event's type, with the time and the type written.
  unfoldable pub append_body : Bytes → MysqlEvent → Result AppendError Bytes
  unfolding append_execute
  append_body buf e =
      if e.type == event_query
      then ok ((buf ++ sep ∷ []) ++ quote lib.is_print_table e.query)
      else if e.type == event_stmt_execute
      then append_execute buf e
      else if e.type == event_stmt_prepare
      then ok (
          (((buf ++ sep ∷ []) ++ format_uint e.stmt_id) ++ sep ∷ [])
          ++ quote lib.is_print_table e.query)
      else if e.type == event_stmt_close
      then ok ((buf ++ sep ∷ []) ++ format_uint e.stmt_id)
      else if e.type == event_handshake
      then ok ((buf ++ sep ∷ []) ++ quote lib.is_print_table e.db)
      else if e.type == event_quit
      then ok buf
      else err (unknown_event_type e.type)

  unfoldable pub append_event : Bytes → MysqlEvent → Result AppendError Bytes
  unfolding append_body
  append_event buf e =
      append_body (((buf ++ format_int e.time) ++ sep ∷ []) ++ format_uint e.type) e
