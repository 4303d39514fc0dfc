-- ===== src/Event/Scan.antt =====
-- event/event.go: `ScanEvent`, `ScanStmtParams` and `nextSep`. A slice out of range is a panic. An
-- error keeps the position that the code returns; the event left behind by a failed scan, which no
-- caller reads, is not kept.
use mysql_replay.Base.{
  ℕ, suc, ◌+◌, ◌-◌, not, ◌&&◌, List, [], ◌∷◌, ◌++◌, Option, none, some, Bytes, take, drop, length,
  get_or, ltb, leb, ◌==◌, if◌then◌else◌,
}
use mysql_replay.Base.Result.{Result, ok, err, panic, ◌>>=◌}
use mysql_replay.Strconv.Decimal.{parse_uint, parse_int}
use mysql_replay.Strconv.Hex.{decode_hex}
use mysql_replay.Strconv.Library.{Library}
use mysql_replay.Strconv.Quote.{unquote}
use mysql_replay.Event.Types.{
  Param, nil, i64, u64, str, f32, f64, bin, MysqlEvent, sep, type_i64, type_u64, type_f32, type_f64,
  type_str, type_bin, type_nil, type_lst, event_handshake, event_quit, event_query,
  event_stmt_prepare, event_stmt_execute, event_stmt_close,
}

-- `strings.IndexByte`.
unfoldable pub index_byte : Bytes → ℕ → Option ℕ
index_byte [] b = none
index_byte (c ∷ s) b =
    let rest = index_byte s b in
    if c == b then some 0 else elim rest [ none ↦ none | some i ↦ some (suc i) ]

-- The end of the field at `pos`, when `index_byte` gave `found`.
abbrev pub sep_position : ℕ → ℕ → Option ℕ → ℕ
sep_position size pos none = size
sep_position size pos (some off) = pos + off

unfoldable pub next_sep : Bytes → ℕ → ℕ
next_sep s pos =
    if leb (length s) pos
    then length s
    else sep_position (length s) pos (index_byte (drop pos s) sep)

-- `s[i:j]`
unfoldable pub slice {ℓ} : {E : Type ℓ} → Bytes → ℕ → ℕ → Result E Bytes
slice s i j = if leb i j && leb j (length s) then ok (take (j - i) (drop i s)) else panic

pub data ParamError : Type 0 where
  no_params not_a_list : ParamError
  missing malformed : ℕ → ParamError
  unsupported_type : ℕ → ParamError

pub record ParamFail : Type 0 where
  pub pos : ℕ
  pub why : ParamError

abbrev pub param_fail {ℓ} : {A : Type ℓ} → ℕ → ParamError → Result ParamFail A
param_fail p w = err (record { pos = p; why = w })

pub data Field : Type 0 where
  time type query stmt_id db : Field

pub data ScanError : Type 0 where
  empty_field bad_field : Field → ScanError
  bad_params : ParamError → ScanError
  unknown_type : ℕ → ScanError

pub record ScanFail : Type 0 where
  pub pos : ℕ
  pub why : ScanError

abbrev pub scan_fail {ℓ} : {A : Type ℓ} → ℕ → ScanError → Result ScanFail A
scan_fail p w = err (record { pos = p; why = w })

-- A parsed value as a parameter, or the error of parameter `i`.
unfoldable pub parsed {ℓ} : {A : Type ℓ} → ℕ → ℕ → (A → Param) → Option A → Result ParamFail Param
parsed pos i make none = param_fail pos (malformed i)
parsed pos i make (some a) = ok (make a)

-- `hex.DecodeString` behind `strconv.Unquote`.
unfoldable pub unquote_hex : Option Bytes → Option Bytes
unquote_hex none = none
unquote_hex (some s) = decode_hex s

-- One field of an event: its value and its end.
unfoldable pub scan_field :
    {A : Type 0} → (Bytes → Option A) → Field → Bytes → ℕ → Result ScanFail (A × ℕ)
scan_field parse f s pos = if ltb (length s) (pos + 1) then scan_fail pos (empty_field f) else do
  raw ← slice s pos (next_sep s pos)
  elim (parse raw) [ none ↦ scan_fail pos (bad_field f) | some a ↦ ok (a, next_sep s pos) ]

-- The error of `ScanStmtParams` is printed with `s[pos:posNext]`.
unfoldable pub with_params :
    Bytes → ℕ → MysqlEvent → Result ParamFail (List Param × ℕ) → Result ScanFail (MysqlEvent × ℕ)
with_params s pos e (ok (params, pos_next)) = ok (record e { params = params }, pos_next)
with_params s pos e (err f) = do raw ← slice s pos f.pos; scan_fail pos (bad_params f.why)
with_params s pos e panic = panic

unfoldable pub scan_close : Bytes → ℕ → MysqlEvent → Result ScanFail (MysqlEvent × ℕ)
scan_close s pos e = do
  id ← scan_field parse_uint stmt_id s pos
  ok (record e { stmt_id = id.0 }, id.1)

module _ (lib : Library) where
  -- The switch on the type byte `t` of parameter `i`, whose text is `raw`.
  unfoldable pub scan_param : ℕ → ℕ → ℕ → Bytes → Result ParamFail Param
  unfolding parsed unquote_hex
  scan_param pos i t raw =
      if t == type_nil
      then ok nil
      else if t == type_i64
      then parsed pos i i64 (parse_int raw)
      else if t == type_u64
      then parsed pos i u64 (parse_uint raw)
      else if t == type_str
      then parsed pos i str (unquote lib.unquote_other raw)
      else if t == type_f32
      then parsed pos i f32 (lib.parse_float 32 raw)
      else if t == type_f64
      then parsed pos i f64 (lib.parse_float 64 raw)
      else if t == type_bin
      then parsed pos i bin (unquote_hex (unquote lib.unquote_other raw))
      else param_fail pos (unsupported_type t)

  -- The loop over the type bytes. A field that is empty is an error, whose text slices `s[pos:]`.
  unfoldable pub scan_params :
      Bytes → Bytes → ℕ → ℕ → List Param → Result ParamFail (List Param × ℕ)
  scan_params s [] i pos_next params = ok (params, pos_next)
  scan_params s (t ∷ types) i pos_next params =
      if pos_next + 1 == next_sep s (pos_next + 1)
      then (do rest ← slice s (pos_next + 1) (length s); param_fail (pos_next + 1) (missing i))
      else do
        raw ← slice s (pos_next + 1) (next_sep s (pos_next + 1))
        p ← scan_param (pos_next + 1) i t raw
        scan_params s types (i + 1) (next_sep s (pos_next + 1)) (params ++ p ∷ [])

  unfoldable pub scan_stmt_params : Bytes → ℕ → List Param → Result ParamFail (List Param × ℕ)
  scan_stmt_params s pos params =
      if ltb (length s) (pos + 1)
      then param_fail pos no_params
      else if not (get_or s pos 0 == type_lst)
      then (do rest ← slice s pos (length s); param_fail pos not_a_list)
      else do
        types ← slice s (pos + 1) (next_sep s (pos + 1))
        scan_params s types 0 (next_sep s (pos + 1)) params

  unfoldable pub scan_query : Bytes → ℕ → MysqlEvent → Result ScanFail (MysqlEvent × ℕ)
  scan_query s pos e = do
    q ← scan_field (unquote lib.unquote_other) query s pos
    ok (record e { query = q.0 }, q.1)

  unfoldable pub scan_execute : Bytes → ℕ → MysqlEvent → Result ScanFail (MysqlEvent × ℕ)
  scan_execute s pos e = do
    id ← scan_field parse_uint stmt_id s pos
    with_params s (id.1 + 1) (record e { stmt_id = id.0 }) (scan_stmt_params s (id.1 + 1) [])

  unfoldable pub scan_prepare : Bytes → ℕ → MysqlEvent → Result ScanFail (MysqlEvent × ℕ)
  scan_prepare s pos e = do
    id ← scan_field parse_uint stmt_id s pos
    scan_query s (id.1 + 1) (record e { stmt_id = id.0 })

  unfoldable pub scan_handshake : Bytes → ℕ → MysqlEvent → Result ScanFail (MysqlEvent × ℕ)
  scan_handshake s pos e = do
    q ← scan_field (unquote lib.unquote_other) db s pos
    ok (record e { db = q.0 }, q.1)

  -- The switch on the type; the type's field ends at `pos_next`.
  unfoldable pub scan_body : Bytes → ℕ → MysqlEvent → Result ScanFail (MysqlEvent × ℕ)
  scan_body s pos_next e =
      if e.type == event_query
      then scan_query s (pos_next + 1) e
      else if e.type == event_stmt_execute
      then scan_execute s (pos_next + 1) e
      else if e.type == event_stmt_prepare
      then scan_prepare s (pos_next + 1) e
      else if e.type == event_stmt_close
      then scan_close s (pos_next + 1) e
      else if e.type == event_handshake
      then scan_handshake s (pos_next + 1) e
      else if e.type == event_quit
      then ok (e, pos_next)
      else scan_fail (pos_next + 1) (unknown_type e.type)

  unfoldable pub scan_event : Bytes → ℕ → MysqlEvent → Result ScanFail (MysqlEvent × ℕ)
  unfolding scan_body
  scan_event s pos e = do
    t ← scan_field parse_int time s pos
    y ← scan_field parse_uint type s (t.1 + 1)
    scan_body s y.1 (record e { time = t.0; type = y.0 })
