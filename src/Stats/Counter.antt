-- ===== src/Stats/Counter.antt =====
-- stats/counter.go: `Add`, `Get` and `Dump`. A value of type `int64` is its bit pattern, below
-- 2 ^ 64, so that `atomic.AddInt64` and `+=` are addition modulo 2 ^ 64. Each operation is one step:
-- the code makes it atomic, by an atomic instruction or by the lock.
use Prim.Native.String.{String}
use text.Mathlib.Text.{◌==◌}
use mathlib.Core.Logic.{ite}
use mathlib.Core.Option.{get_or}
use mysql_replay.Base.{ℕ, ◌+◌, ◌%◌, ◌^◌, Option, none, some, List, [], ◌∷◌, if◌then◌else◌}
use mysql_replay.Base.Map.{Map, lookup, insert, string_eq}

-- The package's variables.
pub data Variable : Type 0 where
  packets data_in data_out running_conns waiting_conns queries stmt_executes stmt_prepares :
      Variable
  streams conns err_queries err_stmt_executes err_stmt_prepares : Variable

unfoldable pub Variable-discrete : Discrete Variable
Variable-discrete = hlevel

-- The names of the metrics.
abbrev pub name : Variable → String
name packets = "packets"
name data_in = "data.in"
name data_out = "data.out"
name running_conns = "conn.running"
name waiting_conns = "conn.waiting"
name queries = "queries"
name stmt_executes = "stmt.executes"
name stmt_prepares = "stmt.prepares"
name streams = "streams"
name conns = "connections"
name err_queries = "err.queries"
name err_stmt_executes = "err.stmt.executes"
name err_stmt_prepares = "err.stmt.prepares"

pub record Counters : Type 0 where
  pub value : Variable → ℕ
  pub others : Map String ℕ

-- The `switch name` that `Add` and `Get` share: the variable of a name, or the default case.
unfoldable pub variable : String → Option Variable
variable n =
    if n == name packets
    then some packets
    else if n == name data_in
    then some data_in
    else if n == name data_out
    then some data_out
    else if n == name running_conns
    then some running_conns
    else if n == name waiting_conns
    then some waiting_conns
    else if n == name queries
    then some queries
    else if n == name stmt_executes
    then some stmt_executes
    else if n == name stmt_prepares
    then some stmt_prepares
    else if n == name streams
    then some streams
    else if n == name conns
    then some conns
    else if n == name err_queries
    then some err_queries
    else if n == name err_stmt_executes
    then some err_stmt_executes
    else if n == name err_stmt_prepares
    then some err_stmt_prepares
    else none

abbrev pub add64 : ℕ → ℕ → ℕ
add64 a b = (a + b) % 2 ^ 64

unfoldable pub update : (Variable → ℕ) → Variable → ℕ → Variable → ℕ
update f v x w = ite (Variable-discrete v w) x (f w)

-- A missing key of a map reads as 0.
abbrev pub other : Counters → String → ℕ
other c n = get_or (lookup n c.others) 0

-- `Add` on the variable of the name, or on the map.
unfoldable pub add_at : Option Variable → Counters → String → ℕ → Counters × ℕ
unfolding update
add_at (some v) c n delta =
    let x = add64 (c.value v) delta in (record c { value = update c.value v x }, x)
add_at none c n delta =
    let x = add64 (other c n) delta in (record c { others = insert n x c.others }, x)

unfoldable pub add : Counters → String → ℕ → Counters × ℕ
unfolding add_at variable
add c n delta = add_at (variable n) c n delta

unfoldable pub get_at : Option Variable → Counters → String → ℕ
get_at (some v) c n = c.value v
get_at none c n = other c n

unfoldable pub get : Counters → String → ℕ
unfolding get_at variable
get c n = get_at (variable n) c n

-- The list `metrics`.
abbrev pub metrics : List String
metrics =
    name packets
    ∷ name queries
    ∷ name stmt_executes
    ∷ name stmt_prepares
    ∷ name streams
    ∷ name conns
    ∷ name err_queries
    ∷ name err_stmt_executes
    ∷ name err_stmt_prepares
    ∷ name waiting_conns
    ∷ name running_conns
    ∷ []

-- The first loop of `Dump`.
unfoldable pub dump_metrics : Counters → List String → Map String ℕ → Map String ℕ
dump_metrics c [] out = out
dump_metrics c (n ∷ ns) out = dump_metrics c ns (insert n (get c n) out)

-- The second loop.
unfoldable pub dump_others : Map String ℕ → Map String ℕ → Map String ℕ
dump_others [] out = out
dump_others ((k, v) ∷ m) out = dump_others m (insert k v out)

unfoldable pub dump : Counters → Map String ℕ
unfolding dump_metrics dump_others
dump c = dump_others c.others (dump_metrics c metrics [])
