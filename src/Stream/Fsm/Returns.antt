-- ===== src/Stream/Fsm/Returns.antt =====
-- stream/mysql.go: outcomes without a panic, and `handleComStmtExecuteNoLoad`.
use mysql_replay.Base.{
  ℕ, ◌+◌, ◌*◌, ◌/◌, Bool, true, false, List, [], ◌∷◌, Option, none, some, ◌≡◌, inl, inr, refl,
  Bytes, length, get_elem?, ltb, ◌==◌, Bool-cases, if◌then◌else◌, ◌≤◌, arith, le→leb,
}
use mysql_replay.Base.Int.{pos}
use mysql_replay.Base.Map.{nat_eq}
use mysql_replay.Base.Result.{Result, ok, err, panic}
use mysql_replay.Event.Types.{Param}
use mysql_replay.Stream.Fsm.Machine.{unknown, Stmt, Fsm, set, tail_of, attempt, byte_is}
use mysql_replay.Stream.Fsm.{
  executed, execute_values, split_types, execute_first, execute_again, execute_typed,
  execute_params, execute_stmt,
}
use mysql_replay.Stream.Params.Temporal.{Values, ParseError}
use mysql_replay.Stream.Params.{parse_exec_params, parse_params, recovered}
use mysql_replay.Stream.Reader.Laws.{Calm, read_bytes_n-Calm}
use mysql_replay.Stream.Reader.{Failed, read_bytes_n}

-- No panic.
abbrev pub Returns : Option Fsm → Type 0
Returns none = ⊥
Returns (some m) = Unit

pub attempt-Returns :
    {A : Type 0} (m : Fsm) (r : Result Failed A) (k : A → Option Fsm)
    → Calm r
    → ((a : A) → Returns (k a))
    → Returns (attempt m r k)
attempt-Returns m (ok a) k c h = h a
attempt-Returns m (err e) k c h = tt
attempt-Returns m panic k c h = c

pub if-Returns :
    (b : Bool) (x y : Option Fsm)
    → (b ≡ true → Returns x)
    → Returns y
    → Returns (if b then x else y)
if-Returns true x y h k = h refl
if-Returns false x y h k = k

-- Behind a test of the first byte there is a first byte.
pub tail-Returns :
    (s : Bytes) (b : ℕ) (k : Bytes → Option Fsm)
    → byte_is b (get_elem? s 0) ≡ true
    → ((r : Bytes) → Returns (k r))
    → Returns (elim (tail_of s) [ none ↦ none | some r ↦ k r ])
tail-Returns [] b k e h = absurd cc
tail-Returns (c ∷ s) b k e h = h s

execute_values-Returns :
    (m : Fsm) (stmt : Stmt) (nulls types : Bytes) (v : Values)
    → Returns (execute_values m stmt nulls types v)
unfolding execute_values parse_exec_params
execute_values-Returns m stmt nulls types v =
    by_result (parse_params stmt.num_params 0 nulls types v 0 _)
  where
    by_result :
        (r : Result ParseError (List Param))
        → Returns (elim (recovered r) [
          | ok params ↦ some (executed m stmt params)
          | err e ↦ some (set m unknown)
          | panic ↦ none
        ])
    by_result (ok out) = tt
    by_result (err e) = tt
    by_result panic = tt

-- Where there are types behind the first byte, both slices are in range.
execute_first-Returns :
    (spare : Bytes) (m : Fsm) (id : ℕ) (stmt : Stmt) (nulls s : Bytes)
    → 1 + 2 * stmt.num_params ≤ length s
    → Returns (execute_first spare m id stmt nulls (split_types (2 * stmt.num_params) s))
unfolding execute_first split_types
execute_first-Returns spare m id stmt nulls s enough =
    rw (le→leb _ _ enough) (execute_values-Returns _ _ nulls _ _)

execute_again-Returns :
    (spare : Bytes) (m : Fsm) (stmt : Stmt) (nulls s : Bytes)
    → 1 ≤ length s
    → Returns (execute_again spare m stmt nulls s)
unfolding execute_again
execute_again-Returns spare m stmt nulls [] enough = absurd (omega (arith, enough))
execute_again-Returns spare m stmt nulls (b ∷ s) enough = known stmt.types
  where
    known :
        (o : Option Bytes)
        → Returns (elim o [
          | none ↦ some (set m unknown)
          | some types ↦ execute_values m stmt nulls types (record { text = s; spare = spare })
        ])
    known none = tt
    known (some old) = execute_values-Returns m stmt nulls old _

execute_typed-Returns :
    (spare : Bytes) (m : Fsm) (id : ℕ) (stmt : Stmt) (nulls s : Bytes)
    → 1 + 2 * stmt.num_params ≤ length s
    → Returns (execute_typed spare m id stmt nulls s)
unfolding execute_typed
execute_typed-Returns spare m id stmt nulls [] enough = absurd (omega (arith, enough))
execute_typed-Returns spare m id stmt nulls (b ∷ s) enough =
    if-Returns (b == 1) _ _ (λ sent. execute_first-Returns spare m id stmt nulls (b ∷ s) enough)
      (execute_again-Returns spare m stmt nulls (b ∷ s) (omega (arith, enough)))

-- Behind the guard there is a byte, and two for each parameter.
execute_params-Returns :
    (spare : Bytes) (m : Fsm) (id : ℕ) (stmt : Stmt) (s : Bytes)
    → Returns (execute_params spare m id stmt s)
unfolding execute_params
execute_params-Returns spare m id stmt s =
    attempt-Returns m (read_bytes_n s (pos ((stmt.num_params + 7) / 8))) _ (read_bytes_n-Calm s _)
      λ r. elim (Bool-cases (ltb (length r.1) (1 + 2 * stmt.num_params))) [
        | inl short ↦ rw short tt
        | inr long ↦ rw long (execute_typed-Returns spare m id stmt r.0 r.1 (ground arith))
      ]

pub execute_stmt-Returns :
    (spare : Bytes) (m : Fsm) (id : ℕ) (s : Bytes) (o : Option Stmt)
    → Returns (execute_stmt spare m id s o)
unfolding execute_stmt
execute_stmt-Returns spare m id s none = tt
execute_stmt-Returns spare m id s (some stmt) =
    attempt-Returns m (read_bytes_n s (pos 5)) _ (read_bytes_n-Calm s 5) λ r.
      if-Returns (ltb 0 stmt.num_params) _ _
        (λ some_params. execute_params-Returns spare m id stmt r.1) tt
