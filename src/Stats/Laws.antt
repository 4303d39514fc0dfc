-- ===== src/Stats/Laws.antt =====
-- stats/counter.go: `Get` behind any calls of `Add`.
use Prim.Native.String.{String}
use text.Mathlib.Text.{◌==◌}
use text.Mathlib.TextEquality.{eq_iff}
use mathlib.Core.Logic.{if_pos, if_neg}
use mysql_replay.Base.{
  ℕ, ◌+◌, ◌%◌, ◌^◌, ◌<◌, Option, none, some, List, [], ◌∷◌, false, ◌≡◌, ◌≢◌, ◌∙◌, inl, inr, refl,
  sym, ap, arith, if◌then◌else◌, Bool-cases, Option-cases,
}
use mysql_replay.Base.Map.{lookup, string_eq, lookup-insert, beq_refl, beq_ne}
use mysql_replay.Stats.Counter.{
  Variable, packets, data_in, data_out, running_conns, waiting_conns, queries, stmt_executes,
  stmt_prepares, streams, conns, err_queries, err_stmt_executes, err_stmt_prepares,
  Variable-discrete, name, Counters, variable, add64, update, add_at, add, get_at, get,
}

variable-name : (v : Variable) → variable (name v) ≡ some v
unfolding variable
variable-name packets = refl
variable-name _ = refl

module _ (n : String) (v : Variable) where
  -- One case of the switch.
  named :
      (w : Variable) (rest : Option Variable)
      → (rest ≡ some v → n ≡ name v)
      → (if n == name w then some w else rest) ≡ some v
      → n ≡ name v
  named w rest later h = elim (Bool-cases (n == name w)) [
    | inl e ↦ let same : w ≡ v = cc (rw e at h) in (eq_iff n (name w)).0 e ∙ ap name same
    | inr e ↦ later (rw e at h)
  ]

  pub name-variable : variable n ≡ some v → n ≡ name v
  unfolding variable
  name-variable = named packets _ (
      named data_in _ (
        named data_out _ (
          named running_conns _ (
            named waiting_conns _ (
              named queries _ (
                named stmt_executes _ (
                  named stmt_prepares _ (
                    named streams _ (
                      named conns _ (
                        named err_queries _ (
                          named err_stmt_executes _ (named err_stmt_prepares _ (λ h. cc)))))))))))))

update_self : (f : Variable → ℕ) (v : Variable) (x : ℕ) → update f v x v ≡ x
unfolding update
update_self f v x = if_pos (Variable-discrete v v) refl x (f v)

update_ne : (f : Variable → ℕ) (v w : Variable) (x : ℕ) → v ≢ w → update f v x w ≡ f w
unfolding update
update_ne f v w x h = if_neg (Variable-discrete v w) h x (f w)

pub variable-none : (n : String) → variable n ≡ none → (v : Variable) → (n == name v) ≡ false
variable-none n h v = elim (Bool-cases (n == name v)) [
  | inl e ↦ cc (ap variable ((eq_iff n (name v)).0 e), variable-name v)
  | inr e ↦ e
]

-- Two names of one variable are one name.
variable_injective :
    (n m : String) (v w : Variable) → variable n ≡ some v → variable m ≡ some w → n ≢ m → v ≢ w
variable_injective n m v w h k ne e =
    ne (name-variable n v h ∙ ap name e ∙ sym (name-variable m w k))

get-add_ne : (c : Counters) (n m : String) (d : ℕ) → n ≢ m → get (add c n d).0 m ≡ get c m
unfolding get add
get-add_ne c n m d ne = elim (Option-cases (variable n)) [
  | inl h ↦ elim (Option-cases (variable m)) [
    | inl k ↦ rw (h, k, add_at, get_at) (rw (lookup-insert n m _ c.others, beq_ne n m ne))
    | inr (w, k) ↦ rw (h, k, add_at, get_at)
  ]
  | inr (v, h) ↦ elim (Option-cases (variable m)) [
    | inl k ↦ rw (h, k, add_at, get_at)
    | inr (w, k) ↦
        rw (h, k, add_at, get_at) (update_ne c.value v w _ (variable_injective n m v w h k ne))
  ]
]

get-add_self : (c : Counters) (n : String) (d : ℕ) → get (add c n d).0 n ≡ add64 (get c n) d
unfolding get add
get-add_self c n d = elim (Option-cases (variable n)) [
  | inl h ↦ rw (h, add_at, get_at) (rw (lookup-insert n n _ c.others, beq_refl n))
  | inr (v, h) ↦ rw (h, add_at, get_at) (update_self c.value v _)
]

get-add :
    (c : Counters) (n m : String) (d : ℕ)
    → get (add c n d).0 m ≡ (if n == m then add64 (get c n) d else get c m)
get-add c n m d = elim (Bool-cases (n == m)) [
  | inl e ↦ rw (e, ← (eq_iff n m).0 e) (get-add_self c n d)
  | inr e ↦ rw e (get-add_ne c n m d (λ q. cc (e, (eq_iff n m).1 q)))
]

add_value : (c : Counters) (n : String) (d : ℕ) → (add c n d).1 ≡ add64 (get c n) d
unfolding get add
add_value c n d = elim (Option-cases (variable n)) [
  | inl h ↦ rw (h, add_at, get_at)
  | inr (v, h) ↦ rw (h, add_at, get_at)
]

-- `Add` returns the new value of the counter of its name, and changes that counter alone, by adding
-- modulo 2 ^ 64.
pub add_lem :
    (c : Counters) (n m : String) (d : ℕ)
    → ((add c n d).1 ≡ get (add c n d).0 n)
      × (get (add c n d).0 m ≡ (if n == m then add64 (get c n) d else get c m))
add_lem c n m d = (add_value c n d ∙ sym (get-add_self c n d), get-add c n m d)

-- The calls of `Add` in the order in which they take effect.
abbrev pub run : Counters → List (String × ℕ) → Counters
run c [] = c
run c ((n, d) ∷ ops) = run (add c n d).0 ops

abbrev pub sum_of : String → List (String × ℕ) → ℕ
sum_of n [] = 0
sum_of n ((m, d) ∷ ops) = (if m == n then d else 0) + sum_of n ops

get-run_lt :
    (c : Counters) (ops : List (String × ℕ)) (n : String)
    → get c n < 2 ^ 64
    → get (run c ops) n ≡ (get c n + sum_of n ops) % 2 ^ 64
get-run_lt c [] n h = omega arith
get-run_lt c ((m, d) ∷ ops) n h = elim (Bool-cases (m == n)) [
  | inl e ↦
      let now : get (add c m d).0 n ≡ add64 (get c n) d =
        rw ((eq_iff m n).0 e) (get-add_self c n d) in
      rw e (omega (arith, now, get-run_lt (add c m d).0 ops n (omega (arith, now))))
  | inr e ↦
      let now : get (add c m d).0 n ≡ get c n =
        get-add_ne c m n d (λ q. cc (e, (eq_iff m n).1 q)) in
      rw e (omega (arith, now, get-run_lt (add c m d).0 ops n (omega (arith, now))))
]

abbrev pub initial : Counters
initial = record { value = λ v. 0; others = [] }

get-initial : (n : String) → get initial n ≡ 0
unfolding get lookup
get-initial n = elim (Option-cases (variable n)) [
  | inl h ↦ rw (h, get_at)
  | inr (v, h) ↦ rw (h, get_at)
]

-- After any calls of `Add`, in any order, a counter is the sum of its deltas modulo 2 ^ 64.
pub get-run :
    (ops : List (String × ℕ)) (n : String) → get (run initial ops) n ≡ sum_of n ops % 2 ^ 64
get-run ops n =
    omega (arith, get-initial n, get-run_lt initial ops n (omega (arith, get-initial n)))
