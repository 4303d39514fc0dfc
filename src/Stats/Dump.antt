-- ===== src/Stats/Dump.antt =====
-- stats/counter.go: `Dump` and `Get`.
use Prim.Native.String.{String}
use text.Mathlib.Text.{◌==◌}
use text.Mathlib.TextEquality.{eq_iff}
use mathlib.Core.Option.{get_or}
use mysql_replay.Base.{
  ℕ, Option, none, some, List, [], ◌∷◌, Bool, true, false, ◌||◌, ◌≡◌, ◌≢◌, ◌∙◌, inl, inr, refl, sym,
  ap, if◌then◌else◌, Bool-cases, Option-cases,
}
use mysql_replay.Base.Map.{
  Map, lookup, insert, string_eq, lookup-cons, insert-cons, lookup-insert, beq_ne,
}
use mysql_replay.Stats.Counter.{
  Variable, packets, data_in, data_out, running_conns, waiting_conns, queries, stmt_executes,
  stmt_prepares, streams, conns, err_queries, err_stmt_executes, err_stmt_prepares, name, Counters,
  variable, add_at, add, get_at, get, metrics, dump_metrics, dump_others, dump,
}
use mysql_replay.Stats.Laws.{name-variable, variable-none, initial, run}

-- No key twice, and no key that has a variable of its own.
abbrev pub IsClean : Map String ℕ → Type 0
IsClean [] = Unit
IsClean ((k, v) ∷ m) = (lookup k m ≡ none) × (variable k ≡ none) × IsClean m

insert-IsClean :
    (k : String) (v : ℕ) (m : Map String ℕ) → variable k ≡ none → IsClean m → IsClean (insert k v m)
insert-IsClean k v [] h c = unfold insert lookup in (refl, h, tt)
insert-IsClean k v ((j, w) ∷ m) h c = elim (Bool-cases (j == k)) [
  | inl e ↦ rw (insert-cons k j v w m, e) ((rw ((eq_iff j k).0 e) at c.0), h, c.2)
  | inr e ↦
      let free : lookup j (insert k v m) ≡ none =
        rw (lookup-insert k j v m, beq_ne k j (λ q. cc (e, (eq_iff j k).1 (sym q)))) c.0 in
      let rest = insert-IsClean k v m h c.2 in rw (insert-cons k j v w m, e) (free, c.1, rest)
]

add-IsClean : (c : Counters) (n : String) (d : ℕ) → IsClean c.others → IsClean (add c n d).0.others
unfolding add
add-IsClean c n d h = elim (Option-cases (variable n)) [
  | inl e ↦ rw (e, add_at) (insert-IsClean n _ c.others e h)
  | inr (v, e) ↦ rw (e, add_at) h
]

run-IsClean :
    (c : Counters) (ops : List (String × ℕ)) → IsClean c.others → IsClean (run c ops).others
run-IsClean c [] h = h
run-IsClean c ((n, d) ∷ ops) h = run-IsClean (add c n d).0 ops (add-IsClean c n d h)

-- A name with a variable is no key.
IsClean-none :
    (n : String) (v : Variable) (m : Map String ℕ)
    → IsClean m
    → variable n ≡ some v
    → lookup n m ≡ none
unfolding lookup
IsClean-none n v [] h e = refl
IsClean-none n v ((k, w) ∷ m) h e =
    let ne : (k == n) ≡ false = beq_ne k n (λ q. cc (h.1, e, ap variable q)) in
    rw ne (IsClean-none n v m h.2 e)

lookup-dump_others-none :
    (n : String) (m out : Map String ℕ)
    → lookup n m ≡ none
    → lookup n (dump_others m out) ≡ lookup n out
unfolding dump_others
lookup-dump_others-none n [] out h = refl
lookup-dump_others-none n ((k, v) ∷ m) out h = elim (Bool-cases (k == n)) [
  | inl e ↦ cc (rw (lookup-cons n k v m, e) at h)
  | inr e ↦
      lookup-dump_others-none n m (insert k v out) (rw (lookup-cons n k v m, e) at h)
      ∙ rw (lookup-insert k n v out, e)
]

lookup-dump_others :
    (n : String) (m out : Map String ℕ) (x : ℕ)
    → IsClean m
    → lookup n m ≡ some x
    → lookup n (dump_others m out) ≡ some x
unfolding dump_others
lookup-dump_others n [] out x c h = unfold lookup in cc h
lookup-dump_others n ((k, v) ∷ m) out x c h = elim (Bool-cases (k == n)) [
  | inl e ↦
      let here : some v ≡ some x = rw (lookup-cons n k v m, e) at h in
      lookup-dump_others-none n m (insert k v out) (rw ((eq_iff k n).0 e) at c.0)
      ∙ rw (lookup-insert k n v out, e) here
  | inr e ↦ lookup-dump_others n m (insert k v out) x c.2 (rw (lookup-cons n k v m, e) at h)
]

abbrev has : String → List String → Bool
has n [] = false
has n (k ∷ ns) = k == n || has n ns

named :
    (c : Counters) (n k : String) (later : Bool) (o : Option ℕ)
    → (if later then some (get c n) else if k == n then some (get c k) else o)
      ≡ (if k == n || later then some (get c n) else o)
named c n k later o = elim (Bool-cases (k == n)) [
  | inl e ↦ rw (e, (eq_iff k n).0 e) (both later (some (get c n)))
  | inr e ↦ rw e
]
  where
    both : (b : Bool) (x : Option ℕ) → (if b then x else x) ≡ x
    both true x = refl
    both false x = refl

lookup-dump_metrics :
    (c : Counters) (n : String) (ns : List String) (out : Map String ℕ)
    → lookup n (dump_metrics c ns out) ≡ (if has n ns then some (get c n) else lookup n out)
unfolding dump_metrics
lookup-dump_metrics c n [] out = refl
lookup-dump_metrics c n (k ∷ ns) out =
    lookup-dump_metrics c n ns (insert k (get c k) out)
    ∙ rw (lookup-insert k n (get c k) out) (named c n k (has n ns) _)

-- The list `metrics` names every variable but the two of the traffic.
has-metrics : (v : Variable) → v ≢ data_in → v ≢ data_out → has (name v) metrics ≡ true
has-metrics data_in a b = absurd (a refl)
has-metrics data_out a b = absurd (b refl)
has-metrics _ a b = refl

no_name : (n : String) → variable n ≡ none → (v : Variable) → (name v == n) ≡ false
no_name n h v = elim (Bool-cases (name v == n)) [
  | inl e ↦ cc (variable-none n h v, (eq_iff n (name v)).1 (sym ((eq_iff (name v) n).0 e)))
  | inr e ↦ e
]

has-metrics-none : (n : String) → variable n ≡ none → has n metrics ≡ false
has-metrics-none n h = rw (
  no_name n h packets,
  no_name n h queries,
  no_name n h stmt_executes,
  no_name n h stmt_prepares,
  no_name n h streams,
  no_name n h conns,
  no_name n h err_queries,
  no_name n h err_stmt_executes,
  no_name n h err_stmt_prepares,
  no_name n h waiting_conns,
  no_name n h running_conns,
)

lookup-dump :
    (c : Counters) (n : String)
    → IsClean c.others
    → n ≢ name data_in
    → n ≢ name data_out
    → get_or (lookup n (dump c)) 0 ≡ get c n
unfolding dump get
lookup-dump c n h a b = elim (Option-cases (variable n)) [
  | inl e ↦ elim (Option-cases (lookup n c.others)) [
    | inl f ↦
        rw (lookup-dump_others-none n c.others _ f, lookup-dump_metrics c n metrics [])
          (rw (has-metrics-none n e) (unfold lookup in rw (e, get_at, f)))
    | inr (x, f) ↦ rw (lookup-dump_others n c.others _ x h f, e, get_at, f)
  ]
  | inr (v, e) ↦
      let q = name-variable n v e in
      let m : has n metrics ≡ true =
        rw q (has-metrics v (λ z. a (q ∙ ap name z)) (λ z. b (q ∙ ap name z))) in
      rw
        (
          lookup-dump_others-none n c.others _ (IsClean-none n v c.others h e),
          lookup-dump_metrics c n metrics [],
          m,
        )
        refl
]

-- After any calls of `Add`, `Dump` gives each name but the two of the traffic counters the value
-- that `Get` gives it, a missing key read as 0.
pub dump-run :
    (ops : List (String × ℕ)) (n : String)
    → n ≢ name data_in
    → n ≢ name data_out
    → get_or (lookup n (dump (run initial ops))) 0 ≡ get (run initial ops) n
dump-run ops n a b = lookup-dump (run initial ops) n (run-IsClean initial ops tt) a b
