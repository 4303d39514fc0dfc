-- ===== src/Stats/Tests.antt =====
-- Calls at which the theorems on stats/counter.go are applied.
use Prim.Native.String.{String}
use text.Mathlib.TextEquality.{eq_iff}
use mathlib.Core.Option.{get_or}
use mysql_replay.Base.{ℕ, ◌-◌, ◌%◌, ◌^◌, ◌≡◌, ◌⊎◌, some, List, [], ◌∷◌, true, false}
use mysql_replay.Base.Int.{ℤ, pos, ◌≤ℤ◌}
use mysql_replay.Base.Map.{lookup, string_eq}
use mysql_replay.Stats.Counter.{get, dump}
use mysql_replay.Stats.Dump.{dump-run}
use mysql_replay.Stats.Lagging.{
  delay_of, last_delay, get_lagging, get_lagging-run, run as run_lagging,
}
use mysql_replay.Stats.Laws.{run, sum_of, initial, get-run}

abbrev some_adds : List (String × ℕ)
some_adds = ("queries", 3) ∷ ("retries", 1) ∷ ("queries", 2 ^ 64 - 1) ∷ []

get-run_example : get (run initial some_adds) "queries" ≡ sum_of "queries" some_adds % 2 ^ 64
get-run_example = get-run some_adds "queries"

dump-run_example :
    get_or (lookup "retries" (dump (run initial some_adds))) 0
    ≡ get (run initial some_adds) "retries"
dump-run_example =
    dump-run some_adds "retries" (λ e. let h : false ≡ true = (eq_iff _ _).1 e in cc h)
      (λ e. let h : false ≡ true = (eq_iff _ _).1 e in cc h)

abbrev some_delays : List (ℕ × ℤ)
some_delays = (1, pos 0) ∷ (2, pos 30) ∷ (1, pos 500) ∷ []

get_lagging-run_example :
    (delay_of 2 some_delays ≤ℤ get_lagging (run_lagging some_delays))
    × ((get_lagging (run_lagging some_delays) ≡ pos 0)
        ⊎ ((j : ℕ) × (last_delay j some_delays ≡ some (get_lagging (run_lagging some_delays)))))
get_lagging-run_example = get_lagging-run some_delays 2
