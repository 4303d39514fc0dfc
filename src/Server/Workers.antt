-- ===== src/Server/Workers.antt =====
-- core/server.go: the workers of the channels, and their pauses.
use Prim.Native.Nat.{min}
use Prim.Native.String.{String}
use text.Mathlib.Text.{◌==◌ as same}
use text.Mathlib.TextEquality.{eq_iff}
use mysql_replay.Base.{
  ℕ, ◌+◌, ◌*◌, ◌≤◌, Bool, true, false, List, [], ◌∷◌, Option, none, some, ◌≡◌, inl, inr, refl, sym,
  ap, arith, All, if◌then◌else◌, Bool-cases, Option-cases,
}
use mysql_replay.Base.Map.{lookup, insert, string_eq, lookup-insert}
use mysql_replay.Server.{Workers, serve, started, longer, pauses, first_pause}

-- How often a channel is in a list, and whether it is.
abbrev pub times : String → List String → ℕ
times ch [] = 0
times ch (x ∷ xs) = (if same x ch then 1 else 0) + times ch xs

abbrev pub occurs : String → List String → Bool
occurs ch [] = false
occurs ch (x ∷ xs) = if same x ch then true else occurs ch xs

abbrev once : Option (Unit {0}) → Bool → ℕ
once (some u) b = 0
once none b = if b then 1 else 0

times-started :
    (chs : List String) (ws : Workers) (ch : String)
    → times ch (started ws chs) ≡ once (lookup ch ws) (occurs ch chs)
unfolding started serve
times-started [] ws ch = none_left (lookup ch ws)
  where
    none_left : (o : Option (Unit {0})) → 0 ≡ once o false
    none_left none = refl
    none_left (some u) = refl
times-started (x ∷ chs) ws ch = elim (Option-cases (lookup x ws)) [
  | inr (u, e) ↦ elim (Bool-cases (same x ch)) [
    | inl s ↦
        let known : lookup ch ws ≡ some u = rw (sym ((eq_iff x ch).0 s)) e in
        let rest : times ch (started ws chs) ≡ 0 = rw known at (times-started chs ws ch) in
        rw (serve, e, s, known) rest
    | inr s ↦ rw (serve, e, s) (times-started chs ws ch)
  ]
  | inl e ↦
      let later : times ch (started (insert x tt ws) chs)
          ≡ once (lookup ch (insert x tt ws)) (occurs ch chs) =
        times-started chs (insert x tt ws) ch in
      elim (Bool-cases (same x ch)) [
        | inl s ↦
            let free : lookup ch ws ≡ none = rw (sym ((eq_iff x ch).0 s)) e in
            let rest : times ch (started (insert x tt ws) chs) ≡ 0 =
              rw (lookup-insert x ch tt ws, s) at later in
            rw (serve, e, s, free) (omega (arith, rest))
        | inr s ↦
            let rest : times ch (started (insert x tt ws) chs)
                ≡ once (lookup ch ws) (occurs ch chs) =
              rw (lookup-insert x ch tt ws, s) at later in
            rw (serve, e, s) (omega (arith, rest))
      ]
]

-- However requests of channels follow each other, a channel gets a worker once, where it has a request at
-- all, and never a second one.
pub started_once :
    (chs : List String) (ch : String) → times ch (started [] chs) ≡ (if occurs ch chs then 1 else 0)
unfolding lookup
started_once chs ch = times-started chs [] ch

-- The pause behind `n` calls in a row that had nothing to do.
abbrev pub expected : ℕ → List Bool → List ℕ
expected n [] = []
expected n (true ∷ calls) = min (200 * (n + 1)) 60000 ∷ expected (n + 1) calls
expected n (false ∷ calls) = expected 0 calls

pauses-min :
    (n d : ℕ) (calls : List Bool)
    → d ≡ min (200 * (n + 1)) 60000
    → pauses d calls ≡ expected n calls
unfolding pauses
pauses-min n d [] e = refl
pauses-min n d (true ∷ calls) e =
    let next : longer d ≡ min (200 * (n + 1 + 1)) 60000 = ground (arith, e) in
    let rest = pauses-min (n + 1) (longer d) calls next in
    rw rest (ap (λ x. x ∷ expected (n + 1) calls) e)
pauses-min n d (false ∷ calls) e = pauses-min 0 200 calls (omega arith)

expected-bounds :
    (n : ℕ) (calls : List Bool) → All (λ d. (200 ≤ d) × (d ≤ 60000)) (expected n calls)
expected-bounds n [] = tt
expected-bounds n (true ∷ calls) = ((omega arith, omega arith), expected-bounds (n + 1) calls)
expected-bounds n (false ∷ calls) = expected-bounds 0 calls

-- A worker waits 200 milliseconds for each call in a row that had nothing to do, a minute at most, and
-- starts again with 200 behind any other call.
pub pauses-bounds :
    (calls : List Bool)
    → (pauses first_pause calls ≡ expected 0 calls)
      × All (λ d. (200 ≤ d) × (d ≤ 60000)) (pauses first_pause calls)
pauses-bounds calls =
    let e = pauses-min 0 first_pause calls (omega arith) in (e, rw e (expected-bounds 0 calls))
