-- ===== src/Store/Claims.antt =====
-- core/store.go: the rows that `Call` takes.
use mysql_replay.Base.{
  ℕ, suc, ◌+◌, ◌≤◌, ◌<◌, Bool, true, false, List, [], ◌∷◌, Option, none, some, ◌≡◌, ◌≢◌, inl, inr,
  refl, sym, arith, if◌then◌else◌, ◌==◌, ==_iff, ne→==, Bool-cases, length, get_elem?, All,
}
use mysql_replay.Base.Map.{lookup, nat_eq, lookup-insert, lookup-erase}
use mysql_replay.Store.{Row, Wip, marked, claim, release, Step, claims, releases, next, steps}

-- The indices that are left are those of an answer of ten rows at most.
abbrev pub IsSmall : Step → Type 0
IsSmall (claims rs) = length rs ≤ 10
IsSmall (releases i) = i < 10

claim-marked :
    (w : Wip) (i : ℕ) (rs : List Row) (id : ℕ)
    → lookup id w ≡ some true
    → lookup id (claim w i rs).1 ≡ some true
unfolding claim
claim-marked w i [] id e = e
claim-marked w i (r ∷ rs) id e = elim (Bool-cases (marked (lookup r.id w))) [
  | inl k ↦ rw k (claim-marked w (suc i) rs id e)
  | inr k ↦ rw (k, lookup-insert r.id id true w) (again (r.id == id))
]
  where
    again : (b : Bool) → (if b then some true else lookup id w) ≡ some true
    again true = refl
    again false = e

-- What was taken is a row that nobody worked on.
claim-free :
    (w : Wip) (i j : ℕ) (rs : List Row)
    → (claim w i rs).0 ≡ some j
    → (r : Row) × (k : ℕ) × (j ≡ i + k)
      × (get_elem? rs k ≡ some r)
      × (marked (lookup r.id w) ≡ false)
      × (lookup r.id (claim w i rs).1 ≡ some true)
unfolding claim
claim-free w i j [] e = cc
claim-free w i j (r ∷ rs) e = elim (Bool-cases (marked (lookup r.id w))) [
  | inl k ↦
      let (q, n, a, b, c, d) = claim-free w (suc i) j rs (rw k at e) in
      (q, suc n, omega (arith, a), b, c, rw k d)
  | inr k ↦
      let same : i ≡ j = cc (rw k at e) in
      let self : (r.id == r.id) ≡ true = (==_iff r.id r.id).1 refl in
      (r, 0, omega (arith, same), refl, k, rw (k, lookup-insert r.id r.id true w, self) refl)
]

steps-marked :
    (w : Wip) (ss : List Step) (id : ℕ)
    → All IsSmall ss
    → 10 ≤ id
    → lookup id w ≡ some true
    → lookup id (steps w ss) ≡ some true
unfolding next release
steps-marked w [] id a big e = e
steps-marked w (claims rs ∷ ss) id (a, all) big e =
    steps-marked (claim w 0 rs).1 ss id all big (claim-marked w 0 rs id e)
steps-marked w (releases i ∷ ss) id (a, all) big e =
    let other : (i == id) ≡ false = ne→== i id (λ q. omega (arith, q, a, big)) in
    steps-marked (release w i) ss id all big (rw (lookup-erase i id w, other) e)

-- A task with an id of 10 or more that a worker has taken was free. Whatever the workers of the store take
-- and leave after that, from answers of ten rows at most, this one leaving the task included, no later
-- answer has it taken again, not even where the state of the task could not be written.
pub claim-once :
    (w : Wip) (rs others : List Row) (ss : List Step) (i j : ℕ) (r q : Row)
    → (claim w 0 rs).0 ≡ some i
    → get_elem? rs i ≡ some r
    → 10 ≤ r.id
    → All IsSmall ss
    → (claim (steps (claim w 0 rs).1 ss) 0 others).0 ≡ some j
    → get_elem? others j ≡ some q
    → (marked (lookup r.id w) ≡ false) × (q.id ≢ r.id)
claim-once w rs others ss i j r q taken at_i big small again at_j =
    let (x, n, a, b, c, d) = claim-free w 0 i rs taken in
    let place : i ≡ n = omega (arith, a) in
    let same : x ≡ r = cc (at_i, b, place) in
    let (y, m, a2, b2, c2, d2) = claim-free (steps (claim w 0 rs).1 ss) 0 j others again in
    let place2 : j ≡ m = omega (arith, a2) in
    let same2 : y ≡ q = cc (at_j, b2, place2) in
    let now : lookup r.id (claim w 0 rs).1 ≡ some true = rw (sym same) d in
    let still : lookup r.id (steps (claim w 0 rs).1 ss) ≡ some true =
      steps-marked (claim w 0 rs).1 ss r.id small big now in
    let free : marked (lookup q.id (steps (claim w 0 rs).1 ss)) ≡ false = rw (sym same2) c2 in
    (rw (sym same) c, λ e. clash (lookup q.id (steps (claim w 0 rs).1 ss)) free (rw e still))
  where
    clash : (o : Option Bool) → marked o ≡ false → o ≡ some true → ⊥
    clash none f e = cc
    clash (some b) f e = cc
