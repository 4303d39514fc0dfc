-- ===== src/Stats/Lagging.antt =====
-- stats/counter.go: `SetLagging` and `GetLagging`. The table holds a delay for each slow connection;
-- a delay is an `int64` of nanoseconds. `sync.Map` makes each operation one step.
use mathlib.Core.Option.{get_or}
use mysql_replay.Base.{
  ℕ, Option, none, some, List, [], ◌∷◌, ◌≡◌, ◌∙◌, ◌⊎◌, inl, inr, refl, sym, arith, if◌then◌else◌,
  Bool-cases, ◌==◌, ==_iff, ==_refl,
}
use mysql_replay.Base.Int.{ℤ, pos, ltb_ℤ, ◌≤ℤ◌}
use mysql_replay.Base.Map.{
  Map, lookup, insert, erase, nat_eq, lookup-insert, lookup-erase, lookup-cons, Distinct,
  insert-Distinct, erase-Distinct,
}

abbrev pub Laggings : Type 0
Laggings = Map ℕ ℤ

-- `d <= 0` removes the connection.
unfoldable pub set_lagging : Laggings → ℕ → ℤ → Laggings
set_lagging m c d = if ltb_ℤ (pos 0) d then insert c d m else erase c m

-- One round of `Range`.
abbrev pub larger : ℤ → ℤ → ℤ
larger d dd = if ltb_ℤ d dd then dd else d

pub scan_lagging : Laggings → ℤ → ℤ
scan_lagging [] d = d
scan_lagging ((c, dd) ∷ m) d = scan_lagging m (larger d dd)

unfoldable pub get_lagging : Laggings → ℤ
unfolding scan_lagging
get_lagging m = scan_lagging m (pos 0)

lookup-set_lagging :
    (m : Laggings) (c k : ℕ) (d : ℤ)
    → lookup k (set_lagging m c d)
      ≡ (if c == k then (if ltb_ℤ (pos 0) d then some d else none) else lookup k m)
unfolding set_lagging
lookup-set_lagging m c k d = elim (Bool-cases (ltb_ℤ (pos 0) d)) [
  | inl e ↦ rw e (lookup-insert c k d m)
  | inr e ↦ rw e (lookup-erase c k m)
]

set_lagging-Distinct : (m : Laggings) (c : ℕ) (d : ℤ) → Distinct m → Distinct (set_lagging m c d)
unfolding set_lagging
set_lagging-Distinct m c d h = elim (Bool-cases (ltb_ℤ (pos 0) d)) [
  | inl e ↦ rw e (insert-Distinct c d m h)
  | inr e ↦ rw e (erase-Distinct c m h)
]

le-scan_lagging : (m : Laggings) (d : ℤ) → d ≤ℤ scan_lagging m d
unfolding scan_lagging
le-scan_lagging [] d = omega arith
le-scan_lagging ((c, dd) ∷ m) d = ground (arith, le-scan_lagging m (larger d dd))

scan_lagging_upper :
    (m : Laggings) (d : ℤ) (c : ℕ) {x : ℤ} → lookup c m ≡ some x → x ≤ℤ scan_lagging m d
unfolding scan_lagging
scan_lagging_upper [] d c h = unfold lookup in cc h
scan_lagging_upper ((j, dd) ∷ m) d c {x} h = elim (Bool-cases (j == c)) [
  | inl e ↦
      let same : dd ≡ x = cc (rw (lookup-cons c j dd m, e) at h) in
      ground (arith, le-scan_lagging m (larger d dd))
  | inr e ↦ scan_lagging_upper m (larger d dd) c (rw (lookup-cons c j dd m, e) at h)
]

-- A step keeps a reached value reached.
reached_later :
    (j : ℕ) (dd x : ℤ) (m : Laggings)
    → lookup j m ≡ none
    → (c : ℕ) × (lookup c m ≡ some x)
    → (c : ℕ) × (lookup c ((j, dd) ∷ m) ≡ some x)
reached_later j dd x m free (c, h) = elim (Bool-cases (j == c)) [
  | inl e ↦ absurd (cc (h, rw ((==_iff j c).0 e) at free))
  | inr e ↦ (c, rw (lookup-cons c j dd m, e) h)
]

scan_lagging_reached :
    (m : Laggings) (d : ℤ)
    → Distinct m
    → (scan_lagging m d ≡ d) ⊎ ((c : ℕ) × (lookup c m ≡ some (scan_lagging m d)))
unfolding scan_lagging
scan_lagging_reached [] d h = inl refl
scan_lagging_reached ((j, dd) ∷ m) d h = elim (Bool-cases (ltb_ℤ d dd)) [
  | inl e ↦ rw e (elim (scan_lagging_reached m dd h.1) [
    | inl q ↦ inr (j, rw (lookup-cons j j dd m, ==_refl j, q))
    | inr r ↦ inr (reached_later j dd _ m h.0 r)
  ])
  | inr e ↦ rw e (elim (scan_lagging_reached m d h.1) [
    | inl q ↦ inl q
    | inr r ↦ inr (reached_later j dd _ m h.0 r)
  ])
]

-- The calls of `SetLagging` in the order in which they take effect.
abbrev pub run : List (ℕ × ℤ) → Laggings
run [] = []
run ((c, d) ∷ ops) = set_lagging (run ops) c d

run-Distinct : (ops : List (ℕ × ℤ)) → Distinct (run ops)
run-Distinct [] = tt
run-Distinct ((c, d) ∷ ops) = set_lagging-Distinct (run ops) c d (run-Distinct ops)

-- The delay that a connection was set to last, if that is positive. The last call stands first.
abbrev pub last_delay : ℕ → List (ℕ × ℤ) → Option ℤ
last_delay k [] = none
last_delay k ((c, d) ∷ ops) =
    if c == k then (if ltb_ℤ (pos 0) d then some d else none) else last_delay k ops

lookup-run : (ops : List (ℕ × ℤ)) (k : ℕ) → lookup k (run ops) ≡ last_delay k ops
lookup-run [] k = unfold lookup in refl
lookup-run ((c, d) ∷ ops) k = lookup-set_lagging (run ops) c k d ∙ rw (lookup-run ops k)

-- The same, 0 where there is none.
abbrev pub delay_of : ℕ → List (ℕ × ℤ) → ℤ
delay_of k ops = get_or (last_delay k ops) (pos 0)

delay_of-le :
    (k : ℕ) (ops : List (ℕ × ℤ)) (o : Option ℤ)
    → last_delay k ops ≡ o
    → get_or o (pos 0) ≤ℤ get_lagging (run ops)
unfolding get_lagging
delay_of-le k ops none h = le-scan_lagging (run ops) (pos 0)
delay_of-le k ops (some x) h = scan_lagging_upper (run ops) (pos 0) k (lookup-run ops k ∙ h)

-- After any calls of `SetLagging`, `GetLagging` is at least the last delay of every connection, where
-- that is positive, and is one of these or 0.
pub get_lagging-run :
    (ops : List (ℕ × ℤ)) (k : ℕ)
    → (delay_of k ops ≤ℤ get_lagging (run ops))
      × ((get_lagging (run ops) ≡ pos 0)
          ⊎ ((j : ℕ) × (last_delay j ops ≡ some (get_lagging (run ops)))))
unfolding get_lagging
get_lagging-run ops k = (
  delay_of-le k ops (last_delay k ops) refl,
  elim (scan_lagging_reached (run ops) (pos 0) (run-Distinct ops)) [
    | inl e ↦ inl e
    | inr (j, h) ↦ inr (j, sym (lookup-run ops j) ∙ h)
  ],
)
