-- ===== src/Base/Map.antt =====
-- Go's maps as association lists with one entry for a key at most, and the class of key types.
use Prim.Native.Nat.{ℕ}
use Prim.Native.String.{String}
use mathlib.Core.Bool.{Bool, true, false}
use mathlib.Core.List.{List, [], ◌∷◌}
use mathlib.Core.Logic.{◌↔◌, inl, inr, ◌≢◌}
use mathlib.Core.Option.{Option, none, some}
use mathlib.Core.Path.{◌≡◌, refl, sym}
use native.Mathlib.Omega.{arith}
use text.Mathlib.Text.{◌==◌ as str_eq}
use text.Mathlib.TextEquality.{eq_iff}
use mysql_replay.Base.Lists.{All}
use mysql_replay.Base.Tests.{◌==◌ as nat_beq, ==_iff, if◌then◌else◌, Bool-cases}

pub record Eq {ℓ} (A : Type ℓ) : Type ℓ where
  pub beq : A → A → Bool
  pub beq_iff : (a b : A) → (beq a b ≡ true) ↔ (a ≡ b)

instance abbrev pub nat_eq : Eq ℕ
nat_eq = record { beq = nat_beq; beq_iff = ==_iff }

instance abbrev pub string_eq : Eq String
string_eq = record { beq = str_eq; beq_iff = eq_iff }

abbrev pub Map {ℓ κ} : Type ℓ → Type κ → Type (ℓ ⊔ κ)
Map K V = List (K × V)

module _ {ℓ κ} {K : Type ℓ} {V : Type κ} ⦃e : Eq K⦄ where
  unfoldable pub lookup : K → Map K V → Option V
  lookup k [] = none
  lookup k ((j, v) ∷ m) = if e.beq j k then some v else lookup k m

  unfoldable pub insert : K → V → Map K V → Map K V
  insert k v [] = (k, v) ∷ []
  insert k v ((j, w) ∷ m) = if e.beq j k then (k, v) ∷ m else (j, w) ∷ insert k v m

  -- `delete(m, k)`
  unfoldable pub erase : K → Map K V → Map K V
  erase k [] = []
  erase k ((j, w) ∷ m) = let rest = erase k m in if e.beq j k then rest else (j, w) ∷ rest

  pub lookup-cons :
      (k j : K) (v : V) (m : Map K V)
      → lookup k ((j, v) ∷ m) ≡ (if e.beq j k then some v else lookup k m)
  unfolding lookup
  lookup-cons k j v m = refl

  pub insert-cons :
      (k j : K) (v w : V) (m : Map K V)
      → insert k v ((j, w) ∷ m) ≡ (if e.beq j k then (k, v) ∷ m else (j, w) ∷ insert k v m)
  unfolding insert
  insert-cons k j v w m = refl

  pub lookup-insert :
      (k j : K) (v : V) (m : Map K V)
      → lookup j (insert k v m) ≡ (if e.beq k j then some v else lookup j m)
  unfolding lookup insert
  lookup-insert k j v [] = refl
  lookup-insert k j v ((i, w) ∷ m) =
      ground (arith, e.beq_iff k j, e.beq_iff i k, e.beq_iff i j, lookup-insert k j v m)

  pub lookup-erase :
      (k j : K) (m : Map K V) → lookup j (erase k m) ≡ (if e.beq k j then none else lookup j m)
  unfolding lookup erase
  lookup-erase k j [] = ground arith
  lookup-erase k j ((i, w) ∷ m) =
      ground (arith, e.beq_iff k j, e.beq_iff i k, e.beq_iff i j, lookup-erase k j m)

module _ {ℓ} {K : Type ℓ} ⦃e : Eq K⦄ where
  pub beq_refl : (k : K) → e.beq k k ≡ true
  beq_refl k = (e.beq_iff k k).1 refl

  pub beq_ne : (k j : K) → k ≢ j → e.beq k j ≡ false
  beq_ne k j h = elim (Bool-cases (e.beq k j)) [
    | inl t ↦ absurd (h ((e.beq_iff k j).0 t))
    | inr f ↦ f
  ]

module _ {ℓ κ} {K : Type ℓ} {V : Type κ} ⦃e : Eq K⦄ where
  -- No key twice.
  abbrev pub Distinct : Map K V → Type (ℓ ⊔ κ)
  Distinct [] = Unit
  Distinct ((k, v) ∷ m) = (lookup k m ≡ none) × Distinct m

  pub insert-Distinct : (k : K) (v : V) (m : Map K V) → Distinct m → Distinct (insert k v m)
  insert-Distinct k v [] d = unfold insert lookup in (refl, tt)
  insert-Distinct k v ((j, w) ∷ m) d = elim (Bool-cases (e.beq j k)) [
    | inl t ↦ rw (insert-cons k j v w m, t) ((rw ((e.beq_iff j k).0 t) at d.0), d.1)
    | inr f ↦
        let free : lookup j (insert k v m) ≡ none =
          rw (lookup-insert k j v m, beq_ne k j (λ q. cc (f, (e.beq_iff j k).1 (sym q)))) d.0 in
        rw (insert-cons k j v w m, f) (free, insert-Distinct k v m d.1)
  ]

  pub erase-cons :
      (k j : K) (w : V) (m : Map K V)
      → erase k ((j, w) ∷ m) ≡ (if e.beq j k then erase k m else (j, w) ∷ erase k m)
  unfolding erase
  erase-cons k j w m = refl

  pub erase-Distinct : (k : K) (m : Map K V) → Distinct m → Distinct (erase k m)
  erase-Distinct k [] d = unfold erase in tt
  erase-Distinct k ((j, w) ∷ m) d = elim (Bool-cases (e.beq j k)) [
    | inl t ↦ rw (erase-cons k j w m, t) (erase-Distinct k m d.1)
    | inr f ↦
        let free : lookup j (erase k m) ≡ none =
          rw (lookup-erase k j m, beq_ne k j (λ q. cc (f, (e.beq_iff j k).1 (sym q)))) d.0 in
        rw (erase-cons k j w m, f) (free, erase-Distinct k m d.1)
  ]

module _ {ℓ κ μ} {K : Type ℓ} {V : Type κ} ⦃e : Eq K⦄ (P : K × V → Type μ) where
  pub All-insert : (k : K) (v : V) (m : Map K V) → P (k, v) → All P m → All P (insert k v m)
  unfolding insert
  All-insert k v [] p h = (p, tt)
  All-insert k v ((j, w) ∷ m) p h = elim (Bool-cases (e.beq j k)) [
    | inl t ↦ rw t (p, h.1)
    | inr f ↦ rw f (h.0, All-insert k v m p h.1)
  ]

  pub All-erase : (k : K) (m : Map K V) → All P m → All P (erase k m)
  unfolding erase
  All-erase k [] h = tt
  All-erase k ((j, w) ∷ m) h = elim (Bool-cases (e.beq j k)) [
    | inl t ↦ rw t (All-erase k m h.1)
    | inr f ↦ rw f (h.0, All-erase k m h.1)
  ]

  pub All-lookup : (k : K) (v : V) (m : Map K V) → All P m → lookup k m ≡ some v → P (k, v)
  unfolding lookup
  All-lookup k v [] h q = cc
  All-lookup k v ((j, w) ∷ m) h q = elim (Bool-cases (e.beq j k)) [
    | inl t ↦ let same : w ≡ v = cc (rw t at q) in rw (sym ((e.beq_iff j k).0 t), sym same) h.0
    | inr f ↦ All-lookup k v m h.1 (rw f at q)
  ]
