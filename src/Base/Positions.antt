-- ===== src/Base/Positions.antt =====
-- The rest of a list from a position on.
use Prim.Native.Nat.{ℕ, zero, suc, ◌+◌}
use mathlib.Core.List.{List, [], ◌∷◌, ◌++◌}
use mathlib.Core.Option.{none, some}
use mathlib.Core.Path.{◌≡◌, refl, ap}
use native.Mathlib.Omega.{arith}
use mysql_replay.Base.Lists.{length, drop, get_elem?, length-append, drop-length_append}

-- From `pos` on `s` reads `t`.
pub record At {ℓ} {A : Type ℓ} (s : List A) (pos : ℕ) (t : List A) : Type ℓ where
  pub tail : drop pos s ≡ t
  pub size : length s ≡ pos + length t

module _ {ℓ} {A : Type ℓ} where
  pub At-here : (pre t : List A) → At (pre ++ t) (length pre) t
  At-here pre t = record { tail = drop-length_append pre t; size = length-append pre t }

  drop-append : (n : ℕ) (s w t : List A) → drop n s ≡ w ++ t → drop (n + length w) s ≡ t
  drop-append zero s w t e =
      rw (e) (let z : 0 + length w ≡ length w = omega arith in rw z (drop-length_append w t))
  drop-append (suc n) [] [] t e = let z : suc n + 0 ≡ suc n = omega arith in rw z e
  drop-append (suc n) [] (c ∷ w) t e = absurd (omega (arith, ap length e))
  drop-append (suc n) (c ∷ s) w t e =
      let z : suc n + length w ≡ suc (n + length w) = omega arith in rw z (drop-append n s w t e)

  pub At-skip : {s : List A} {pos : ℕ} (w t : List A) → At s pos (w ++ t) → At s (pos + length w) t
  At-skip {s} {pos} w t a = record {
    tail = drop-append pos s w t a.tail;
    size = omega (arith, a.size, length-append w t);
  }

  pub At-suc : {s : List A} {pos : ℕ} (x : A) (t : List A) → At s pos (x ∷ t) → At s (pos + 1) t
  At-suc x t a = At-skip (x ∷ []) t a

  get_elem?-drop :
      (s : List A) (pos : ℕ) {x : A} {t : List A} → drop pos s ≡ x ∷ t → get_elem? s pos ≡ some x
  get_elem?-drop [] zero h = cc
  get_elem?-drop [] (suc i) h = cc
  get_elem?-drop (y ∷ s) zero h = cc
  get_elem?-drop (y ∷ s) (suc i) h = get_elem?-drop s i h

  pub At-get_elem? :
      {s : List A} {pos : ℕ} {x : A} {t : List A} → At s pos (x ∷ t) → get_elem? s pos ≡ some x
  At-get_elem? {s} {pos} a = get_elem?-drop s pos a.tail

  get_elem?-end : (s : List A) (pos : ℕ) → drop pos s ≡ [] → get_elem? s pos ≡ none
  get_elem?-end [] pos h = refl
  get_elem?-end (y ∷ s) zero h = cc
  get_elem?-end (y ∷ s) (suc i) h = get_elem?-end s i h

  pub At-end : {s : List A} {pos : ℕ} → At s pos [] → get_elem? s pos ≡ none
  At-end {s} {pos} a = get_elem?-end s pos a.tail
