-- ===== src/Play/Handles.antt =====
-- cmd/text.go: the handles that a worker has opened and not closed.
use mysql_replay.Base.{
  ℕ, ◌+◌, Bool, true, false, [], ◌∷◌, Option, none, some, ◌≡◌, inl, inr, refl, sym, ap, arith,
  if◌then◌else◌, ◌==◌, ==_iff, Bool-cases,
}
use mysql_replay.Base.Map.{Map, lookup, insert, erase, nat_eq, Distinct}
use mysql_replay.Play.Driver.{
  Request, open_pool, open_conn, prepare_stmt, exec_query, exec_stmt, close_stmt, close_conn,
  close_pool, Reply, failed, gave, History, Driver,
}
use mysql_replay.Play.Worker.{Statement, Worker, ask, handle_of, left}

pub data Kind : Type 0 where
  of_pool of_conn of_stmt : Kind

abbrev pub one_if : Bool → ℕ
one_if b = if b then 1 else 0

-- Whether a request with its answer opens the handle `h`, or closes it.
unfoldable pub opens : Kind → ℕ → Request → Reply → ℕ
opens k h q (failed e) = 0
opens of_pool h (open_pool s) (gave p) = one_if (p == h)
opens of_conn h (open_conn s) (gave p) = one_if (p == h)
opens of_stmt h (prepare_stmt c s) (gave p) = one_if (p == h)
opens _ h _ _ = 0

unfoldable pub closes : Kind → ℕ → Request → ℕ
closes of_pool h (close_pool p) = one_if (p == h)
closes of_conn h (close_conn p) = one_if (p == h)
closes of_stmt h (close_stmt p) = one_if (p == h)
closes _ h _ = 0

-- A request for no handle.
abbrev pub IsQuiet : Request → Type 0
IsQuiet (open_pool s) = ⊥
IsQuiet (open_conn p) = ⊥
IsQuiet (prepare_stmt c s) = ⊥
IsQuiet _ = Unit

pub opens-quiet : (k : Kind) (h : ℕ) (q : Request) (r : Reply) → IsQuiet q → opens k h q r ≡ 0
unfolding opens
opens-quiet k h q (failed e) i = refl
opens-quiet k h (open_pool s) (gave n) i = absurd i
opens-quiet k h (open_conn s) (gave n) i = absurd i
opens-quiet k h (prepare_stmt c s) (gave n) i = absurd i
opens-quiet of_pool h (exec_query c s) (gave n) i = refl
opens-quiet of_conn h (exec_query c s) (gave n) i = refl
opens-quiet of_stmt h (exec_query c s) (gave n) i = refl
opens-quiet of_pool h (exec_stmt c s) (gave n) i = refl
opens-quiet of_conn h (exec_stmt c s) (gave n) i = refl
opens-quiet of_stmt h (exec_stmt c s) (gave n) i = refl
opens-quiet of_pool h (close_stmt c) (gave n) i = refl
opens-quiet of_conn h (close_stmt c) (gave n) i = refl
opens-quiet of_stmt h (close_stmt c) (gave n) i = refl
opens-quiet of_pool h (close_conn c) (gave n) i = refl
opens-quiet of_conn h (close_conn c) (gave n) i = refl
opens-quiet of_stmt h (close_conn c) (gave n) i = refl
opens-quiet of_pool h (close_pool c) (gave n) i = refl
opens-quiet of_conn h (close_pool c) (gave n) i = refl
opens-quiet of_stmt h (close_pool c) (gave n) i = refl

-- How often the handle was opened, and closed.
unfoldable pub opened : Kind → ℕ → History → ℕ
unfolding opens
opened k h [] = 0
opened k h ((q, r) ∷ past) = opens k h q r + opened k h past

unfoldable pub closed : Kind → ℕ → History → ℕ
unfolding closes
closed k h [] = 0
closed k h ((q, r) ∷ past) = closes k h q + closed k h past

-- How often the worker has the handle.
abbrev pub has : ℕ → Option ℕ → ℕ
has h none = 0
has h (some p) = one_if (p == h)

abbrev pub has_stmts : ℕ → Map ℕ Statement → ℕ
has_stmts h [] = 0
has_stmts h ((id, s) ∷ m) = has h s.handle + has_stmts h m

unfoldable pub held : Worker → Kind → ℕ → ℕ
held w of_pool h = has h w.pool
held w of_conn h = has h w.conn
held w of_stmt h = has_stmts h w.stmts

-- `f k h` times a handle is still open.
pub record Owes (past : History) (f : Kind → ℕ → ℕ) : Type 0 where
  pub even : (k : Kind) (h : ℕ) → opened k h past ≡ closed k h past + f k h

pub Owes-same :
    (past : History) (f g : Kind → ℕ → ℕ)
    → ((k : Kind) (h : ℕ) → f k h ≡ g k h)
    → Owes past f
    → Owes past g
Owes-same past f g e o = record { even = λ k h. omega (arith, e k h, o.even k h) }

module _ (dr : Driver) (w : Worker) (q : Request) where
  pub Owes-ask :
      (f g : Kind → ℕ → ℕ)
      → ((k : Kind) (h : ℕ) → opens k h q (dr w.history q) + f k h ≡ closes k h q + g k h)
      → Owes w.history f
      → Owes (ask dr w q).history g
  unfolding opened closed
  Owes-ask f g e o = record { even = λ k h. omega (arith, e k h, o.even k h) }

module _ (h : ℕ) where
  pub has_stmts-erase :
      (id : ℕ) (m : Map ℕ Statement)
      → Distinct m
      → has h (handle_of (lookup id m)) + has_stmts h (erase id m) ≡ has_stmts h m
  unfolding lookup erase
  has_stmts-erase id [] d = refl
  has_stmts-erase id ((j, s) ∷ m) d = elim (Bool-cases (j == id)) [
    | inl e ↦
        let free : lookup id m ≡ none = rw (sym ((==_iff j id).0 e)) d.0 in
        rw e (omega (arith, rw free at (has_stmts-erase id m d.1)))
    | inr e ↦ rw e (omega (arith, has_stmts-erase id m d.1))
  ]

  pub has_stmts-insert :
      (id : ℕ) (s : Statement) (m : Map ℕ Statement)
      → has_stmts h (insert id s m) + has h (handle_of (lookup id m))
        ≡ has h s.handle + has_stmts h m
  unfolding lookup insert
  has_stmts-insert id s [] = omega arith
  has_stmts-insert id s ((j, t) ∷ m) = elim (Bool-cases (j == id)) [
    | inl e ↦ rw e (omega arith)
    | inr e ↦ rw e (omega (arith, has_stmts-insert id s m))
  ]

  pub has_stmts-left : (b : Bool) (m : Map ℕ Statement) → has_stmts h (left b m) ≡ 0
  unfolding left
  has_stmts-left b [] = refl
  has_stmts-left true ((id, s) ∷ m) = omega (arith, has_stmts-left true m)
  has_stmts-left false ((id, s) ∷ m) = has_stmts-left false m

pub held_same :
    (w z : Worker)
    → z.pool ≡ w.pool
    → z.conn ≡ w.conn
    → z.stmts ≡ w.stmts
    → (k : Kind) (h : ℕ) → held w k h ≡ held z k h
unfolding held
held_same w z p c s of_pool h = ap (has h) (sym p)
held_same w z p c s of_conn h = ap (has h) (sym c)
held_same w z p c s of_stmt h = ap (has_stmts h) (sym s)
