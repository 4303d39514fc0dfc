-- ===== src/Play/Closing.antt =====
-- cmd/text.go: the closing of handles.
use mysql_replay.Base.{ℕ, ◌+◌, [], ◌∷◌, Option, none, some, ◌≡◌, inl, inr, refl, ◌∙◌, arith}
use mysql_replay.Base.Map.{Map, nat_eq}
use mysql_replay.Play.Driver.{close_stmt, Driver, gave, Reply-cases}
use mysql_replay.Play.Handles.{
  Kind, of_pool, of_conn, of_stmt, opens, closes, has, has_stmts, Owes, Owes-same, Owes-ask,
}
use mysql_replay.Play.Worker.{Statement, Worker, close_handle, close_all}

-- Nothing but the history changes.
pub record SameState (w z : Worker) : Type 0 where
  pub pool : z.pool ≡ w.pool
  pub conn : z.conn ≡ w.conn
  pub stmts : z.stmts ≡ w.stmts
  pub stats : z.stats ≡ w.stats
  pub schema : z.schema ≡ w.schema

-- `f`, and the handle `o` of a statement besides.
unfoldable pub with_stmt : Option ℕ → (Kind → ℕ → ℕ) → Kind → ℕ → ℕ
with_stmt o f of_pool h = f of_pool h
with_stmt o f of_conn h = f of_conn h
with_stmt o f of_stmt h = has h o + f of_stmt h

unfoldable pub with_stmts : Map ℕ Statement → (Kind → ℕ → ℕ) → Kind → ℕ → ℕ
with_stmts m f of_pool h = f of_pool h
with_stmts m f of_conn h = f of_conn h
with_stmts m f of_stmt h = has_stmts h m + f of_stmt h

module _ (dr : Driver) where
  pub SameState-close_handle : (w : Worker) (o : Option ℕ) → SameState w (close_handle dr w o)
  SameState-close_handle w none = record {
    pool = refl;
    conn = refl;
    stmts = refl;
    stats = refl;
    schema = refl;
  }
  SameState-close_handle w (some h) = record {
    pool = refl;
    conn = refl;
    stmts = refl;
    stats = refl;
    schema = refl;
  }

  pub Owes-close_handle :
      (w : Worker) (o : Option ℕ) (f : Kind → ℕ → ℕ)
      → Owes w.history (with_stmt o f)
      → Owes (close_handle dr w o).history f
  unfolding opens closes with_stmt
  Owes-close_handle w none f x = Owes-same w.history (with_stmt none f) f nothing x
    where
      nothing : (k : Kind) (h : ℕ) → with_stmt none f k h ≡ f k h
      nothing of_pool h = refl
      nothing of_conn h = refl
      nothing of_stmt h = omega arith
  Owes-close_handle w (some p) f x = Owes-ask dr w (close_stmt p) (with_stmt (some p) f) f moves x
    where
      closing :
          (k : Kind) (h : ℕ) → 0 + with_stmt (some p) f k h ≡ closes k h (close_stmt p) + f k h
      closing of_pool h = omega arith
      closing of_conn h = omega arith
      closing of_stmt h = omega arith

      gives :
          (n : ℕ) (k : Kind) (h : ℕ)
          → opens k h (close_stmt p) (gave n) + with_stmt (some p) f k h
            ≡ closes k h (close_stmt p) + f k h
      gives n of_pool h = omega arith
      gives n of_conn h = omega arith
      gives n of_stmt h = omega arith

      moves :
          (k : Kind) (h : ℕ)
          → opens k h (close_stmt p) (dr w.history (close_stmt p)) + with_stmt (some p) f k h
            ≡ closes k h (close_stmt p) + f k h
      moves k h = elim (Reply-cases (dr w.history (close_stmt p))) [
        | inl (e, r) ↦ rw r (closing k h)
        | inr (n, r) ↦ rw r (gives n k h)
      ]

  SameState-trans : (w y z : Worker) → SameState w y → SameState y z → SameState w z
  SameState-trans w y z a c = record {
    pool = c.pool ∙ a.pool;
    conn = c.conn ∙ a.conn;
    stmts = c.stmts ∙ a.stmts;
    stats = c.stats ∙ a.stats;
    schema = c.schema ∙ a.schema;
  }

  pub SameState-close_all : (w : Worker) (m : Map ℕ Statement) → SameState w (close_all dr w m)
  unfolding close_all
  SameState-close_all w [] = record {
    pool = refl;
    conn = refl;
    stmts = refl;
    stats = refl;
    schema = refl;
  }
  SameState-close_all w ((id, s) ∷ m) =
      let y = close_handle dr w s.handle in
      SameState-trans w y (close_all dr y m) (SameState-close_handle w s.handle)
        (SameState-close_all y m)

  pub Owes-close_all :
      (m : Map ℕ Statement) (w : Worker) (f : Kind → ℕ → ℕ)
      → Owes w.history (with_stmts m f)
      → Owes (close_all dr w m).history f
  unfolding close_all with_stmts with_stmt
  Owes-close_all [] w f x = Owes-same w.history (with_stmts [] f) f none_left x
    where
      none_left : (k : Kind) (h : ℕ) → with_stmts [] f k h ≡ f k h
      none_left of_pool h = refl
      none_left of_conn h = refl
      none_left of_stmt h = omega arith
  Owes-close_all ((id, s) ∷ m) w f x = Owes-close_all m (close_handle dr w s.handle) f (
      Owes-close_handle w s.handle (with_stmts m f) (
        Owes-same w.history (with_stmts ((id, s) ∷ m) f) (with_stmt s.handle (with_stmts m f)) split
          x))
    where
      split :
          (k : Kind) (h : ℕ)
          → with_stmts ((id, s) ∷ m) f k h ≡ with_stmt s.handle (with_stmts m f) k h
      split of_pool h = refl
      split of_conn h = refl
      split of_stmt h = omega arith
