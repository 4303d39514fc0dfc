-- ===== src/Play/Invariant.antt =====
-- cmd/text.go: the invariant of `playWorker`.
use Prim.Native.String.{String}
use text.Mathlib.Text.{◌==◌ as same_name}
use mysql_replay.Base.{ℕ, ◌+◌, ◌%◌, ◌^◌, false, Option, none, some, ◌≡◌, refl, ◌∙◌, arith}
use mysql_replay.Base.Map.{nat_eq, Distinct, beq_refl, string_eq}
use mysql_replay.Play.Driver.{DbError, Request, failed, Driver}
use mysql_replay.Play.Handles.{Kind, opens, closes, held, Owes, Owes-same, Owes-ask, held_same}
use mysql_replay.Play.Worker.{Worker, count, ask}
use mysql_replay.Stats.Counter.{name, running_conns, waiting_conns, conns, get}
use mysql_replay.Stats.Laws.{add_lem}

abbrev pub size : Option ℕ → ℕ
size none = 0
size (some p) = 1

-- The counters that others see: of connections, of running requests, of waiting workers.
pub record Base : Type 0 where
  pub open_conns : ℕ
  pub running : ℕ
  pub waiting : ℕ

-- The table has no id twice, every handle that is open is the worker's and no other, and its
-- connection counts. `b` are the counters without this worker.
pub record IsWorker (b : Base) (w : Worker) : Type 0 where
  pub distinct : Distinct w.stmts
  pub owes : Owes w.history (held w)
  pub open_conns : get w.stats (name conns) ≡ (b.open_conns + size w.conn) % 2 ^ 64
  pub running : get w.stats (name running_conns) ≡ b.running % 2 ^ 64
  pub waiting : get w.stats (name waiting_conns) ≡ b.waiting % 2 ^ 64

-- A counter that the invariant does not speak of.
pub record IsPlain (n : String) : Type 0 where
  pub conns_ne : same_name n (name conns) ≡ false
  pub running_ne : same_name n (name running_conns) ≡ false
  pub waiting_ne : same_name n (name waiting_conns) ≡ false

pub get-count :
    (w : Worker) (n m : String) (d : ℕ)
    → same_name n m ≡ false
    → get (count w n d).stats m ≡ get w.stats m
get-count w n m d e = rw e at ((add_lem w.stats n m d).1)

pub get-count_self :
    (w : Worker) (n : String) (d : ℕ) → get (count w n d).stats n ≡ (get w.stats n + d) % 2 ^ 64
get-count_self w n d = rw (beq_refl n) at ((add_lem w.stats n n d).1)

module _ (b : Base) where
  pub count-IsWorker :
      (w : Worker) (n : String) (d : ℕ) → IsPlain n → IsWorker b w → IsWorker b (count w n d)
  count-IsWorker w n d p v = record {
    distinct = v.distinct;
    owes = Owes-same w.history _ _ (held_same w (count w n d) refl refl refl) v.owes;
    open_conns = get-count w n (name conns) d p.conns_ne ∙ v.open_conns;
    running = get-count w n (name running_conns) d p.running_ne ∙ v.running;
    waiting = get-count w n (name waiting_conns) d p.waiting_ne ∙ v.waiting;
  }

  -- A request that opens and closes nothing.
  pub ask-IsWorker :
      (dr : Driver) (w : Worker) (q : Request)
      → ((k : Kind) (h : ℕ) → opens k h q (dr w.history q) ≡ 0)
      → ((k : Kind) (h : ℕ) → closes k h q ≡ 0)
      → IsWorker b w
      → IsWorker b (ask dr w q)
  ask-IsWorker dr w q o c v = record {
    distinct = v.distinct;
    owes =
        Owes-same _ _ _ (held_same w (ask dr w q) refl refl refl)
          (Owes-ask dr w q (held w) (held w) (λ k h. omega (arith, o k h, c k h)) v.owes);
    open_conns = v.open_conns;
    running = v.running;
    waiting = v.waiting;
  }

pub failed_opens :
    (dr : Driver) (w : Worker) (q : Request) (k : Kind) (h : ℕ) (e : DbError)
    → dr w.history q ≡ failed e
    → opens k h q (dr w.history q) ≡ 0
unfolding opens
failed_opens dr w q k h e r = rw r refl
