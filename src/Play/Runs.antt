-- ===== src/Play/Runs.antt =====
-- cmd/text.go: requests that run, and the invariant of the worker.
use Prim.Native.String.{String}
use text.Mathlib.Text.{◌==◌ as same_name}
use mysql_replay.Base.{ℕ, false, List, Bytes, ◌≡◌, inl, inr, refl, ◌∙◌, arith}
use mysql_replay.Base.Map.{nat_eq}
use mysql_replay.Event.Types.{Param}
use mysql_replay.Play.Conn.{get_conn-Keeps}
use mysql_replay.Play.Driver.{Request, exec_query, exec_stmt, Driver, Reply-cases}
use mysql_replay.Play.Handles.{
  Kind, of_pool, of_conn, of_stmt, closes, held, Owes-same, Owes-ask, IsQuiet, opens-quiet,
  held_same,
}
use mysql_replay.Play.Invariant.{Base, IsWorker, IsPlain, count-IsWorker, get-count, get-count_self}
use mysql_replay.Play.Worker.{
  Worker, Outcome, done, fail, count, minus_one, ask, get_conn, run_counted, with_conn, execute,
}
use mysql_replay.Stats.Counter.{name, running_conns, waiting_conns, queries, conns, err_queries}

-- A request that runs something.
pub data IsRun : Request → Type 0 where
  runs_query : (c : ℕ) (query : Bytes) → IsRun (exec_query c query)
  runs_stmt : (h : ℕ) (params : List Param) → IsRun (exec_stmt h params)

closes-run : (k : Kind) (h : ℕ) {q : Request} → IsRun q → closes k h q ≡ 0
unfolding closes
closes-run of_pool h (runs_query c s) = refl
closes-run of_conn h (runs_query c s) = refl
closes-run of_stmt h (runs_query c s) = refl
closes-run of_pool h (runs_stmt c s) = refl
closes-run of_conn h (runs_stmt c s) = refl
closes-run of_stmt h (runs_stmt c s) = refl

IsRun-IsQuiet : {q : Request} → IsRun q → IsQuiet q
IsRun-IsQuiet (runs_query c s) = tt
IsRun-IsQuiet (runs_stmt h s) = tt

pub plain :
    (n : String)
    → same_name n (name conns) ≡ false
    → same_name n (name running_conns) ≡ false
    → same_name n (name waiting_conns) ≡ false
    → IsPlain n
plain n x y z = record { conns_ne = x; running_ne = y; waiting_ne = z }

module _ (b : Base) (dr : Driver) where
  -- The counter of running requests goes up and down again.
  ran :
      (w : Worker) (q : Request)
      → IsRun q
      → IsWorker b w
      → IsWorker b
          (count (ask dr (count w (name running_conns) 1) q) (name running_conns) minus_one)
  ran w q i v =
      let x = count w (name running_conns) 1 in
      let y = ask dr x q in
      let z = count y (name running_conns) minus_one in
      record {
        distinct = v.distinct;
        owes = Owes-same _ _ _ (held_same w z refl refl refl) (
            Owes-ask dr w q (held w) (held w)
              (λ k h.
                omega
                  (arith, opens-quiet k h q (dr w.history q) (IsRun-IsQuiet i), closes-run k h i))
              v.owes);
        open_conns =
            get-count y (name running_conns) (name conns) minus_one refl
            ∙ get-count w (name running_conns) (name conns) 1 refl
            ∙ v.open_conns;
        running = omega (
          arith,
          get-count_self y (name running_conns) minus_one,
          get-count_self w (name running_conns) 1,
          v.running,
        );
        waiting =
            get-count y (name running_conns) (name waiting_conns) minus_one refl
            ∙ get-count w (name running_conns) (name waiting_conns) 1 refl
            ∙ v.waiting;
      }

  pub run_counted-IsWorker :
      (w : Worker) (q : Request) (total errors : String)
      → IsRun q
      → IsPlain total
      → IsPlain errors
      → IsWorker b w
      → IsWorker b (run_counted dr w q total errors).1
  unfolding run_counted
  run_counted-IsWorker w q total errors i p e v =
      let ended = ran (count w total 1) q i (count-IsWorker b w total 1 p v) in
      elim (Reply-cases (dr w.history q)) [
        | inl (x, r) ↦ rw (run_counted, r) (count-IsWorker b _ errors 1 e ended)
        | inr (n, r) ↦ rw (run_counted, r) ended
      ]

  pub execute-IsWorker :
      (target : Bytes) (w : Worker) (query : Bytes)
      → IsWorker b w
      → IsWorker b (execute dr target w query).1
  unfolding execute
  execute-IsWorker target w query v =
      then_run (get_conn dr target w) (get_conn-Keeps b dr target w v).valid
    where
      then_run :
          (r : Outcome ℕ × Worker)
          → IsWorker b r.1
          → IsWorker b
              (with_conn r
                (λ c u. run_counted dr u (exec_query c query) (name queries) (name err_queries))).1
      then_run (fail e, u) k = k
      then_run (done c, u) k =
          run_counted-IsWorker u (exec_query c query) _ _ (runs_query c query)
            (plain _ refl refl refl) (plain _ refl refl refl) k
