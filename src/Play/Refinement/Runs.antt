-- ===== src/Play/Refinement/Runs.antt =====
-- cmd/text.go: quitting, running and preparing, and what the events say.
use Prim.Native.String.{String}
use mysql_replay.Base.{
  ℕ, false, List, [], ◌∷◌, ◌++◌, Option, none, some, Bytes, ◌≡◌, inl, inr, refl, ◌∙◌, ap, ◌==◌,
  Bool-cases, All, append-nil, ==_iff, ==_refl,
}
use mysql_replay.Base.Map.{Map, insert, nat_eq, All-insert}
use mysql_replay.Play.Driver.{
  Request, prepare_stmt, exec_query, close_conn, close_pool, gave, Driver,
}
use mysql_replay.Play.Refinement.{
  IsReliable, IsLive, texts, Refines, texts-insert, neutral, neutral_close_conn, neutral_close_pool,
  IsLive-quiet, Connected, get_conn-Connected, close_all-Refines,
}
use mysql_replay.Play.Runs.{IsRun, runs_query, runs_stmt}
use mysql_replay.Play.Spec.{Act, ran_query, prepares, resolve, acted, ran}
use mysql_replay.Play.Worker.{
  Statement, Worker, Outcome, done, fail, ask, get_conn, run_counted, with_conn, execute,
  prepare_on, close_all, left, quit_conn, quit_pool, quit,
}
use mysql_replay.Stats.Counter.{name, queries, err_queries}

left_none : (t : Map ℕ Statement) → left false t ≡ []
unfolding left
left_none [] = refl
left_none ((id, s) ∷ t) = left_none t

-- What has run, whatever the table.
pub quit-Refines :
    (dr : Driver) (m : Map ℕ Bytes) (acts : List Act) (w : Worker)
    → Refines m acts w
    → Refines [] acts (quit dr w false)
unfolding quit texts
quit-Refines dr m acts w f =
    let x = close_all dr w w.stmts in
    let y : Worker = record x { stmts = left false w.stmts } in
    let closed : Refines m acts x = close_all-Refines dr m acts w w.stmts f in
    let empty : Refines [] acts y = record {
      table = rw (left_none w.stmts) refl;
      live = rw (left_none w.stmts) tt;
      has_run = closed.has_run;
    } in
    parted_pool (quit_conn dr y y.conn) (quit_conn dr y y.conn).pool (parted_conn y y.conn empty)
  where
    parted_conn :
        (w : Worker) (o : Option ℕ) → Refines [] acts w → Refines [] acts (quit_conn dr w o)
    parted_conn w none g = g
    parted_conn w (some c) g =
        let h : Refines [] acts (ask dr w (close_conn c)) =
          neutral dr [] acts w (close_conn c) (neutral_close_conn c) g in
        record { table = h.table; live = h.live; has_run = h.has_run }

    parted_pool :
        (w : Worker) (o : Option ℕ) → Refines [] acts w → Refines [] acts (quit_pool dr w o)
    parted_pool w none g = g
    parted_pool w (some c) g =
        let h : Refines [] acts (ask dr w (close_pool c)) =
          neutral dr [] acts w (close_pool c) (neutral_close_pool c) g in
        record { table = h.table; live = h.live; has_run = h.has_run }

prepares-run : {q : Request} (h n : ℕ) → IsRun q → prepares h q (gave n) ≡ none
unfolding prepares
prepares-run h n (runs_query c s) = refl
prepares-run h n (runs_stmt c s) = refl

pub record Ran (m : Map ℕ Bytes) (acts : List Act) (r : Outcome Unit × Worker) : Type 0 where
  pub result : r.0 ≡ done tt
  pub refines : Refines m acts r.1

module _ (dr : Driver) (ok : IsReliable dr) (m : Map ℕ Bytes) (acts : List Act) where
  pub run_counted-Ran :
      (w : Worker) (q : Request) (total errors : String)
      → IsRun q
      → Refines m acts w
      → Ran m (acts ++ acted q w.history) (run_counted dr w q total errors)
  unfolding run_counted ran
  run_counted-Ran w q total errors i f =
      let (n, r) = ok.answers w.history q in
      rw (run_counted, r)
        (record {
          result = refl;
          refines = record {
            table = f.table;
            live =
                IsLive-quiet q (dr w.history q) w.history w.stmts (λ h. rw r (prepares-run h n i))
                  f.live;
            has_run = ap (λ x. x ++ acted q w.history) f.has_run;
          };
        })

  pub execute-Ran :
      (target : Bytes) (w : Worker) (query : Bytes)
      → Refines m acts w
      → Ran m (acts ++ ran_query query ∷ []) (execute dr target w query)
  unfolding execute acted
  execute-Ran target w query f =
      then_run (get_conn dr target w) (get_conn-Connected dr ok m acts target w f)
    where
      then_run :
          (r : Outcome ℕ × Worker)
          → Connected m acts r
          → Ran m (acts ++ ran_query query ∷ []) (
              with_conn r
                (λ c u. run_counted dr u (exec_query c query) (name queries) (name err_queries)))
      then_run (fail e, u) k = cc k.result
      then_run (done c, u) k =
          run_counted-Ran u (exec_query c query) _ _ (runs_query c query) k.refines

  pub prepare_on-Ran :
      (w : Worker) (id : ℕ) (query : Bytes) (c : ℕ)
      → Refines m acts w
      → Ran (insert id query m) acts (prepare_on dr id query c w)
  unfolding prepare_on ran acted resolve prepares
  prepare_on-Ran w id query c f =
      let (h, r) = ok.answers w.history (prepare_stmt c query) in
      let s : Statement = record { query = query; handle = some h } in
      let past = (prepare_stmt c query, dr w.history (prepare_stmt c query)) ∷ w.history in
      let alone : resolve h w.history ≡ none = ok.fresh w.history c h query r in
      let own : IsLive past (id, s) = record { handle = h; here = refl; text = newly h r } in
      rw (prepare_on, r)
        (record {
          result = refl;
          refines = record {
            table = rw (texts-insert id s w.stmts, f.table) refl;
            live = All-insert (IsLive past) id s w.stmts own (older h r alone w.stmts f.live);
            has_run = append-nil (ran w.history) ∙ f.has_run;
          };
        })
    where
      newly :
          (h : ℕ)
          → dr w.history (prepare_stmt c query) ≡ gave h
          → resolve h ((prepare_stmt c query, dr w.history (prepare_stmt c query)) ∷ w.history)
            ≡ some query
      newly h r = rw (r, ==_refl h) refl

      another :
          (h k : ℕ) (text : Bytes)
          → dr w.history (prepare_stmt c query) ≡ gave h
          → resolve h w.history ≡ none
          → resolve k w.history ≡ some text
          → resolve k ((prepare_stmt c query, dr w.history (prepare_stmt c query)) ∷ w.history)
            ≡ some text
      another h k text r e l = elim (Bool-cases (h == k)) [
        | inl same ↦ cc (e, l, (==_iff h k).0 same)
        | inr other ↦ rw (r, other) l
      ]

      older :
          (h : ℕ)
          → dr w.history (prepare_stmt c query) ≡ gave h
          → resolve h w.history ≡ none
          → (t : Map ℕ Statement) → All (IsLive w.history) t
          → All (IsLive ((prepare_stmt c query, dr w.history (prepare_stmt c query)) ∷ w.history)) t
      older h r e [] a = tt
      older h r e (x ∷ t) (l, a) = (
        record { handle = l.handle; here = l.here; text = another h l.handle x.1.query r e l.text },
        older h r e t a,
      )
