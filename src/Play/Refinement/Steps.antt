-- ===== src/Play/Refinement/Steps.antt =====
-- cmd/text.go: the operations of the worker, and what the events say.

use mysql_replay.Base.{
  ℕ, Bool, true, false, List, [], ◌∷◌, ◌++◌, Option, none, some, Bytes, ◌≡◌, inl, inr, refl, sym,
  ◌∙◌, ap, if◌then◌else◌, ◌==◌, Bool-cases, Option-cases, append-nil,
}
use mysql_replay.Base.Map.{Map, lookup, insert, erase, nat_eq, All-erase, All-lookup}
use mysql_replay.Event.Types.{
  Param, MysqlEvent, event_query, event_stmt_prepare, event_stmt_execute, event_stmt_close,
  event_handshake, event_quit,
}
use mysql_replay.Play.Driver.{exec_stmt, Driver}
use mysql_replay.Play.Refinement.{
  IsReliable, IsLive, Refines, texts-erase, lookup-texts, Connected, get_conn-Connected,
  handshake-Refines, close_handle-Refines,
}
use mysql_replay.Play.Session.{without_value, apply, recover}
use mysql_replay.Play.Runs.{runs_stmt}
use mysql_replay.Play.Spec.{Act, ran_query, ran_stmt, executed, spec_step, acted}
use mysql_replay.Play.Worker.{
  Worker, Outcome, done, fail, get_conn, with_conn, close_handle, handle_of, prepare_on,
  stmt_prepare, get_stmt, stmt_execute, stmt_close, quit, handshake,
}
use mysql_replay.Play.Refinement.Runs.{
  quit-Refines, Ran, run_counted-Ran, execute-Ran, prepare_on-Ran,
}

erase_absent : (id : ℕ) (t : Map ℕ Bytes) → lookup id t ≡ none → erase id t ≡ t
unfolding erase lookup
erase_absent id [] e = refl
erase_absent id ((j, s) ∷ t) e = elim (Bool-cases (j == id)) [
  | inl k ↦ cc (rw k at e)
  | inr k ↦ rw k (ap (◌∷◌ (j, s)) (erase_absent id t (rw k at e)))
]

module _ (dr : Driver) (m : Map ℕ Bytes) (acts : List Act) where
  -- A statement leaves the table, and its handle is closed.
  dropped-Refines :
      (w : Worker) (id : ℕ) (o : Option ℕ)
      → Refines m acts w
      → let y = close_handle dr w o in
        Refines (erase id m) acts (record y { stmts = erase id y.stmts })
  dropped-Refines w id o f =
      let y = close_handle dr w o in
      let g : Refines m acts y = close_handle-Refines dr m acts w o f in
      record {
        table = texts-erase id y.stmts ∙ ap (erase id) g.table;
        live = All-erase (IsLive y.history) id y.stmts g.live;
        has_run = g.has_run;
      }

  stmt_close-Refines :
      (w : Worker) (id : ℕ) → Refines m acts w → Refines (erase id m) acts (stmt_close dr w id)
  unfolding stmt_close
  stmt_close-Refines w id f = elim (Option-cases (lookup id w.stmts)) [
    | inr (s, e) ↦ rw (stmt_close, e) (dropped-Refines w id s.handle f)
    | inl e ↦
        let free : lookup id m ≡ none = rw (sym f.table, lookup-texts id w.stmts, e) refl in
        rw (stmt_close, e)
          (record {
            table = f.table ∙ sym (erase_absent id m free);
            live = f.live;
            has_run = f.has_run;
          })
  ]

-- Nothing is lost by the operation, and the worker stands where the event says.
pub record Settles (acts : List Act) (p : Map ℕ Bytes × List Act) (dr : Driver) (target : Bytes)
    (r : Outcome Unit × Worker) : Type 0 where
  pub stays : recover dr target r ≡ r.1
  pub refines : Refines p.0 (acts ++ p.1) r.1

module _ (dr : Driver) (ok : IsReliable dr) (target : Bytes) (m : Map ℕ Bytes)
    (acts : List Act) where
  Ran-Settles :
      (t : Map ℕ Bytes) (new : List Act) (r : Outcome Unit × Worker)
      → Ran t (acts ++ new) r
      → Settles acts (t, new) dr target r
  unfolding recover
  Ran-Settles t new (done x, w) k = record { stays = refl; refines = k.refines }
  Ran-Settles t new (fail e, w) k = cc k.result

  done-Settles :
      (t : Map ℕ Bytes) (w : Worker)
      → Refines t acts w
      → Settles acts (t, []) dr target (done tt, w)
  unfolding recover
  done-Settles t w f = record { stays = refl; refines = rw (append-nil acts) f }

  stmt_prepare-Settles :
      (w : Worker) (id : ℕ) (query : Bytes)
      → Refines m acts w
      → Settles acts
          (insert id query (erase id m), [])
          dr
          target
          (stmt_prepare dr target w id query)
  unfolding stmt_prepare
  stmt_prepare-Settles w id query f =
      let o = handle_of (lookup id w.stmts) in
      let y = close_handle dr w o in
      let z : Worker = record y { stmts = erase id y.stmts } in
      then_prepare (get_conn dr target z)
        (get_conn-Connected dr ok (erase id m) acts target z (dropped-Refines dr m acts w id o f))
    where
      then_prepare :
          (r : Outcome ℕ × Worker)
          → Connected (erase id m) acts r
          → Settles acts
              (insert id query (erase id m), [])
              dr
              target
              (with_conn r (prepare_on dr id query))
      then_prepare (fail e, u) k = cc k.result
      then_prepare (done c, u) k =
          Ran-Settles _ [] _
            (rw (append-nil acts) (prepare_on-Ran dr ok (erase id m) acts u id query c k.refines))

  stmt_execute-Settles :
      (w : Worker) (id : ℕ) (params : List Param)
      → Refines m acts w
      → Settles acts
          (m, executed (lookup id m) params)
          dr
          target
          (stmt_execute dr target w id params)
  unfolding stmt_execute get_stmt recover acted
  stmt_execute-Settles w id params f = elim (Option-cases (lookup id w.stmts)) [
    | inl e ↦
        let free : lookup id m ≡ none = rw (sym f.table, lookup-texts id w.stmts, e) refl in
        rw (stmt_execute, get_stmt, e, free)
          (record { stays = refl; refines = rw (append-nil acts) f })
    | inr (s, e) ↦
        let known : lookup id m ≡ some s.query =
          rw (sym f.table, lookup-texts id w.stmts, e) refl in
        let l : IsLive w.history (id, s) = All-lookup (IsLive w.history) id s w.stmts f.live e in
        let q = exec_stmt l.handle params in
        let as_text : acted q w.history ≡ ran_stmt s.query params ∷ [] = rw l.text refl in
        rw (stmt_execute, get_stmt, e, l.here, known)
          (Ran-Settles m (ran_stmt s.query params ∷ []) _
            (rw (sym as_text) (run_counted-Ran dr ok m acts w q _ _ (runs_stmt l.handle params) f)))
  ]

  handshake-Settles :
      (schema : Bytes) (w : Worker)
      → Refines [] acts w
      → Settles acts ([], []) dr target (without_value (handshake dr target w schema))
  handshake-Settles schema w f =
      forgotten (handshake dr target w schema) (handshake-Refines dr ok [] acts target schema w f)
    where
      forgotten :
          (r : Outcome ℕ × Worker)
          → Connected [] acts r
          → Settles acts ([], []) dr target (without_value r)
      forgotten (fail e, u) k = cc k.result
      forgotten (done c, u) k = done-Settles [] u k.refines

  Settles-if :
      (c : Bool) (p q : Map ℕ Bytes × List Act) (x y : Outcome Unit × Worker)
      → Settles acts p dr target x
      → Settles acts q dr target y
      → Settles acts (if c then p else q) dr target (if c then x else y)
  Settles-if true p q x y h k = h
  Settles-if false p q x y h k = k

  pub apply-Settles :
      (w : Worker) (e : MysqlEvent)
      → Refines m acts w
      → Settles acts (spec_step m e) dr target (apply dr target w e)
  unfolding apply spec_step
  apply-Settles w e f =
      let q : Refines [] acts (quit dr w false) = quit-Refines dr m acts w f in
      Settles-if (e.type == event_query) _ _ _ _
        (Ran-Settles m (ran_query e.query ∷ []) _ (execute-Ran dr ok m acts target w e.query f))
        (Settles-if (e.type == event_stmt_execute) _ _ _ _
          (stmt_execute-Settles w e.stmt_id e.params f)
          (Settles-if (e.type == event_stmt_prepare) _ _ _ _
            (stmt_prepare-Settles w e.stmt_id e.query f)
            (Settles-if (e.type == event_stmt_close) _ _ _ _
              (done-Settles _ _ (stmt_close-Refines dr m acts w e.stmt_id f))
              (Settles-if (e.type == event_handshake) _ _ _ _
                (handshake-Settles e.db (quit dr w false) q)
                (Settles-if (e.type == event_quit) _ _ _ _ (done-Settles [] (quit dr w false) q)
                  (done-Settles m w f))))))

  pub step-Refines :
      (w : Worker) (e : MysqlEvent)
      → Refines m acts w
      → Refines
          (spec_step m e).0
          (acts ++ (spec_step m e).1)
          (recover dr target (apply dr target w e))
  step-Refines w e f =
      let s : Settles acts (spec_step m e) dr target (apply dr target w e) = apply-Settles w e f in
      rw s.stays s.refines
