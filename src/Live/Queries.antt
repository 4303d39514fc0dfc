-- ===== src/Live/Queries.antt =====
-- stream/packet.go and stream/event.go: the queries that are replayed while a connection is read, and
-- the query events of its dump.
use Prim.Native.String.{String}
use mysql_replay.Base.{
  ℕ, ◌+◌, ◌%◌, ◌^◌, Bool, true, false, List, [], ◌∷◌, ◌++◌, Option, none, some, Bytes, ◌≡◌, inl,
  inr, refl, sym, ap, ◌∙◌, arith, ◌==◌, Bool-cases, Option-cases, append-nil, append_assoc, length,
  length-append,
}
use mysql_replay.Base.Int.{ℤ}
use mysql_replay.Live.{
  Compile, ReplayOptions, new_filter, replay_handler, new_packet_handler, ReplayHandler, passes,
  exec, replay_query, handled, on_replay_packet, replay_packets,
}
use mysql_replay.Play.Driver.{Request, open_pool, exec_query, gave, History, Driver, Reply-cases}
use mysql_replay.Stats.Counter.{name, queries, err_queries, conns, get, add, Counters}
use mysql_replay.Stats.Laws.{add_lem, run, initial, sum_of, get-run}
use mysql_replay.Stream.Events.Feed.{feed}
use mysql_replay.Stream.Events.{
  to_millis, event_of, emitted, appended, EventHandler, on_packet as on_event_packet,
}
use mysql_replay.Stream.Fsm.Machine.{com_query_state, code, Fsm, ready, new_mysql_fsm}
use mysql_replay.Stream.Fsm.{handle}
use mysql_replay.Stream.Packet.{MysqlPacket}
use mysql_replay.Live.Texts.{
  texts, query_texts, to_run, query_texts-append, passing-append, Follows, listed, appended-listed,
  query_texts-event_of,
}

-- `z` has run the texts `new` since `h`, where they pass the filter, and has counted them.
record Runs (h z : ReplayHandler) (m : Fsm) (new : List Bytes) : Type 0 where
  fsm : z.fsm ≡ m
  db : z.db ≡ h.db
  filter : z.filter ≡ h.filter
  texts_run : texts z.history ≡ texts h.history ++ to_run h.db h.filter new
  counted : get z.stats (name queries) ≡ (get h.stats (name queries) + length new) % 2 ^ 64

abbrev run_on : Option ℕ → Bytes → List Bytes
run_on none text = []
run_on (some p) text = text ∷ []

to_run-passing :
    (o : Option ℕ) (f : Option (Bytes → Bool)) (text : Bytes)
    → passes f text ≡ true
    → to_run o f (text ∷ []) ≡ run_on o text
to_run-passing none f text e = refl
to_run-passing (some p) f text e = rw e refl

to_run-filtered :
    (o : Option ℕ) (f : Option (Bytes → Bool)) (text : Bytes)
    → passes f text ≡ false
    → to_run o f (text ∷ []) ≡ []
to_run-filtered none f text e = refl
to_run-filtered (some p) f text e = rw e refl

to_run-nil : (o : Option ℕ) (f : Option (Bytes → Bool)) → to_run o f [] ≡ []
to_run-nil none f = refl
to_run-nil (some p) f = refl

to_run-append :
    (o : Option ℕ) (f : Option (Bytes → Bool)) (ss ts : List Bytes)
    → to_run o f (ss ++ ts) ≡ to_run o f ss ++ to_run o f ts
to_run-append none f ss ts = refl
to_run-append (some p) f ss ts = passing-append f ss ts

-- What `exec` leaves as it was, and what has run.
record Execs (h z : ReplayHandler) (new : List Bytes) : Type 0 where
  fsm : z.fsm ≡ h.fsm
  db : z.db ≡ h.db
  filter : z.filter ≡ h.filter
  texts_run : texts z.history ≡ texts h.history ++ new
  counted : get z.stats (name queries) ≡ get h.stats (name queries)

module _ (dr : Driver) where
  exec-Execs :
      (h : ReplayHandler) (text : Bytes) (o : Option ℕ) → Execs h (exec dr h text o) (run_on o text)
  unfolding exec
  exec-Execs h text none = record {
    fsm = refl;
    db = refl;
    filter = refl;
    texts_run = sym (append-nil (texts h.history));
    counted = refl;
  }
  exec-Execs h text (some p) = elim (Reply-cases (dr h.history (exec_query p text))) [
    | inl (e, r) ↦
        rw (exec, r)
          (record {
            fsm = refl;
            db = refl;
            filter = refl;
            texts_run = refl;
            counted = (add_lem h.stats (name err_queries) (name queries) 1).1;
          })
    | inr (n, r) ↦
        rw (exec, r)
          (record { fsm = refl; db = refl; filter = refl; texts_run = refl; counted = refl })
  ]

  replay_query-Runs :
      (h : ReplayHandler) (text : Bytes) → Runs h (replay_query dr h text) h.fsm (text ∷ [])
  unfolding replay_query
  replay_query-Runs h text =
      let g : ReplayHandler = record h { stats = (add h.stats (name queries) 1).0 } in
      let more : get g.stats (name queries) ≡ (get h.stats (name queries) + 1) % 2 ^ 64 =
        (add_lem h.stats (name queries) (name queries) 1).1 in
      elim (Bool-cases (passes h.filter text)) [
        | inl e ↦
            let x : Execs g (exec dr g text h.db) (run_on h.db text) = exec-Execs g text h.db in
            rw e (record {
              fsm = x.fsm;
              db = x.db;
              filter = x.filter;
              texts_run = rw (to_run-passing h.db h.filter text e) x.texts_run;
              counted = x.counted ∙ more;
            })
        | inr e ↦ rw e (record {
          fsm = refl;
          db = refl;
          filter = refl;
          texts_run =
              rw (to_run-filtered h.db h.filter text e) (sym (append-nil (texts h.history)));
          counted = more;
        })
      ]

  no_query :
      (c : ℕ) (h : ReplayHandler) (m : Fsm)
      → get h.stats (name queries) ≡ c % 2 ^ 64
      → Runs h (record h { fsm = m }) m []
  no_query c h m k = record {
    fsm = refl;
    db = refl;
    filter = refl;
    texts_run = rw (to_run-nil h.db h.filter) (sym (append-nil (texts h.history)));
    counted = omega (arith, k);
  }

  -- Behind `Handle`, the two handlers agree on the query.
  handled-Runs :
      (c : ℕ) (h : ReplayHandler) (m : Fsm) (t : ℤ)
      → get h.stats (name queries) ≡ c % 2 ^ 64
      → Runs h (handled dr h m) m (query_texts (listed (emitted t m)))
  unfolding handled emitted
  handled-Runs c h m t k = elim (Bool-cases (ready m)) [
    | inr e ↦ simp (handled, emitted, e) (no_query c h m k)
    | inl e ↦ elim (Bool-cases m.changed) [
      | inr f ↦ simp (handled, emitted, e, f) (no_query c h m k)
      | inl f ↦
          let new = query_texts-event_of m.state t m in
          elim (Bool-cases (code m.state == code com_query_state)) [
            | inl g ↦
                let g_new : query_texts (listed (event_of m.state t m)) ≡ m.query ∷ [] =
                  rw g at new in
                let next : ReplayHandler = record h { fsm = m } in
                let x : Runs next (replay_query dr next m.query) m (m.query ∷ []) =
                  replay_query-Runs next m.query in
                simp (handled, emitted, e, f, g, g_new)
                  (record {
                    fsm = x.fsm;
                    db = x.db;
                    filter = x.filter;
                    texts_run = x.texts_run;
                    counted = x.counted;
                  })
            | inr g ↦
                let g_new : query_texts (listed (event_of m.state t m)) ≡ [] = rw g at new in
                simp (handled, emitted, e, f, g, g_new) (no_query c h m k)
          ]
    ]
  ]

module _ (dr : Driver) (c : ℕ) (before : List Bytes) where
  handled-Follows :
      (h : ReplayHandler) (e : EventHandler) (m : Fsm) (t : ℤ)
      → Follows c before h e
      → Follows c before
          (handled dr h m)
          (record { fsm = m; events = appended e.events (emitted t m) })
  handled-Follows h e m t f =
      let new = query_texts (listed (emitted t m)) in
      let old = query_texts e.events in
      let x : Runs h (handled dr h m) m new = handled-Runs dr (c + length old) h m t f.counted in
      let both : query_texts (appended e.events (emitted t m)) ≡ old ++ new =
        ap query_texts (appended-listed e.events (emitted t m))
        ∙ query_texts-append e.events (listed (emitted t m)) in
      record {
        same = sym x.fsm;
        texts_run =
            rw (x.db, x.filter, both, to_run-append h.db h.filter old new, x.texts_run, f.texts_run)
              (append_assoc before (to_run h.db h.filter old) (to_run h.db h.filter new));
        counted = rw both (omega (arith, x.counted, f.counted, length-append old new));
      }

  -- The packets of a connection, fed to both handlers.
  packets-Follows :
      (spares : ℕ → Bytes) (h : ReplayHandler) (e z : EventHandler) (ps : List MysqlPacket)
      → Follows c before h e
      → feed spares e ps ≡ some z
      → (y : ReplayHandler) × (replay_packets dr spares h ps ≡ some y) × Follows c before y z
  unfolding feed replay_packets on_replay_packet on_event_packet
  packets-Follows spares h e z [] f r = let same : z ≡ e = cc in (h, refl, rw same f)
  packets-Follows spares h e z (p ∷ ps) f r = elim (Option-cases (handle (spares 0) h.fsm p)) [
    | inl k ↦ cc (rw (feed, on_event_packet, f.same, k) at r)
    | inr (m, k) ↦
        let next : EventHandler = record {
          fsm = m;
          events = appended e.events (emitted (to_millis p.time) m);
        } in
        let rest : feed (λ n. spares (n + 1)) next ps ≡ some z =
          (rw (feed, on_event_packet, f.same, k) at r) in
        let (y, q, g) =
          packets-Follows (λ n. spares (n + 1)) (handled dr h m) next z ps
            (handled-Follows h e m (to_millis p.time) f) rest in
        (y, rw (replay_packets, on_replay_packet, k) q, g)
  ]

-- A connection whose handlers have just been made: the handler that replays it while it is read runs,
-- of the query events that its dump has, those that pass the filter, in their order and nothing
-- else, on the database if there is one, and counts every query event, modulo 2 ^ 64.
pub replay_packets-feed :
    (compile : Compile) (dr : Driver) (ops : List (String × ℕ)) (o : ReplayOptions)
    (h : ReplayHandler) (spares : ℕ → Bytes) (ps : List MysqlPacket) (z : EventHandler)
    → new_packet_handler compile dr (run initial ops) o ≡ some h
    → feed spares (record { fsm = new_mysql_fsm; events = [] }) ps ≡ some z
    → (y : ReplayHandler) × (replay_packets dr spares h ps ≡ some y)
      × (texts y.history ≡ to_run y.db y.filter (query_texts z.events))
      × (get y.stats (name queries)
          ≡ (sum_of (name queries) ops + length (query_texts z.events)) % 2 ^ 64)
unfolding new_packet_handler
replay_packets-feed compile dr ops o h spares ps z made r =
    let first : EventHandler = record { fsm = new_mysql_fsm; events = [] } in
    let (y, q, f) =
      packets-Follows dr (sum_of (name queries) ops) [] spares h first z ps started r in
    (y, q, f.texts_run, f.counted)
  where
    q : Request
    q = open_pool o.target_dsn

    counted : get (run initial ops) (name queries) ≡ (sum_of (name queries) ops + 0) % 2 ^ 64
    counted = omega (arith, get-run ops (name queries))

    start_with :
        (db : Option ℕ) (past : History) (c : Counters)
        → texts past ≡ []
        → get c (name queries) ≡ (sum_of (name queries) ops + 0) % 2 ^ 64
        → h ≡ replay_handler db (new_filter compile o) c past
        → Follows (sum_of (name queries) ops) [] h (record { fsm = new_mysql_fsm; events = [] })
    start_with db past c e k s = rw s (record {
      same = refl;
      texts_run = e ∙ sym (to_run-nil db (new_filter compile o));
      counted = k;
    })

    started : Follows (sum_of (name queries) ops) [] h (record { fsm = new_mysql_fsm; events = [] })
    started = elim (Bool-cases o.dry_run) [
      | inl d ↦
          start_with none [] (run initial ops) refl counted
            (cc (rw (new_packet_handler, d) at made))
      | inr d ↦ elim (Reply-cases (dr [] q)) [
        | inl (e, k) ↦ cc (rw (new_packet_handler, d, k) at made)
        | inr (p, k) ↦
            start_with (some p) ((q, gave p) ∷ []) (add (run initial ops) (name conns) 1).0 refl
              ((add_lem (run initial ops) (name conns) (name queries) 1).1 ∙ counted)
              (cc (rw (new_packet_handler, d, k) at made))
      ]
    ]
