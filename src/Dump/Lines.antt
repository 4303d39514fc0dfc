-- ===== src/Dump/Lines.antt =====
-- cmd/text.go: the file that `textDumpHandler` writes, and its replay.
use Prim.Native.String.{String}
use mysql_replay.Base.{
  ℕ, ◌+◌, ◌%◌, ◌^◌, false, List, [], ◌∷◌, ◌++◌, none, some, Bytes, ◌≡◌, refl, sym, ap, ◌∙◌, arith,
  All, append-nil, codes, length-append, Option-cases, inl, inr, append_assoc, length,
}
use mysql_replay.Base.Int.{ℤ}
use mysql_replay.Base.Map.{Map, nat_eq, string_eq}
use mysql_replay.Base.Result.{Result, ok, err, panic}
use mysql_replay.Dump.{
  TextDumpHandler, renamed_file, new_dump_handler, dumped, on_event, on_events, is_zero, on_close,
}
use mysql_replay.Event.Append.{append_event, AppendError}
use mysql_replay.Event.Body.{Known, handshake, quit, query_event, prepare, execute, close, carried}
use mysql_replay.Event.Fields.{at_end}
use mysql_replay.Event.RoundTrip.{append_event-layout, scan_event-append_event}
use mysql_replay.Event.Scan.{scan_event}
use mysql_replay.Event.Types.{MysqlEvent, reset, IsEvent}
use mysql_replay.Play.Driver.{Driver}
use mysql_replay.Play.Refinement.Files.{IsLine, IsFile, nothing, line, start_ran}
use mysql_replay.Play.Refinement.{IsReliable}
use mysql_replay.Play.Replay.{IsNew}
use mysql_replay.Play.Session.{Occasion, Config, start}
use mysql_replay.Play.Spec.{spec_step, spec, ran}
use mysql_replay.Play.Worker.{Worker}
use mysql_replay.Stats.Counter.{Counters, name, data_out, get}
use mysql_replay.Stats.Laws.{add_lem}
use mysql_replay.Strconv.Decimal.{format_int}
use mysql_replay.Strconv.Library.{Library, FloatLaws}

-- An event that the text format can hold.
pub record IsDumpable (e : MysqlEvent) : Type 0 where
  pub known : Known e.type
  pub valid : IsEvent e

abbrev text_of : Result AppendError Bytes → Bytes
text_of (ok b) = b
text_of (err f) = []
text_of panic = []

-- The line of an event.
unfoldable pub line_of : Library → MysqlEvent → Bytes
line_of lib e = text_of (append_event lib [] e)

-- Every line ends with a newline.
abbrev pub joined_lines : Library → List MysqlEvent → Bytes
joined_lines lib [] = []
joined_lines lib (e ∷ es) = (line_of lib e ++ b'\n' ∷ []) ++ joined_lines lib es

-- The lines, the first of them at the occasion `n`.
abbrev pub lines_at : Library → (ℕ → Occasion) → ℕ → List MysqlEvent → List (Bytes × Occasion)
lines_at lib when n [] = []
lines_at lib when n (e ∷ es) = (line_of lib e, when n) ∷ lines_at lib when (n + 1) es

append_event-line_of :
    (lib : Library) (e : MysqlEvent) → IsDumpable e → append_event lib [] e ≡ ok (line_of lib e)
unfolding line_of
append_event-line_of lib e d =
    let written = append_event-layout lib [] e d.known d.valid.params in rw (written) refl

abbrev all_carried : (es : List MysqlEvent) → All IsDumpable es → List MysqlEvent
all_carried [] ds = []
all_carried (e ∷ es) (d, ds) = carried d.known e ∷ all_carried es ds

spec_step-carried :
    (m : Map ℕ Bytes) (e : MysqlEvent) (k : Known e.type)
    → spec_step m (carried k e) ≡ spec_step m e
unfolding spec_step
spec_step-carried m e (handshake h) = simp (spec_step, h) refl
spec_step-carried m e (quit h) = simp (spec_step, h) refl
spec_step-carried m e (query_event h) = simp (spec_step, h) refl
spec_step-carried m e (prepare h) = simp (spec_step, h) refl
spec_step-carried m e (execute h) = simp (spec_step, h) refl
spec_step-carried m e (close h) = simp (spec_step, h) refl

spec-all_carried :
    (m : Map ℕ Bytes) (es : List MysqlEvent) (ds : All IsDumpable es)
    → spec m (all_carried es ds) ≡ spec m es
unfolding spec
spec-all_carried m [] ds = refl
spec-all_carried m (e ∷ es) (d, ds) =
    rw (spec_step-carried m e d.known)
      (ap (λ x. (spec_step m e).1 ++ x) (spec-all_carried (spec_step m e).0 es ds))

module _ (lib : Library) (laws : FloatLaws lib) (when : ℕ → Occasion)
    (going : (n : ℕ) → (when n).cancelled ≡ false) where
  line_of-IsLine :
      (n : ℕ) (e : MysqlEvent) (d : IsDumpable e)
      → IsLine lib (line_of lib e, when n) (carried d.known e)
  line_of-IsLine n e d = record { going = going n; end = 0 + length (line_of lib e); reads = reads }
    where
      reads :
          (old : MysqlEvent)
          → scan_event lib (line_of lib e) 0 (reset old [])
            ≡ ok (carried d.known e, 0 + length (line_of lib e))
      reads old =
          let (b, w, r) = scan_event-append_event laws old e d.known [] [] d.valid at_end in
          let same : b ≡ line_of lib e = cc (w, append_event-line_of lib e d) in
          rw (sym same) (rw (append-nil b) at r)

  lines_at-IsFile :
      (n : ℕ) (es : List MysqlEvent) (ds : All IsDumpable es)
      → IsFile lib (lines_at lib when n es) (all_carried es ds)
  lines_at-IsFile n [] ds = nothing
  lines_at-IsFile n (e ∷ es) (d, ds) = line (line_of-IsLine n e d) (lines_at-IsFile (n + 1) es ds)

  -- Events in range are written as lines, and the lines are replayed by a new worker, with no dry run and
  -- no cancellation, on a database that answers every request and gives each prepared statement a handle
  -- of its own, where floats are read back as they are printed. Then the replay comes to its end, and what
  -- has run are the queries of the events and the texts of the statements that they execute, in their
  -- order and nothing else.
  pub start-lines_at :
      (ops : List (String × ℕ)) (dr : Driver) (cfg : Config) (w : Worker) (es : List MysqlEvent)
      → IsReliable dr
      → cfg.dry_run ≡ false
      → IsNew ops w
      → All IsDumpable es
      → (z : Worker) × (start lib dr cfg w (lines_at lib when 0 es) ≡ some z)
        × (ran z.history ≡ spec [] es)
  start-lines_at ops dr cfg w es ok_dr wet new ds =
      let (z, r, q) = start_ran ops lib dr cfg w _ _ ok_dr wet new (lines_at-IsFile 0 es ds) in
      (z, r, q ∙ spec-all_carried [] es ds)

abbrev pub last_time : ℤ → List MysqlEvent → ℤ
last_time t [] = t
last_time t (e ∷ es) = last_time e.time es

on_events-dumped :
    (lib : Library) (h : TextDumpHandler) (es : List MysqlEvent)
    → All IsDumpable es
    → (z : TextDumpHandler) × (on_events lib h es ≡ some z)
      × (z.written ≡ h.written ++ joined_lines lib es)
      × (z.lst ≡ last_time h.lst es)
      × (z.hash ≡ h.hash)
      × (is_zero h.fst ≡ false → z.fst ≡ h.fst)
unfolding on_events on_event dumped
on_events-dumped lib h [] ds = (h, refl, sym (append-nil h.written), refl, refl, λ q. refl)
on_events-dumped lib h (e ∷ es) (d, ds) =
    let y = dumped h e (line_of lib e) in
    let (z, r, w, t, q, f) = on_events-dumped lib y es ds in
    (
      z,
      rw (on_events, on_event, append_event-line_of lib e d) r,
      w ∙ append_assoc h.written (line_of lib e ++ b'\n' ∷ []) (joined_lines lib es),
      t,
      q,
      λ k. (let kept : y.fst ≡ h.fst = rw k refl in f (rw kept k) ∙ kept),
    )

-- Events in range are given to a new handler, the first of them not at the time 0: the file has their
-- lines, one behind the other, and is renamed after the first time, the last time and the connection.
pub on_close-events :
    (lib : Library) (hash : Bytes) (c : Counters) (e : MysqlEvent) (es : List MysqlEvent)
    → All IsDumpable (e ∷ es)
    → is_zero e.time ≡ false
    → (z : TextDumpHandler) × (on_events lib (new_dump_handler hash c) (e ∷ es) ≡ some z)
      × (z.written ≡ joined_lines lib (e ∷ es))
      × ((on_close z).file
          ≡ renamed_file (
              format_int e.time
              ++ (b'.' ∷ format_int (last_time e.time es) ++ (b'.' ∷ hash ++ codes ".tsv"))))
unfolding on_events on_event dumped on_close
on_close-events lib hash c e es (d, ds) first =
    let h = new_dump_handler hash c in
    let y = dumped h e (line_of lib e) in
    let (z, r, w, t, q, f) = on_events-dumped lib y es ds in
    let same : z.fst ≡ e.time = f first in
    (z, rw (on_events, on_event, append_event-line_of lib e d) r, w, rw (same, first, t, q) refl)

on_event-data_out :
    (lib : Library) (c : ℕ) (h z : TextDumpHandler) (e : MysqlEvent)
    → get h.stats (name data_out) ≡ (c + length h.written) % 2 ^ 64
    → on_event lib h e ≡ some z
    → get z.stats (name data_out) ≡ (c + length z.written) % 2 ^ 64
unfolding on_event dumped
on_event-data_out lib c h z e k r = written (append_event lib [] e) r
  where
    counted :
        (b : Bytes)
        → get (dumped h e b).stats (name data_out) ≡ (c + length (dumped h e b).written) % 2 ^ 64
    counted b = omega (
      arith,
      k,
      (add_lem h.stats (name data_out) (name data_out) (length b + 1)).1,
      length-append h.written (b ++ b'\n' ∷ []),
      length-append b (b'\n' ∷ []),
    )

    written :
        (o : Result AppendError Bytes)
        → elim o [ ok b ↦ some (dumped h e b) | err f ↦ some h | panic ↦ none ] ≡ some z
        → get z.stats (name data_out) ≡ (c + length z.written) % 2 ^ 64
    written (ok b) q = let same : z ≡ dumped h e b = cc in rw same (counted b)
    written (err f) q = let same : z ≡ h = cc in rw same k
    written panic q = cc

-- Whatever events come, those that cannot be written included, the counter of outgoing bytes goes
-- up by the bytes that are written to the file, modulo 2 ^ 64.
pub on_events-data_out :
    (lib : Library) (c : ℕ) (h z : TextDumpHandler) (es : List MysqlEvent)
    → get h.stats (name data_out) ≡ (c + length h.written) % 2 ^ 64
    → on_events lib h es ≡ some z
    → get z.stats (name data_out) ≡ (c + length z.written) % 2 ^ 64
unfolding on_events
on_events-data_out lib c h z [] k r = let same : z ≡ h = cc in rw same k
on_events-data_out lib c h z (e ∷ es) k r = elim (Option-cases (on_event lib h e)) [
  | inl n ↦ cc (rw (on_events, n) at r)
  | inr (y, s) ↦
      on_events-data_out lib c y z es (on_event-data_out lib c h y e k s) (rw (on_events, s) at r)
]
