-- ===== src/Live/Texts.antt =====
-- stream/packet.go and stream/event.go: the texts of queries, what passes a filter, and the query that
-- a machine announces.

use mysql_replay.Base.{
  ℕ, ◌+◌, ◌%◌, ◌^◌, Bool, List, [], ◌∷◌, ◌++◌, Option, none, some, Bytes, ◌≡◌, refl, sym, ap, ◌∙◌,
  if◌then◌else◌, ◌==◌, append-nil, append_assoc, length,
}
use mysql_replay.Base.Int.{ℤ}
use mysql_replay.Event.Types.{MysqlEvent, event_query}
use mysql_replay.Live.{ReplayHandler, passes}
use mysql_replay.Play.Driver.{Request, exec_query, History}
use mysql_replay.Stats.Counter.{name, queries, get}
use mysql_replay.Stream.Events.{event_of, appended, EventHandler}
use mysql_replay.Stream.Fsm.Machine.{
  State, init, unknown, com_query_state, com_stmt_execute_state, com_stmt_close_state,
  com_stmt_prepare0, com_stmt_prepare1, com_quit_state, handshake0, handshake1, code, Fsm,
}

-- The texts that were run.
abbrev pub text_of : Request → List Bytes
text_of (exec_query p s) = s ∷ []
text_of _ = []

abbrev pub texts : History → List Bytes
texts [] = []
texts ((q, r) ∷ past) = texts past ++ text_of q

-- The texts of the query events.
abbrev pub query_texts : List MysqlEvent → List Bytes
query_texts [] = []
query_texts (e ∷ es) = (if e.type == event_query then e.query ∷ [] else []) ++ query_texts es

-- Those that pass the filter.
abbrev pub passing : Option (Bytes → Bool) → List Bytes → List Bytes
passing f [] = []
passing f (s ∷ ss) = (if passes f s then s ∷ [] else []) ++ passing f ss

-- What runs of them: nothing without a database.
abbrev pub to_run : Option ℕ → Option (Bytes → Bool) → List Bytes → List Bytes
to_run none f ss = []
to_run (some p) f ss = passing f ss

pub query_texts-append :
    (es gs : List MysqlEvent) → query_texts (es ++ gs) ≡ query_texts es ++ query_texts gs
query_texts-append [] gs = refl
query_texts-append (e ∷ es) gs =
    ap (λ x. (if e.type == event_query then e.query ∷ [] else []) ++ x) (query_texts-append es gs)
    ∙ sym (
        append_assoc (if e.type == event_query then e.query ∷ [] else []) (query_texts es)
          (query_texts gs))

pub passing-append :
    (f : Option (Bytes → Bool)) (ss ts : List Bytes)
    → passing f (ss ++ ts) ≡ passing f ss ++ passing f ts
passing-append f [] ts = refl
passing-append f (s ∷ ss) ts =
    ap (λ x. (if passes f s then s ∷ [] else []) ++ x) (passing-append f ss ts)
    ∙ sym (append_assoc (if passes f s then s ∷ [] else []) (passing f ss) (passing f ts))

-- The replay stands where the dump does: with the same machine, and its texts and its counter are
-- those of the events.
pub record Follows (c : ℕ) (before : List Bytes) (h : ReplayHandler) (e : EventHandler)
    : Type 0 where
  pub same : e.fsm ≡ h.fsm
  pub texts_run : texts h.history ≡ before ++ to_run h.db h.filter (query_texts e.events)
  pub counted : get h.stats (name queries) ≡ (c + length (query_texts e.events)) % 2 ^ 64

abbrev pub listed : Option MysqlEvent → List MysqlEvent
listed none = []
listed (some e) = e ∷ []

pub appended-listed :
    (es : List MysqlEvent) (o : Option MysqlEvent) → appended es o ≡ es ++ listed o
appended-listed es none = sym (append-nil es)
appended-listed es (some e) = refl

-- The query that a machine announces.
abbrev new_query : Bool → Fsm → List Bytes
new_query b m = if b then m.query ∷ [] else []

pub query_texts-event_of :
    (s : State) (t : ℤ) (m : Fsm)
    → query_texts (listed (event_of s t m)) ≡ new_query (code s == code com_query_state) m
unfolding event_of
query_texts-event_of init t m = refl
query_texts-event_of unknown t m = refl
query_texts-event_of com_query_state t m = refl
query_texts-event_of com_stmt_execute_state t m = refl
query_texts-event_of com_stmt_close_state t m = refl
query_texts-event_of com_stmt_prepare0 t m = refl
query_texts-event_of com_stmt_prepare1 t m = refl
query_texts-event_of com_quit_state t m = refl
query_texts-event_of handshake0 t m = refl
query_texts-event_of handshake1 t m = refl
