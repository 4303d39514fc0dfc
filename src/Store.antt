-- ===== src/Store.antt =====
-- core/store.go: `sqlStore`, the tasks that are being worked on.
pub mod Claims
mod Tests
use mysql_replay.Base.{
  ℕ, suc, Bool, true, false, List, [], ◌∷◌, ◌⊎◌, inl, inr, Option, none, some, Bytes, get_elem?,
  if◌then◌else◌,
}
use mysql_replay.Base.Int.{ℤ}
use mysql_replay.Base.Map.{Map, lookup, insert, erase, nat_eq}

-- `ReplayReq`
pub record ReplayReq : Type 0 where
  pub ts : ℤ
  pub ch : Bytes
  pub name : Bytes
  pub url : Bytes
  pub md5 : Bytes

-- A row of the answer to the query of `Call`.
pub record Row : Type 0 where
  pub req : ReplayReq
  pub id : ℕ

-- The field `wip`.
abbrev pub Wip : Type 0
Wip = Map ℕ Bool

-- `s.wip[id]`, false where there is no entry.
abbrev pub marked : Option Bool → Bool
marked none = false
marked (some b) = b

-- `listWIP`; Go walks the map in any order.
unfoldable pub list_wip : Wip → List ℕ
list_wip [] = []
list_wip ((id, b) ∷ m) = id ∷ list_wip m

-- The loop under the lock that takes the first row from the index `i` on that nobody works on.
unfoldable pub claim : Wip → ℕ → List Row → Option ℕ × Wip
claim w i [] = (none, w)
claim w i (r ∷ rs) =
    let rest = claim w (suc i) rs in
    if marked (lookup r.id w) then rest else (some i, insert r.id true w)

-- The deferred `delete`, by the index of the row.
unfoldable pub release : Wip → ℕ → Wip
release w i = erase i w

-- A step of some worker of the store: it takes a row of an answer, or it leaves one it has taken.
pub data Step : Type 0 where
  claims : List Row → Step
  releases : ℕ → Step

unfoldable pub next : Wip → Step → Wip
unfolding claim release
next w (claims rs) = (claim w 0 rs).1
next w (releases i) = release w i

abbrev pub steps : Wip → List Step → Wip
steps w [] = w
steps w (s ∷ ss) = steps (next w s) ss

-- What `Call` writes to a row at the end.
pub data Update : Type 0 where
  set_err : ℕ → Bytes → Update
  set_done : ℕ → Bytes → Update

-- `load_failed` and `noop` are the returns in front of the replay, `replay_failed` has the error of
-- the replay, and `updated` the error of the last update, if there is one.
pub data CallOutcome : Type 0 where
  load_failed : Bytes → CallOutcome
  noop : CallOutcome
  replay_failed : Bytes → CallOutcome
  updated : Option Bytes → CallOutcome

abbrev pub answered : (Update → Option Bytes) → ℕ → Bytes ⊎ Bytes → CallOutcome × Option Update
answered write id (inl e) = (replay_failed e, some (set_err id e))
answered write id (inr path) = (updated (write (set_done id path)), some (set_done id path))

abbrev pub called :
    (ReplayReq → Bytes ⊎ Bytes)
    → (Update → Option Bytes)
    → List Row
    → Option ℕ × Wip
    → (CallOutcome × Option Update) × Wip
called replay write rs (none, w) = ((noop, none), w)
called replay write rs (some i, w) = elim (get_elem? rs i) [
  | none ↦ ((noop, none), w)
  | some r ↦ (answered write r.id (replay r.req), release w i)
]

-- `Call` of a worker that no other one interrupts. `load` answers the query, which leaves out the ids
-- it is given; `replay` gives an error or a path; `write` gives the error of an update.
unfoldable pub call :
    (List ℕ → Bytes ⊎ List Row)
    → (ReplayReq → Bytes ⊎ Bytes)
    → (Update → Option Bytes)
    → Wip
    → (CallOutcome × Option Update) × Wip
unfolding list_wip claim release
call load replay write w = elim (load (list_wip w)) [
  | inl e ↦ ((load_failed e, none), w)
  | inr rs ↦ called replay write rs (claim w 0 rs)
]
