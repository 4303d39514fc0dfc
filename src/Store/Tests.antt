-- ===== src/Store/Tests.antt =====
-- Tasks at which the theorem on the store is applied.
use mysql_replay.Base.{ℕ, ◌≡◌, ◌≢◌, refl, arith, [], ◌∷◌, true, false, codes}
use mysql_replay.Base.Int.{pos}
use mysql_replay.Base.Map.{lookup, insert, erase, nat_eq}
use mysql_replay.Store.Claims.{claim-once}
use mysql_replay.Store.{ReplayReq, Row, Wip, marked, claim, releases, release, next}

abbrev request : ReplayReq
request = record { ts = pos 1; ch = codes "a"; name = codes "n"; url = []; md5 = [] }

abbrev task : ℕ → Row
task n = record { req = request; id = n }

abbrev working : Wip
working = (11, true) ∷ []

-- The worker takes the task 12 and leaves it; another answer still has it.
claim-once_example : (marked (lookup 12 working) ≡ false) × ((task 13).id ≢ (task 12).id)
unfolding claim next release lookup insert erase
claim-once_example =
    claim-once working (task 11 ∷ task 12 ∷ []) (task 12 ∷ task 13 ∷ []) (releases 1 ∷ []) 1 1
      (task 12) (task 13) refl refl (omega arith) (omega arith, tt) refl refl
