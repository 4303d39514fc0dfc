-- ===== src/Server/Tests.antt =====
-- Requests and calls at which the theorems on the worker server are applied.

use mysql_replay.Base.{◌≤◌, ◌≡◌, true, false, [], ◌∷◌, All, if◌then◌else◌}
use mysql_replay.Server.Workers.{times, occurs, started_once, expected, pauses-bounds}
use mysql_replay.Server.{started, pauses, first_pause}

started_once_example :
    times "a" (started [] ("a" ∷ "b" ∷ "a" ∷ []))
    ≡ (if occurs "a" ("a" ∷ "b" ∷ "a" ∷ []) then 1 else 0)
started_once_example = started_once ("a" ∷ "b" ∷ "a" ∷ []) "a"

pauses-bounds_example :
    (pauses first_pause (true ∷ true ∷ false ∷ true ∷ [])
      ≡ expected 0 (true ∷ true ∷ false ∷ true ∷ []))
    × All (λ d. (200 ≤ d) × (d ≤ 60000)) (pauses first_pause (true ∷ true ∷ false ∷ true ∷ []))
pauses-bounds_example = pauses-bounds (true ∷ true ∷ false ∷ true ∷ [])
