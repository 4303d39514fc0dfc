-- ===== src/Server.antt =====
-- core/server.go: `handler`, which starts a worker for each channel, and the worker's pauses.
pub mod Workers
mod Tests
use Prim.Native.String.{String}
use mysql_replay.Base.{
  ℕ, ◌+◌, Bool, true, false, List, [], ◌∷◌, Option, none, some, if◌then◌else◌, ltb,
}
use mysql_replay.Base.Map.{Map, lookup, insert, string_eq}

-- The field `ws`, the channels that have a worker.
abbrev pub Workers : Type 0
Workers = Map String (Unit {0})

-- What happens in `ServeHTTP` under the lock for a request of the channel whose data was fetched: the
-- channels with a worker then, and whether `startWorker` was called.
abbrev pub with_worker : Workers → String → Option (Unit {0}) → Workers × Bool
with_worker ws ch (some u) = (ws, false)
with_worker ws ch none = (insert ch tt ws, true)

unfoldable pub serve : Workers → String → Workers × Bool
serve ws ch = with_worker ws ch (lookup ch ws)

-- The channels for which a worker is started, for requests of the channels one after the other.
unfoldable pub started : Workers → List String → List String
unfolding serve
started ws [] = []
started ws (ch ∷ chs) =
    let (next, starts) = serve ws ch in
    let rest = started next chs in if starts then ch ∷ rest else rest

-- `d` of `startWorker` behind a pause.
abbrev pub longer : ℕ → ℕ
longer d = if ltb d 60000 then d + 200 else d

-- The pauses of `startWorker`, in milliseconds; each `Call` has returned `NOOP`, or not.
unfoldable pub pauses : ℕ → List Bool → List ℕ
pauses d [] = []
pauses d (true ∷ calls) = d ∷ pauses (longer d) calls
pauses d (false ∷ calls) = pauses 200 calls

abbrev pub first_pause : ℕ
first_pause = 200
