-- ===== src/Routing/Inflight.antt =====
-- services/routing/inflight.go. The counters are atomic `int64`s, one for each worker, that many
-- requests use at once. A request's next atomic action is a function of the counter and of where
-- the request stands, so that a schedule, the list of the requests whose turn it is, gives every
-- interleaving. A counter starts at 0 (`LoadOrStore`), and counters of different workers are
-- independent.
mod Safety
mod Tests
use forge_labs.Base.{
  ℕ, ◌≡◌, Bool, true, false, ◌&&◌, Option, none, some, List, [], ◌∷◌, get_elem?, set, if◌then◌else◌,
  ℤ, pos, ◌+ℤ◌, ◌-ℤ◌, leb_ℤ, eqb_ℤ, Str, Dict, str_key, lookup, insert,
}

-- Where a request stands in `TryTrack` and in the function `done` that it returns. A `seen` value
-- is the one that the request loaded last; `zeroing` is before the `Store(0)` of `Dec`.
pub data Stage : Type 0 where
  idle trying refused holding releasing zeroing released : Stage
  seen : ℤ → Stage
  release_seen : ℤ → Stage

-- The counter and the stage after the next atomic action of a request that calls
-- `TryTrack(workerID, limit)`, works, and calls `done`. With no limit, `Track` adds 1 at once.
-- `sync.Once` lets `done` act once.
unfoldable pub act : ℤ → ℤ → Stage → ℤ × Stage
act limit c idle = if leb_ℤ limit (pos 0) then (c +ℤ pos 1, holding) else (c, trying)
act limit c trying = (c, seen c)
act limit c (seen v) =
    if leb_ℤ limit v then (c, refused) else if eqb_ℤ c v then (v +ℤ pos 1, holding) else (c, trying)
act limit c refused = (c, refused)
act limit c holding = (c, releasing)
act limit c releasing = (c, release_seen c)
act limit c (release_seen v) =
    if leb_ℤ v (pos 0)
    then (c, zeroing)
    else if eqb_ℤ c v
    then (v -ℤ pos 1, released)
    else (c, releasing)
act limit c zeroing = (pos 0, released)
act limit c released = (c, released)

pub record System : Type 0 where
  pub counter : ℤ
  pub requests : List Stage

-- The request at a position takes its next action.
pub turn : ℤ → System → ℕ → System
turn limit s i = elim (get_elem? s.requests i) [
  | none ↦ s
  | some p ↦
      let (c, q) = act limit s.counter p in record { counter = c; requests = set s.requests i q }
]

unfoldable pub run : ℤ → System → List ℕ → System
run limit s [] = s
run limit s (i ∷ schedule) = run limit (turn limit s i) schedule

-- The same operations as single steps, on the counters of all workers.
unfoldable pub get : Dict Str ℤ → Str → ℤ
get m id = elim (lookup id m) [ none ↦ pos 0 | some c ↦ c ]

unfoldable pub inc : Dict Str ℤ → Str → Dict Str ℤ
inc m id = insert id (get m id +ℤ pos 1) m

unfoldable pub dec : Dict Str ℤ → Str → Dict Str ℤ
dec m id = insert id (if leb_ℤ (get m id) (pos 0) then pos 0 else get m id -ℤ pos 1) m

-- `none` is a refusal.
unfoldable pub try_track : Dict Str ℤ → Str → ℤ → Option (Dict Str ℤ)
try_track m id limit =
    if leb_ℤ limit (pos 0)
    then some (inc m id)
    else if leb_ℤ limit (get m id)
    then none
    else some (insert id (get m id +ℤ pos 1) m)
