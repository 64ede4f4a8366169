-- ===== src/Reliability/Breaker.antt =====
-- services/gateway/reliability/breaker.go. A method on `*BreakerMap` returns the new map. The
-- time that `time.Now()` reads is an argument, in nanoseconds. What a method does to the entry of
-- its worker is a function of its own, which also lists the states that `setState` reports.
pub mod Transitions
pub mod Recovery
pub mod Unreported
pub mod Window
pub mod Views
mod Tests
use forge_labs.Base.{
  ℕ, ◌+◌, ◌-◌, ◌*◌, ◌/◌, ◌%◌, ◌^◌, Bool, true, false, not, ◌&&◌, Option, none, some, List, [], ◌∷◌,
  ◌++◌, map, ◌==◌, leb, if◌then◌else◌, ℤ, pos, leb_ℤ, time_sub, second, Str, Dict, lookup, insert,
  str_key, Float,
}

pub data State : Type 0 where
  closed half_open open_ : State

pub data AllowError : Type 0 where
  err_open : AllowError

pub record BreakerConfig (F : Type 0) : Type 0 where
  pub min_requests : ℕ  -- uint32
  pub failure_ratio : F
  pub timeout : ℤ
  pub max_half_open : ℕ  -- uint32

pub record WorkerBreaker : Type 0 where
  pub state : State
  pub requests : ℕ  -- uint32
  pub failures : ℕ  -- uint32
  pub successes : ℕ  -- uint32
  pub half_open_left : ℕ  -- uint32
  pub opened_at : ℕ

-- `on_state` says whether a callback is set, and `notified` holds its calls, the latest first.
pub record BreakerMap (F : Type 0) : Type 0 where
  pub breakers : Dict Str WorkerBreaker
  pub cfg : BreakerConfig F
  pub on_state : Bool
  pub notified : List (Str × State)

abbrev pub u32 : ℕ → ℕ
u32 n = n % 2 ^ 32

abbrev pub state_eq : State → State → Bool
state_eq closed closed = true
state_eq half_open half_open = true
state_eq open_ open_ = true
state_eq _ _ = false

module _ {F : Type 0} ⦃f : Float F⦄ where
  pub default_breaker_config : BreakerConfig F
  default_breaker_config = record {
    min_requests = 10;
    failure_ratio = f.div (f.num 1) (f.num 2);
    timeout = pos (5 * second);
    max_half_open = 2;
  }

  pub new_breaker_map : BreakerConfig F → Bool → BreakerMap F
  new_breaker_map cfg callback = record {
    breakers = [];
    cfg = record {
      min_requests = if cfg.min_requests == 0 then 10 else cfg.min_requests;
      failure_ratio =
          if not (f.lt (f.num 0) cfg.failure_ratio)
          then f.div (f.num 1) (f.num 2)
          else cfg.failure_ratio;
      timeout = if leb_ℤ cfg.timeout (pos 0) then pos (5 * second) else cfg.timeout;
      max_half_open = if cfg.max_half_open == 0 then 2 else cfg.max_half_open;
    };
    on_state = callback;
    notified = [];
  }

-- `&workerBreaker{state: StateClosed}`
unfoldable pub new_breaker : WorkerBreaker
new_breaker = record {
  state = closed;
  requests = 0;
  failures = 0;
  successes = 0;
  half_open_left = 0;
  opened_at = 0;
}

-- The entry after `setState`, with the states that are reported.
pub set_state : WorkerBreaker → State → WorkerBreaker × List State
set_state wb to = if state_eq wb.state to then (wb, []) else (record wb { state = to }, to ∷ [])

module _ {F : Type 0} where
  -- The `switch` of `Allow`.
  unfoldable pub allow_in :
      State → BreakerConfig F → ℕ → WorkerBreaker → WorkerBreaker × List State × Option AllowError
  unfolding set_state
  allow_in open_ cfg now wb =
      if leb_ℤ cfg.timeout (time_sub now wb.opened_at)
      then (let (wb', told) = set_state wb half_open in
          (record wb' { half_open_left = cfg.max_half_open }, told, none))
      else (wb, [], some err_open)
  allow_in half_open cfg now wb =
      if wb.half_open_left == 0
      then (wb, [], some err_open)
      else (record wb { half_open_left = wb.half_open_left - 1 }, [], none)
  allow_in closed cfg now wb = (wb, [], none)

  unfoldable pub allow_entry :
      BreakerConfig F → ℕ → WorkerBreaker → WorkerBreaker × List State × Option AllowError
  unfolding allow_in
  allow_entry cfg now wb = allow_in wb.state cfg now wb

  pub success_entry : BreakerConfig F → WorkerBreaker → WorkerBreaker × List State
  unfolding set_state
  success_entry cfg old =
      let wb = record old {
        requests = u32 (old.requests + 1);
        successes = u32 (old.successes + 1);
      } in
      if state_eq wb.state half_open
      then (let (wb', told) = set_state wb closed in
          (record wb' { requests = 0; failures = 0; successes = 0 }, told))
      else if state_eq wb.state closed && leb (u32 (cfg.min_requests * 2)) wb.requests
      then (
        record wb {
          requests = wb.requests / 2;
          failures = wb.failures / 2;
          successes = wb.successes / 2;
        },
        [],
      )
      else (wb, [])

  pub failure_entry :
      ⦃f : Float F⦄ → BreakerConfig F → ℕ → WorkerBreaker → WorkerBreaker × List State
  unfolding set_state
  failure_entry ⦃f⦄ cfg now old =
      let wb = record old {
        requests = u32 (old.requests + 1);
        failures = u32 (old.failures + 1);
      } in
      let (wb', told) = set_state wb open_ in
      if state_eq wb.state half_open
      then (record wb' { opened_at = now }, told)
      else if leb cfg.min_requests wb.requests
      then (if not (f.lt (f.div (f.num wb.failures) (f.num wb.requests)) cfg.failure_ratio)
          then (record wb' { opened_at = now }, told)
          else (wb, []))
      else (wb, [])

  -- `get`, which adds a closed breaker for a new worker; every method stores the entry anyway.
  unfoldable pub entry : BreakerMap F → Str → WorkerBreaker
  entry b id = elim (lookup id b.breakers) [ none ↦ new_breaker | some wb ↦ wb ]

  pub store : BreakerMap F → Str → WorkerBreaker → List State → BreakerMap F
  store b id wb told = record b {
    breakers = insert id wb b.breakers;
    notified = if b.on_state then map (λ s. (id, s)) told ++ b.notified else b.notified;
  }

  unfoldable pub allow : BreakerMap F → Str → ℕ → BreakerMap F × Option AllowError
  allow b id now = let (wb, told, e) = allow_entry b.cfg now (entry b id) in (store b id wb told, e)

  pub success : BreakerMap F → Str → BreakerMap F
  success b id = let (wb, told) = success_entry b.cfg (entry b id) in store b id wb told

  pub failure : ⦃f : Float F⦄ → BreakerMap F → Str → ℕ → BreakerMap F
  failure b id now = let (wb, told) = failure_entry b.cfg now (entry b id) in store b id wb told

  pub state_of : BreakerMap F → Str → State × BreakerMap F
  state_of b id = ((entry b id).state, store b id (entry b id) [])
