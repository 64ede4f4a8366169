-- ===== src/Gateway/Replies.antt =====
-- services/gateway/errors.go and activator.go: how an error is answered, and the wait after an activation.
-- Messages are left out.
use forge_labs.Base.{
  ℕ, Bool, true, false, Option, none, some, List, [], ◌∷◌, if◌then◌else◌, ltb, ℤ, pos, leb_ℤ, Str,
  bytes,
}
use forge_labs.Reliability.Classify.{
  Code, unavailable, resource_exhausted, canceled, deadline_exceeded, invalid_argument, not_found,
  Errors,
}
use forge_labs.Gateway.Select.{SelectError}

-- A status of HTTP, a type and a code.
abbrev pub Status : Type 0
Status = ℕ × Str × Str

abbrev pub internal_error : Status
internal_error = (500, bytes "server_error", bytes "internal")

abbrev pub status_of : Code → Status
status_of not_found = (404, bytes "invalid_request_error", bytes "model_not_found")
status_of unavailable = (503, bytes "server_error", bytes "unavailable")
status_of resource_exhausted = (429, bytes "server_error", bytes "rate_limit")
status_of deadline_exceeded = (504, bytes "server_error", bytes "timeout")
status_of invalid_argument = (400, bytes "invalid_request_error", bytes "invalid_request")
status_of canceled = (408, bytes "server_error", bytes "canceled")
status_of _ = internal_error

-- `mapGRPCError`
unfoldable pub map_grpc_error : {E : Type 0} ⦃errors : Errors E⦄ → E → Status
map_grpc_error ⦃errors⦄ e = elim (errors.from_error e) [
  | none ↦ internal_error
  | some c ↦ status_of c
]

-- The seconds that `writeAdmissionRejected` asks to wait.
abbrev pub retry_after : ℤ → ℤ
retry_after n = if leb_ℤ n (pos 0) then pos 2 else n

-- What one round of `waitForCapacity` meets: the time, what the selector answers (`none` is a worker),
-- and whether the context is done before the next round.
pub record Look : Type 0 where
  pub now : ℕ
  pub answer : Option SelectError
  pub done : Bool

-- How the wait stands: a worker was found, the context is done, the time is up, with the last error if
-- there was a look, or it goes on.
pub data Waits : Type 0 where
  found context_done waiting : Waits
  no_capacity_after : Option SelectError → Waits

-- The loop of `waitForCapacity` over the rounds that it meets.
unfoldable pub wait_for_capacity : ℕ → Option SelectError → List Look → Waits
wait_for_capacity deadline last [] = waiting
wait_for_capacity deadline last (l ∷ ls) =
    let next = wait_for_capacity deadline l.answer ls in
    if ltb l.now deadline
    then (elim l.answer [ none ↦ found | some e ↦ if l.done then context_done else next ])
    else no_capacity_after last

-- What `tryActivate` meets: the activator's two answers, and the rounds of the wait.
pub record Activation : Type 0 where
  pub needs_activation : Bool
  pub activates : Bool
  pub deadline : ℕ
  pub looks : List Look

abbrev is_found : Waits → Bool
is_found found = true
is_found _ = false

-- `tryActivate`
unfoldable pub try_activate : Activation → Bool
unfolding wait_for_capacity
try_activate a =
    if a.needs_activation
    then (if a.activates then is_found (wait_for_capacity a.deadline none a.looks) else false)
    else false
