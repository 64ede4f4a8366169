-- ===== src/Reliability/Breaker/Transitions.antt =====
-- Which state changes the breaker of a worker makes, and what is reported of them.
use forge_labs.Base.{
  ℕ, ◌≡◌, refl, ◌⊎◌, inl, false, List, [], ◌∷◌, ◌++◌, map, arith, if◌then◌else◌, Str, str_eq,
  str_eq_refl, lookup-insert, str_key, Float,
}
use forge_labs.Reliability.Breaker.{
  State, closed, half_open, open_, BreakerConfig, WorkerBreaker, BreakerMap, allow_entry,
  success_entry, failure_entry, entry, store, allow, success, failure, state_of,
}

-- The transition diagram of a circuit breaker.
infix 40 ◌⟶◌
pub data ◌⟶◌ : State → State → Type 0 where
  trip : closed ⟶ open_
  cool : open_ ⟶ half_open
  recover : half_open ⟶ closed
  relapse : half_open ⟶ open_

-- An entry either keeps its state and nothing is reported, or it follows one edge of the diagram
-- and exactly the state that it reaches is reported.
abbrev pub Moves : State → State → List State → Type 0
Moves s t told = ((s ≡ t) × (told ≡ [])) ⊎ ((s ⟶ t) × (told ≡ t ∷ []))

module _ {F : Type 0} where
  pub allow_entry-Moves :
      (cfg : BreakerConfig F) (now : ℕ) (wb : WorkerBreaker)
      → Moves wb.state (allow_entry cfg now wb).0.state (allow_entry cfg now wb).1
  unfolding allow_entry
  allow_entry-Moves cfg now wb = grind (arith, trip, cool, recover, relapse)

  pub success_entry-Moves :
      (cfg : BreakerConfig F) (wb : WorkerBreaker)
      → Moves wb.state (success_entry cfg wb).0.state (success_entry cfg wb).1
  unfolding success_entry
  success_entry-Moves cfg wb = grind (arith, trip, cool, recover, relapse)

  pub failure_entry-Moves :
      ⦃f : Float F⦄
      → (cfg : BreakerConfig F) (now : ℕ) (wb : WorkerBreaker)
      → Moves wb.state (failure_entry cfg now wb).0.state (failure_entry cfg now wb).1
  unfolding failure_entry
  failure_entry-Moves cfg now wb = grind (arith, trip, cool, recover, relapse)

module _ {F : Type 0} where
  pub entry-store :
      (b : BreakerMap F) (id w : Str) (wb : WorkerBreaker) (told : List State)
      → entry (store b id wb told) w ≡ (if str_eq id w then wb else entry b w)
  unfolding entry store
  entry-store b id w wb told = ground (arith, lookup-insert id w wb b.breakers)

  -- What a method that is called for one worker may do: the breakers of all other workers stay as
  -- they are, that worker's breaker follows the diagram, and the callback is told, if one is set.
  pub record Follows (b : BreakerMap F) (id : Str) (b' : BreakerMap F) : Type 0 where
    pub told : List State
    pub moves : Moves (entry b id).state (entry b' id).state told
    pub reported :
        b'.notified ≡ (if b.on_state then map (λ s. (id, s)) told ++ b.notified else b.notified)
    pub others : (w : Str) → str_eq id w ≡ false → entry b' w ≡ entry b w
    pub same_cfg : b'.cfg ≡ b.cfg

  store-Follows :
      (b : BreakerMap F) (id : Str) (wb : WorkerBreaker) (told : List State)
      → Moves (entry b id).state wb.state told
      → Follows b id (store b id wb told)
  unfolding store
  store-Follows b id wb told m = record {
    told = told;
    moves = rw (entry-store b id id wb told, str_eq_refl id) m;
    reported = refl;
    others = λ w ne. rw (entry-store b id w wb told, ne);
    same_cfg = refl;
  }

  -- Every method of the breaker map, at every time, makes at most one step of the transition
  -- diagram for the worker that it is called for, tells the callback exactly that step, and leaves
  -- every other worker's breaker alone.
  pub methods-Follows :
      ⦃f : Float F⦄
      → (b : BreakerMap F) (id : Str) (now : ℕ)
      → Follows b id (allow b id now).0
        × Follows b id (success b id)
        × Follows b id (failure b id now)
        × Follows b id (state_of b id).1
  unfolding allow success failure state_of
  methods-Follows b id now = (
    store-Follows b id _ _ (allow_entry-Moves b.cfg now (entry b id)),
    store-Follows b id _ _ (success_entry-Moves b.cfg (entry b id)),
    store-Follows b id _ _ (failure_entry-Moves b.cfg now (entry b id)),
    store-Follows b id _ _ (inl (refl, refl)),
  )
