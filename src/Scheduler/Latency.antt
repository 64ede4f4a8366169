-- ===== src/Scheduler/Latency.antt =====
-- services/scheduler/ewma.go and latency_store.go. `math.Exp` is a parameter. A time is a number of
-- nanoseconds from the zero time.
use forge_labs.Base.{
  ℕ, ◌*◌, ◌/◌, ◌%◌, ◌||◌, none, some, [], if◌then◌else◌, ◌==◌, is_empty, ℤ, pos, pos_part, leb_ℤ,
  second, time_sub, Str, Dict, lookup, insert, str_key, Float,
}

pub record Ewma (F : Type 0) : Type 0 where
  pub tau : ℤ
  pub value : F
  pub last : ℕ

pub record LatencyStore (F : Type 0) : Type 0 where
  pub tau : ℤ
  pub seed : F
  pub by_id : Dict Str (Ewma F)

-- A time constant that is not positive is ten seconds.
abbrev pub tau_or_default : ℤ → ℤ
tau_or_default tau = if leb_ℤ tau (pos 0) then pos (10 * second) else tau

module _ {F : Type 0} ⦃f : Float F⦄ where
  pub new_ewma : ℤ → F → Ewma F
  new_ewma tau seed = record { tau = tau_or_default tau; value = seed; last = 0 }

  -- `Seconds()` of a duration that is not negative.
  abbrev seconds : ℕ → F
  seconds n = f.add (f.num (n / second)) (f.div (f.num (n % second)) (f.num second))

  module _ (exp : F → F) where
    -- `Update`. A negative difference of times counts as 0.
    unfoldable pub update_ewma : Ewma F → F → ℕ → Ewma F
    update_ewma e sample now =
        let dt = seconds (pos_part (time_sub now e.last)) in
        let tau_sec = if leb_ℤ e.tau (pos 0) then f.num 10 else seconds (pos_part e.tau) in
        let alpha = f.sub (f.num 1) (exp (f.sub (f.num 0) (f.div dt tau_sec))) in
        let smoothed = f.add (f.mul alpha sample) (f.mul (f.sub (f.num 1) alpha) e.value) in
        if e.last == 0
        then record e { value = sample; last = now }
        else record e { value = smoothed; last = now }

    -- `Observe`, with `getOrCreate`.
    unfoldable pub observe : LatencyStore F → Str → F → ℕ → LatencyStore F
    unfolding update_ewma new_ewma
    observe s id sample now =
        let e : Ewma F = (elim (lookup id s.by_id) [ none ↦ new_ewma s.tau s.seed | some e ↦ e ]) in
        if is_empty id || f.lt sample (f.num 0)
        then s
        else record s { by_id = insert id (update_ewma e sample now) s.by_id }

  pub new_latency_store : ℤ → LatencyStore F
  new_latency_store tau = record { tau = tau_or_default tau; seed = f.num 0; by_id = [] }

  -- `Get`
  unfoldable pub latency_of : LatencyStore F → Str → F
  latency_of s id = elim (lookup id s.by_id) [ none ↦ f.num 0 | some e ↦ e.value ]
