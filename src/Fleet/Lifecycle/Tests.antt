-- ===== src/Fleet/Lifecycle/Tests.antt =====
-- A worker that is seen ready at the second look, a pod that serves another model, and the theorem on
-- the wait.
use forge_labs.Base.{
  has_part, ℕ, zero, suc, ◌+◌, ◌≡◌, refl, arith, Bool, true, false, none, some, [], ◌∷◌, ℤ, bytes,
  has_prefix, str_eq,
}
use forge_labs.Fleet.Lifecycle.{
  WaitEnv, ready_at, wait_from, wait_ready, check_ready, proxy_of, reply, http_models_ok,
  names_model,
}
use forge_labs.Fleet.Lifecycle.Ends.{Explained, wait_ready-Explained}

abbrev from_second : ℕ → Bool
from_second zero = false
from_second (suc _) = true

abbrev env : WaitEnv
env = record {
  now = λ i. i + i;
  done_before = λ _. false;
  done_in_pause = λ _. false;
  look = from_second;
  register_fails = λ _. false;
}

second_look : wait_ready 6 env 0 10 ≡ ready_at 1
unfolding wait_ready wait_from
second_look = refl

another_model :
    check_ready {F = ℤ} none
      (bytes "runpod-x")
      (record { base_model = bytes "m"; adapter = [] })
      (reply 200 (some (bytes "n" ∷ [])))
    ≡ (true, proxy_of (bytes "runpod-x"), none)
unfolding check_ready http_models_ok names_model has_part has_prefix str_eq
another_model = refl

wait_ready-Explained_example : Explained env 10 (wait_ready 6 env 0 10)
wait_ready-Explained_example =
    wait_ready-Explained 5 2 env 0 10 (λ j. omega arith) (omega arith) (omega arith)
