-- ===== src/Gateway/Handler/Tests.antt =====
-- A chat that one worker answers, one whose model is not known, and the theorems on them.
use forge_labs.Base.{
  ◌≡◌, refl, arith, true, false, Option, none, some, [], ◌∷◌, if◌then◌else◌, ℤ, pos, leb_ℤ, Str,
  bytes, str_eq, lookup,
}
use forge_labs.Fixed.{fixed}
use forge_labs.Reliability.Samples.{code_errors}
use forge_labs.Reliability.Classify.{Code}
use forge_labs.Routing.Inflight.{get}
use forge_labs.Gateway.Select.{chosen, failed, model_not_found}
use forge_labs.Gateway.Stream.{usage_or_zero, collect, collect_from}
use forge_labs.Gateway.Stream.Tests.{hello, last_chunk}
use forge_labs.Gateway.Dispatch.{opened}
use forge_labs.Gateway.Collect.{collect_worker, collect_with_failover}
use forge_labs.Gateway.Replies.{try_activate}
use forge_labs.Gateway.Handler.{
  ChatRequest, CompletionRequest, Handler, HandlerEnv, answer, respond_collect,
}
use forge_labs.Gateway.Handler.Requests.{
  chat_completions, completions, chat_ranked, chat_selected, chat_admitted, with_slot, in_slot,
}
use forge_labs.Gateway.Handler.Slots.{SameCounts}
use forge_labs.Gateway.Handler.Released.{requests-SameCounts}
use forge_labs.Gateway.Handler.Statuses.{Observed, chat_completions-Observed}
use forge_labs.Gateway.Admission.{admit_from_ranked}

abbrev handler : Handler ℤ
handler = record {
  inflight = none;
  failover = none;
  admission_limit = pos 4;
  retry_after_sec = pos 2;
}

abbrev counting : Handler ℤ
counting = record handler { inflight = some ((bytes "a", pos 2) ∷ []) }

abbrev env : HandlerEnv ℤ (Option Code)
env = record {
  selects = λ _ model _.
      if str_eq model (bytes "m")
      then chosen (record { id = bytes "a"; endpoint = []; models = model ∷ [] } ∷ [])
      else failed model_not_found;
  activation = record { needs_activation = false; activates = false; deadline = 0; looks = [] };
  open_at = λ _ _ _. opened (hello ∷ last_chunk ∷ []) none;
  times = record { order_now = λ i. i; allow_now = λ i. i; failure_now = λ i. i };
  write_fails = λ _. none;
  affinity = [];
}

abbrev chat : Str → ChatRequest ℤ
chat model = record {
  model = model;
  messages = record { role = bytes "user"; content = bytes "hi" } ∷ [];
  stream = false;
  include_usage = none;
  temperature = none;
  top_p = none;
  max_tokens = none;
  max_completion_tokens = none;
}

said_hello :
    (chat_completions handler env (some (chat (bytes "m")))).response
    ≡ answer
        (bytes "hello")
        (bytes "stop")
        (record { prompt_tokens = 3; completion_tokens = 2; total_tokens = 5 })
unfolding chat_completions chat_selected chat_ranked chat_admitted with_slot in_slot
    admit_from_ranked respond_collect collect_with_failover collect_worker collect collect_from
    usage_or_zero try_activate str_eq
said_hello = refl

counting-IsNonneg : (id : Str) → leb_ℤ (pos 0) (get ((bytes "a", pos 2) ∷ []) id) ≡ true
unfolding get lookup
counting-IsNonneg id = ground arith

requests-SameCounts_example :
    ((body : Option (ChatRequest ℤ))
      → SameCounts counting.inflight ((chat_completions counting env body).handler).inflight)
    × ((body : Option (CompletionRequest ℤ))
        → SameCounts counting.inflight ((completions counting env body).handler).inflight)
requests-SameCounts_example = requests-SameCounts counting env counting-IsNonneg

chat_completions-Observed_example :
    Observed
      (chat_ranked env (chat (bytes "x")))
      (chat_completions handler env (some (chat (bytes "x"))))
chat_completions-Observed_example =
    chat_completions-Observed handler env (chat (bytes "x")) refl refl
