-- ===== src/Gateway/Handler/Released.antt =====
-- Every slot that a request takes is given back.
use forge_labs.Base.{
  ◌≡◌, refl, Option, none, some, List, is_nil, is_empty, Bool-cases, inl, inr, Str, str_key, Float,
}
use forge_labs.Reliability.Classify.{Errors}
use forge_labs.Gateway.Admission.{SelectedWorker}
use forge_labs.Gateway.Select.{
  SelectError, no_snapshot, model_not_found, no_live_assignee, rank_error, Selected, chosen, failed,
}
use forge_labs.Scheduler.Chain.{no_capacity, admission_rejected}
use forge_labs.Gateway.Stream.{TokenChunk, Writer, Event}
use forge_labs.Gateway.Translate.{Prompt, prompt, bad_prompt, prompt_from_completions}
use forge_labs.Gateway.Dispatch.{Guards, FirstToken, streams, fails, no_healthy_worker, all_nil}
use forge_labs.Gateway.Handler.{
  ChatRequest, CompletionRequest, Handler, HandlerEnv, respond_stream, respond_collect,
  refuse_selection,
}
use forge_labs.Gateway.Handler.Requests.{
  chat_admitted, chat_selected, chat_ranked, chat_completions, text_admitted, text_selected,
  text_prompted, completions,
}
use forge_labs.Gateway.Handler.Slots.{
  IsNonneg, SameCounts, SameCounts-refl, same_of_eq, with_slot-SameCounts,
}

module _ {F : Type 0} (E : Type 0) ⦃errors : Errors E⦄ where
  refuse_selection-inflight :
      (h : Handler F) (e : SelectError)
      → ((refuse_selection {E = E} h e).handler).inflight ≡ h.inflight
  unfolding refuse_selection
  refuse_selection-inflight h no_snapshot = refl
  refuse_selection-inflight h model_not_found = refl
  refuse_selection-inflight h no_live_assignee = refl
  refuse_selection-inflight h (rank_error no_capacity) = refl
  refuse_selection-inflight h (rank_error admission_rejected) = refl

module _ {F E : Type 0} ⦃f : Float F⦄ ⦃errors : Errors E⦄ where
  respond_stream-inflight :
      (stream : Option TokenChunk → List TokenChunk → Option E → Writer E → Option E × Writer E)
      (opening : List (Event E)) (env : HandlerEnv F E) (h : Handler F)
      (r : FirstToken E × Guards F)
      → ((respond_stream stream opening env h r).handler).inflight ≡ h.inflight
  unfolding respond_stream
  respond_stream-inflight stream opening env h (streams w first cs ending, g) = refl
  respond_stream-inflight stream opening env h (fails e, g) = refl
  respond_stream-inflight stream opening env h (no_healthy_worker, g) = refl
  respond_stream-inflight stream opening env h (all_nil, g) = refl

  chat_admitted-inflight :
      (env : HandlerEnv F E) (req : ChatRequest F) (h : Handler F) (ws : List SelectedWorker)
      → ((chat_admitted env req h ws).handler).inflight ≡ h.inflight
  unfolding chat_admitted respond_collect
  chat_admitted-inflight env req h ws = elim (Bool-cases req.stream) [
    | inl on ↦ rw on (respond_stream-inflight _ _ env h _)
    | inr off ↦ rw off refl
  ]

  text_admitted-inflight :
      (env : HandlerEnv F E) (req : CompletionRequest F) (text : Str) (h : Handler F)
      (ws : List SelectedWorker)
      → ((text_admitted env req text h ws).handler).inflight ≡ h.inflight
  unfolding text_admitted respond_collect
  text_admitted-inflight env req text h ws = elim (Bool-cases req.stream) [
    | inl on ↦ rw on (respond_stream-inflight _ _ env h _)
    | inr off ↦ rw off refl
  ]

  chat_selected-SameCounts :
      (h : Handler F) (env : HandlerEnv F E) (req : ChatRequest F)
      (ranked : Selected (List SelectedWorker))
      → IsNonneg h.inflight
      → SameCounts h.inflight ((chat_selected h env req ranked).handler).inflight
  unfolding chat_selected
  chat_selected-SameCounts h env req (failed e) n =
      same_of_eq h.inflight _ (refuse_selection-inflight E h e)
  chat_selected-SameCounts h env req (chosen ws) n =
      with_slot-SameCounts h ws (chat_admitted env req) (chat_admitted-inflight env req) n

  chat_completions-SameCounts :
      (h : Handler F) (env : HandlerEnv F E) (body : Option (ChatRequest F))
      → IsNonneg h.inflight
      → SameCounts h.inflight ((chat_completions h env body).handler).inflight
  unfolding chat_completions
  chat_completions-SameCounts h env none n = SameCounts-refl h.inflight
  chat_completions-SameCounts h env (some req) n = elim (Bool-cases (is_empty req.model)) [
    | inl bad ↦ rw bad (SameCounts-refl h.inflight)
    | inr ok_model ↦ elim (Bool-cases (is_nil req.messages)) [
      | inl bad ↦ rw (ok_model, bad) (SameCounts-refl h.inflight)
      | inr good ↦ rw (ok_model, good) (chat_selected-SameCounts h env req (chat_ranked env req) n)
    ]
  ]

  text_selected-SameCounts :
      (h : Handler F) (env : HandlerEnv F E) (req : CompletionRequest F) (text : Str)
      (ranked : Selected (List SelectedWorker))
      → IsNonneg h.inflight
      → SameCounts h.inflight ((text_selected h env req text ranked).handler).inflight
  unfolding text_selected
  text_selected-SameCounts h env req text (failed e) n =
      same_of_eq h.inflight _ (refuse_selection-inflight E h e)
  text_selected-SameCounts h env req text (chosen ws) n =
      with_slot-SameCounts h ws (text_admitted env req text) (text_admitted-inflight env req text) n

  text_prompted-SameCounts :
      (h : Handler F) (env : HandlerEnv F E) (req : CompletionRequest F) (p : Prompt)
      → IsNonneg h.inflight
      → SameCounts h.inflight ((text_prompted h env req p).handler).inflight
  unfolding text_prompted
  text_prompted-SameCounts h env req (bad_prompt e) n = SameCounts-refl h.inflight
  text_prompted-SameCounts h env req (prompt text) n = elim (Bool-cases (is_empty text)) [
    | inl bad ↦ rw bad (SameCounts-refl h.inflight)
    | inr good ↦ rw good (text_selected-SameCounts h env req text _ n)
  ]

  completions-SameCounts :
      (h : Handler F) (env : HandlerEnv F E) (body : Option (CompletionRequest F))
      → IsNonneg h.inflight
      → SameCounts h.inflight ((completions h env body).handler).inflight
  unfolding completions
  completions-SameCounts h env none n = SameCounts-refl h.inflight
  completions-SameCounts h env (some req) n = elim (Bool-cases (is_empty req.model)) [
    | inl bad ↦ rw bad (SameCounts-refl h.inflight)
    | inr good ↦
        rw good (text_prompted-SameCounts h env req (prompt_from_completions req.prompt_value) n)
  ]

  -- If no counter of requests in flight is negative, then a chat and a completion leave the count of
  -- every worker as it was, whatever the body, the selector, the activator, the workers, the breakers and
  -- the client answer: the slot that is taken is given back on every path, also if the handler panics.
  pub requests-SameCounts :
      (h : Handler F) (env : HandlerEnv F E)
      → IsNonneg h.inflight
      → ((body : Option (ChatRequest F))
          → SameCounts h.inflight ((chat_completions h env body).handler).inflight)
        × ((body : Option (CompletionRequest F))
            → SameCounts h.inflight ((completions h env body).handler).inflight)
  requests-SameCounts h env n = (
    λ body. chat_completions-SameCounts h env body n,
    λ body. completions-SameCounts h env body n,
  )
