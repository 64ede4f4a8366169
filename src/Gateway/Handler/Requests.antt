-- ===== src/Gateway/Handler/Requests.antt =====
-- services/gateway/handler.go, `chatCompletions` and `completions` from the request to the response.
use forge_labs.Base.{
  Option, none, some, List, [], ◌∷◌, if◌then◌else◌, is_nil, is_empty, ℤ, Dict, Str, Float,
}
use forge_labs.Reliability.Classify.{Errors}
use forge_labs.Gateway.Admission.{SelectedWorker, admit_from_ranked}
use forge_labs.Gateway.Select.{Selected, chosen, failed}
use forge_labs.Gateway.Stream.{chat_role, stream_chat, stream_text}
use forge_labs.Gateway.Translate.{
  Prompt, prompt, bad_prompt, GenerateRequest, messages_to_prompt, prompt_from_completions,
  to_worker_request, max_tokens_from_chat,
}
use forge_labs.Gateway.Dispatch.{Env, stream_first_token}
use forge_labs.Gateway.Collect.{collect_with_failover}
use forge_labs.Gateway.Replies.{retry_after, try_activate}
use forge_labs.Gateway.Handler.{
  ChatRequest, CompletionRequest, Handler, HandlerEnv, error_reply, busy, Handled, invalid_request,
  is_true, release, handled, guards_of, respond_stream, respond_collect, refuse_selection,
}

-- A header that is set replaces the prompt that the request is routed by.
abbrev pub route_prompt : Str → Str → Str
route_prompt affinity text = if is_empty affinity then text else affinity

module _ {F E : Type 0} where
  -- What `streamFirstToken` meets for a request to the workers.
  abbrev pub stream_env : HandlerEnv F E → GenerateRequest F → Env E
  stream_env env gen = record {
    open_at = env.open_at gen;
    allow_now = (env.times).allow_now;
    failure_now = (env.times).failure_now;
  }

  -- What follows `admitFromRanked`, to the deferred `done`: the request is answered, and the slot that
  -- was taken is given back.
  unfoldable pub in_slot :
      Handler F
      → (Handler F → List SelectedWorker → Handled F E)
      → Option (List SelectedWorker × Option (Dict Str ℤ))
      → Handled F E
  in_slot h run none = handled (busy (retry_after h.retry_after_sec)) (some 429) h
  in_slot h run (some (ordered, counters)) =
      let r = run (record h { inflight = counters }) ordered in
      record r { handler = record r.handler { inflight = release ordered (r.handler).inflight } }

  -- From `admitFromRanked` on.
  unfoldable pub with_slot :
      Handler F
      → List SelectedWorker
      → (Handler F → List SelectedWorker → Handled F E)
      → Handled F E
  unfolding in_slot
  with_slot h ws run = in_slot h run (admit_from_ranked h.inflight h.admission_limit ws)

module _ {F E : Type 0} ⦃f : Float F⦄ ⦃errors : Errors E⦄ where
  -- The rest of `chatCompletions` once a slot is taken.
  unfoldable pub chat_admitted :
      HandlerEnv F E → ChatRequest F → Handler F → List SelectedWorker → Handled F E
  chat_admitted env req h ws =
      let gen =
        to_worker_request (f.num 0) req.model (messages_to_prompt req.messages) req.temperature
          req.top_p (max_tokens_from_chat req.max_completion_tokens req.max_tokens) in
      if req.stream
      then respond_stream (stream_chat (is_true req.include_usage)) (chat_role ∷ []) env h
          (stream_first_token (stream_env env gen) ws (guards_of h.failover))
      else respond_collect h (collect_with_failover h.failover env.times (env.open_at gen) ws)

  unfoldable pub chat_selected :
      Handler F → HandlerEnv F E → ChatRequest F → Selected (List SelectedWorker) → Handled F E
  unfolding with_slot chat_admitted
  chat_selected h env req (failed e) = refuse_selection h e
  chat_selected h env req (chosen ws) = with_slot h ws (chat_admitted env req)

  -- The selection, once more if the activation of the model succeeds.
  unfoldable pub chat_ranked : HandlerEnv F E → ChatRequest F → Selected (List SelectedWorker)
  chat_ranked env req =
      let by = route_prompt env.affinity (messages_to_prompt req.messages) in
      elim (env.selects 0 req.model by) [
        | chosen ws ↦ chosen ws
        | failed e ↦ if try_activate env.activation then env.selects 1 req.model by else failed e
      ]

  -- `chatCompletions`; `none` is a body that cannot be bound.
  unfoldable pub chat_completions :
      Handler F → HandlerEnv F E → Option (ChatRequest F) → Handled F E
  unfolding chat_selected chat_ranked
  chat_completions h env none = handled (error_reply invalid_request) none h
  chat_completions h env (some req) =
      if is_empty req.model
      then handled (error_reply invalid_request) none h
      else if is_nil req.messages
      then handled (error_reply invalid_request) none h
      else chat_selected h env req (chat_ranked env req)

  -- The rest of `completions` once a slot is taken.
  unfoldable pub text_admitted :
      HandlerEnv F E → CompletionRequest F → Str → Handler F → List SelectedWorker → Handled F E
  text_admitted env req text h ws =
      let gen =
        to_worker_request (f.num 0) req.model text req.temperature req.top_p req.max_tokens in
      if req.stream
      then respond_stream (stream_text (is_true req.include_usage)) [] env h
          (stream_first_token (stream_env env gen) ws (guards_of h.failover))
      else respond_collect h (collect_with_failover h.failover env.times (env.open_at gen) ws)

  unfoldable pub text_selected :
      Handler F
      → HandlerEnv F E
      → CompletionRequest F
      → Str
      → Selected (List SelectedWorker)
      → Handled F E
  unfolding with_slot text_admitted
  text_selected h env req text (failed e) = refuse_selection h e
  text_selected h env req text (chosen ws) = with_slot h ws (text_admitted env req text)

  -- From the prompt of the request on.
  unfoldable pub text_prompted :
      Handler F → HandlerEnv F E → CompletionRequest F → Prompt → Handled F E
  unfolding text_selected
  text_prompted h env req (bad_prompt _) = handled (error_reply invalid_request) none h
  text_prompted h env req (prompt text) =
      if is_empty text
      then handled (error_reply invalid_request) none h
      else text_selected h env req text (env.selects 0 req.model (route_prompt env.affinity text))

  -- `completions`; `none` is a body that cannot be bound.
  unfoldable pub completions :
      Handler F → HandlerEnv F E → Option (CompletionRequest F) → Handled F E
  unfolding text_prompted
  completions h env none = handled (error_reply invalid_request) none h
  completions h env (some req) =
      if is_empty req.model
      then handled (error_reply invalid_request) none h
      else text_prompted h env req (prompt_from_completions req.prompt_value)
