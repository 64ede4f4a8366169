-- ===== src/Gateway/Handler/Statuses.antt =====
-- Which status is observed, against the one that is sent.
use forge_labs.Base.{
  Dict, ℤ, ℕ, ◌≤◌, ◌≡◌, refl, arith, false, Option, none, some, List, [], ◌∷◌, is_nil, is_empty,
  Bool-cases, inl, inr, Str, Float,
}
use forge_labs.Reliability.Classify.{Errors}
use forge_labs.Scheduler.Chain.{no_capacity, admission_rejected}
use forge_labs.Gateway.Admission.{SelectedWorker, admit_from_ranked}
use forge_labs.Gateway.Select.{
  SelectError, no_snapshot, model_not_found, no_live_assignee, rank_error, Selected, chosen, failed,
  select_error_status,
}
use forge_labs.Gateway.Stream.{or_stop, usage_or_zero, TokenChunk, Writer, Event}
use forge_labs.Gateway.Dispatch.{Guards, FirstToken, streams, fails, no_healthy_worker, all_nil}
use forge_labs.Reliability.Failover.{DoError}
use forge_labs.Gateway.Collect.{Collection}
use forge_labs.Gateway.Handler.{
  fresh, status_of_error, ChatRequest, Handler, HandlerEnv, Response, error_reply, busy, answer,
  events, panicked, Handled, end_stream, respond_stream, respond_collect, refuse_selection,
}
use forge_labs.Gateway.Handler.Requests.{
  in_slot, with_slot, chat_admitted, chat_selected, chat_ranked, chat_completions,
}

module _ {E : Type 0} where
  -- The status of HTTP that a response has; after a panic it is not the handler that sets it.
  abbrev pub sent : Response E → ℕ
  sent (error_reply s) = s.0
  sent (busy _) = 429
  sent (answer _ _ _) = 200
  sent (events _) = 200
  sent (panicked _) = 200

module _ {F E : Type 0} where
  abbrev IsObserved : Handled F E → Type 0
  IsObserved r = r.observed ≡ some (sent r.response)

  -- The status of the response to a request whose selection failed is an error, and 200 is observed.
  abbrev pub Observed : Selected (List SelectedWorker) → Handled F E → Type 0
  Observed (failed _) r = (400 ≤ sent r.response) × (r.observed ≡ some 200)
  Observed (chosen _) r = r.observed ≡ some (sent r.response)

  in_slot-IsObserved :
      (h : Handler F) (run : Handler F → List SelectedWorker → Handled F E)
      (o : Option (List SelectedWorker × Option (Dict Str ℤ)))
      → ((h' : Handler F) (vs : List SelectedWorker) → IsObserved (run h' vs))
      → IsObserved (in_slot h run o)
  unfolding in_slot
  in_slot-IsObserved h run none ok = refl
  in_slot-IsObserved h run (some (ordered, counters)) ok =
      ok (record h { inflight = counters }) ordered

module _ {E : Type 0} ⦃errors : Errors E⦄ where
  end_stream-observed :
      (e : Option E) (ws : List (Event E)) → (end_stream e ws).1 ≡ some (sent (end_stream e ws).0)
  unfolding end_stream
  end_stream-observed none ws = refl
  end_stream-observed (some e) [] = refl
  end_stream-observed (some e) (w ∷ ws) = refl

module _ {F E : Type 0} ⦃errors : Errors E⦄ where
  respond_stream-IsObserved :
      (stream : Option TokenChunk → List TokenChunk → Option E → Writer E → Option E × Writer E)
      (opening : List (Event E)) (env : HandlerEnv F E) (h : Handler F)
      (r : FirstToken E × Guards F)
      → IsObserved (respond_stream stream opening env h r)
  unfolding respond_stream
  respond_stream-IsObserved stream opening env h (streams w first cs ending, g) =
      end_stream-observed (stream first cs ending (fresh env)).0
        ((stream first cs ending (fresh env)).1).written
  respond_stream-IsObserved stream opening env h (fails e, g) = refl
  respond_stream-IsObserved stream opening env h (no_healthy_worker, g) = refl
  respond_stream-IsObserved stream opening env h (all_nil, g) = refl

  respond_collect-IsObserved :
      (h : Handler F) (c : Collection F E) → IsObserved (respond_collect h c)
  unfolding respond_collect
  respond_collect-IsObserved h c = go c.error
    where
      go :
          (o : Option (DoError E))
          → (elim o [ none ↦ some 200 | some e ↦ some (status_of_error e).0 ])
            ≡ some (
                sent (elim o as (λ _. Response E) [
                  | none ↦ answer c.text (or_stop c.finish) (usage_or_zero c.usage)
                  | some e ↦ error_reply (status_of_error e)
                ]))
      go none = refl
      go (some e) = refl

module _ (F E : Type 0) ⦃errors : Errors E⦄ where
  refuse_selection-Observed :
      (h : Handler F) (e : SelectError)
      → (400 ≤ sent (refuse_selection {F = F} {E = E} h e).response)
        × ((refuse_selection {F = F} {E = E} h e).observed ≡ some 200)
  unfolding refuse_selection select_error_status
  refuse_selection-Observed h no_snapshot = (omega arith, refl)
  refuse_selection-Observed h model_not_found = (omega arith, refl)
  refuse_selection-Observed h no_live_assignee = (omega arith, refl)
  refuse_selection-Observed h (rank_error no_capacity) = (omega arith, refl)
  refuse_selection-Observed h (rank_error admission_rejected) = (omega arith, refl)

module _ {F E : Type 0} ⦃f : Float F⦄ ⦃errors : Errors E⦄ where
  chat_admitted-IsObserved :
      (env : HandlerEnv F E) (req : ChatRequest F) (h : Handler F) (ws : List SelectedWorker)
      → IsObserved (chat_admitted env req h ws)
  unfolding chat_admitted
  chat_admitted-IsObserved env req h ws = elim (Bool-cases req.stream) [
    | inl on ↦ rw on (respond_stream-IsObserved _ _ env h _)
    | inr off ↦ rw off (respond_collect-IsObserved h _)
  ]

  chat_selected-Observed :
      (h : Handler F) (env : HandlerEnv F E) (req : ChatRequest F)
      (ranked : Selected (List SelectedWorker))
      → Observed ranked (chat_selected h env req ranked)
  unfolding chat_selected with_slot
  chat_selected-Observed h env req (failed e) = refuse_selection-Observed F E h e
  chat_selected-Observed h env req (chosen ws) =
      in_slot-IsObserved h (chat_admitted env req)
        (admit_from_ranked h.inflight h.admission_limit ws) (chat_admitted-IsObserved env req)

  -- A chat with a model and messages: if the selection, once repeated after an activation, succeeds,
  -- then the status that the metrics and the audit are told is the one of the response (200 for a
  -- stream, and for a panic); if it fails, the response is an error and they are told 200.
  pub chat_completions-Observed :
      (h : Handler F) (env : HandlerEnv F E) (req : ChatRequest F)
      → is_empty req.model ≡ false
      → is_nil req.messages ≡ false
      → Observed (chat_ranked env req) (chat_completions h env (some req))
  unfolding chat_completions
  chat_completions-Observed h env req m n =
      rw (m, n) (chat_selected-Observed h env req (chat_ranked env req))
