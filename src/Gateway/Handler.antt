-- ===== src/Gateway/Handler.antt =====
-- services/gateway/handler.go: `chatCompletions` and `completions`. What the selector, the activator and
-- the workers answer are parameters. A response is what is written to the client; IDs, times, messages
-- and metrics are left out, but for the status that the metrics and the audit record are told.
pub mod Requests
mod Slots
mod Released
mod Statuses
mod Tests
use forge_labs.Base.{
  ℕ, Bool, true, false, Option, none, some, List, [], ◌∷◌, if◌then◌else◌, is_nil, is_empty, ℤ, pos,
  leb_ℤ, Str, bytes, Dict, Float,
}
use forge_labs.Routing.Inflight.{dec}
use forge_labs.Scheduler.Chain.{admission_rejected}
use forge_labs.Reliability.Classify.{Errors}
use forge_labs.Reliability.Failover.{DoError, call_error, Failover}
use forge_labs.Gateway.Admission.{SelectedWorker, admit_from_ranked}
use forge_labs.Gateway.Select.{
  SelectError, rank_error, Selected, chosen, failed, select_error_status,
}
use forge_labs.Gateway.Stream.{
  TokenChunk, Usage, Writer, Event, chat_role, or_stop, stream_chat, stream_text, usage_or_zero,
}
use forge_labs.Gateway.Translate.{
  ChatMessage, Json, Prompt, prompt, bad_prompt, GenerateRequest, messages_to_prompt,
  prompt_from_completions, to_worker_request, max_tokens_from_chat,
}
use forge_labs.Gateway.Dispatch.{
  Opened, Env, Guards, FirstToken, streams, fails, no_healthy_worker, all_nil, stream_first_token,
}
use forge_labs.Gateway.Collect.{Times, Collection, collect_with_failover}
use forge_labs.Gateway.Replies.{
  Status, internal_error, map_grpc_error, retry_after, Activation, try_activate,
}

pub record ChatRequest (F : Type 0) : Type 0 where
  pub model : Str
  pub messages : List ChatMessage
  pub stream : Bool
  pub include_usage : Option Bool
  pub temperature : Option F
  pub top_p : Option F
  pub max_tokens : Option ℤ
  pub max_completion_tokens : Option ℤ

pub record CompletionRequest (F : Type 0) : Type 0 where
  pub model : Str
  pub prompt_value : Json
  pub stream : Bool
  pub include_usage : Option Bool
  pub temperature : Option F
  pub top_p : Option F
  pub max_tokens : Option ℤ

pub record Handler (F : Type 0) : Type 0 where
  pub inflight : Option (Dict Str ℤ)
  pub failover : Option (Failover F)
  pub admission_limit : ℤ
  pub retry_after_sec : ℤ

-- What one request meets: the answers of the selector to the first and to the second call, those of the
-- activator, the streams that opening gives, by the request and the position, the times, what the
-- writes to the client answer, and the header `X-Session-Affinity`.
pub record HandlerEnv (F E : Type 0) : Type 0 where
  pub selects : ℕ → Str → Str → Selected (List SelectedWorker)
  pub activation : Activation
  pub open_at : GenerateRequest F → ℕ → SelectedWorker → Opened E
  pub times : Times
  pub write_fails : ℕ → Option E
  pub affinity : Str

-- What the client gets: an error, the error that the fleet is full, with the seconds to wait, an answer
-- with its text, reason and usage, a stream of events, the latest first, or the events before a panic.
pub data Response (E : Type 0) : Type 0 where
  error_reply : Status → Response E
  busy : ℤ → Response E
  answer : Str → Str → Usage → Response E
  events : List (Event E) → Response E
  panicked : List (Event E) → Response E

-- The end of a request. `observed` is the status that the metrics and the audit are told, if they are,
-- and `latency_of` the worker whose latency is observed.
pub record Handled (F E : Type 0) : Type 0 where
  pub response : Response E
  pub observed : Option ℕ
  pub latency_of : Option Str
  pub handler : Handler F

abbrev pub invalid_request : Status
invalid_request = (400, bytes "invalid_request_error", bytes "invalid_request")

abbrev pub is_true : Option Bool → Bool
is_true none = false
is_true (some b) = b

-- The worker of `observeLatency`, if it observes.
abbrev pub latency_worker : Option SelectedWorker → Option Str
latency_worker none = none
latency_worker (some w) = if is_empty w.id then none else some w.id

-- `done`: the slot of the first worker of the list is given back.
abbrev pub release : List SelectedWorker → Option (Dict Str ℤ) → Option (Dict Str ℤ)
release ws none = none
release [] (some m) = some m
release (w ∷ ws) (some m) = some (dec m w.id)

module _ {F : Type 0} where
  -- The failover with the breakers and the budget as the stream leaves them.
  abbrev pub guards_of : Option (Failover F) → Guards F
  guards_of none = record { budget = none; breaker = none }
  guards_of (some fo) = record { budget = fo.budget; breaker = fo.breaker }

  abbrev pub with_guards : Guards F → Handler F → Handler F
  with_guards g h = record h {
    failover = elim h.failover [
      | none ↦ none
      | some fo ↦ some (record fo { budget = g.budget; breaker = g.breaker })
    ];
  }

module _ {F E : Type 0} where
  abbrev pub handled : Response E → Option ℕ → Handler F → Handled F E
  handled response observed h = record {
    response = response;
    observed = observed;
    latency_of = none;
    handler = h;
  }

  -- A writer that has written nothing.
  abbrev pub fresh : HandlerEnv F E → Writer E
  fresh env = record { written = []; answer = env.write_fails }

module _ {E : Type 0} ⦃errors : Errors E⦄ where
  -- What the handler does after the stream has ended, with its error and what was written: an error
  -- is answered if nothing was.
  unfoldable pub end_stream : Option E → List (Event E) → Response E × Option ℕ
  end_stream none ws = (events ws, some 200)
  end_stream (some e) [] = (error_reply (map_grpc_error e), some (map_grpc_error e).0)
  end_stream (some e) (w ∷ ws) = (events (w ∷ ws), some 200)

  abbrev pub status_of_error : DoError E → Status
  status_of_error (call_error e) = map_grpc_error e
  status_of_error _ = internal_error

module _ {F E : Type 0} ⦃errors : Errors E⦄ where
  -- The branch of a request that streams, of a chat or of a completion: `opening` are the events that
  -- are written before the stream is first read. To read from the nil stream panics, and so does
  -- calling the nil closer, if a write failed before.
  unfoldable pub respond_stream :
      (Option TokenChunk → List TokenChunk → Option E → Writer E → Option E × Writer E)
      → List (Event E)
      → HandlerEnv F E
      → Handler F
      → FirstToken E × Guards F
      → Handled F E
  unfolding end_stream
  respond_stream stream opening env h (streams w first cs ending, g) =
      let (e, writer) = stream first cs ending (fresh env) in
      let (response, observed) = end_stream e writer.written in
      record {
        response = response;
        observed = observed;
        latency_of = latency_worker (some w);
        handler = with_guards g h;
      }
  respond_stream stream opening env h (fails e, g) =
      handled (error_reply (map_grpc_error e)) (some (map_grpc_error e).0) (with_guards g h)
  respond_stream stream opening env h (no_healthy_worker, g) =
      handled (error_reply internal_error) (some 500) (with_guards g h)
  respond_stream stream opening env h (all_nil, g) =
      handled (panicked opening) (some 200) (with_guards g h)

  -- The branch of a request that does not stream.
  unfoldable pub respond_collect : Handler F → Collection F E → Handled F E
  respond_collect h c = record {
    response = elim c.error [
      | none ↦ answer c.text (or_stop c.finish) (usage_or_zero c.usage)
      | some e ↦ error_reply (status_of_error e)
    ];
    observed = elim c.error [ none ↦ some 200 | some e ↦ some (status_of_error e).0 ];
    latency_of = latency_worker c.used;
    handler = record h { failover = c.failover };
  }

  -- Both handlers after the selection failed. The status that is set shadows the one that is observed.
  unfoldable pub refuse_selection : Handler F → SelectError → Handled F E
  refuse_selection h (rank_error admission_rejected) =
      handled (busy (retry_after h.retry_after_sec)) (some 200) h
  refuse_selection h e = handled (error_reply (select_error_status e)) (some 200) h
