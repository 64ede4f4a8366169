-- ===== src/Gateway/Stream.antt =====
-- services/gateway/handler.go: what the stream of a worker becomes, as events that are written one by
-- one and as one answer. A stream is the chunks that `Recv` gives until it ends, by EOF or by an
-- error. What all chunks of an answer have in common (ID, time, model) is left out, and so are metrics.
mod Agrees
pub mod Tests
use forge_labs.Base.{
  ℕ, ◌+◌, ◌%◌, ◌^◌, Bool, true, false, Option, none, some, List, [], ◌∷◌, ◌++◌, length,
  if◌then◌else◌, is_empty, Str, bytes,
}

-- An int32 is its bits, as a number below `2 ^ 32`.
pub record Usage : Type 0 where
  pub prompt_tokens : ℕ
  pub completion_tokens : ℕ
  pub total_tokens : ℕ

pub record UsageMessage : Type 0 where
  pub prompt_tokens : ℕ
  pub completion_tokens : ℕ

pub record TokenChunk : Type 0 where
  pub text : Str
  pub done : Bool
  pub finish_reason : Str
  pub usage : Option UsageMessage

-- What is written: the chunks of a chat, those of a completion, and what both have.
pub data Event (E : Type 0) : Type 0 where
  chat_role : Event E
  chat_text chat_stop plain_text plain_stop : Str → Event E
  chat_usage plain_usage : Usage → Event E
  sse_error : E → Event E
  sse_done : Event E

-- The events that were written, the latest first, and what each write answers, by its number.
pub record Writer (E : Type 0) : Type 0 where
  pub written : List (Event E)
  pub answer : ℕ → Option E

-- `finishReason` and `finalUsage`.
pub record Tail : Type 0 where
  pub finish : Str
  pub usage : Option Usage

abbrev pub no_tail : Tail
no_tail = record { finish = []; usage = none }

abbrev pub or_stop : Str → Str
or_stop reason = if is_empty reason then bytes "stop" else reason

abbrev pub usage_of : UsageMessage → Usage
usage_of u = record {
  prompt_tokens = u.prompt_tokens;
  completion_tokens = u.completion_tokens;
  total_tokens = (u.prompt_tokens + u.completion_tokens) % 2 ^ 32;
}

abbrev pub usage_after : Option UsageMessage → Option Usage → Option Usage
usage_after none u = u
usage_after (some m) u = some (usage_of m)

-- What `handle` does with a chunk that is done.
abbrev pub note_done : TokenChunk → Tail → Tail
note_done c t =
    if c.done
    then record { finish = or_stop c.finish_reason; usage = usage_after c.usage t.usage }
    else t

-- How the loop over the stream ends: a write fails, the stream fails, or EOF.
pub data Received (E : Type 0) : Type 0 where
  stopped : E → Writer E → Received E
  broken : Writer E → Received E
  received : Tail → Writer E → Received E

-- What `collect` returns.
pub data Collected (E : Type 0) : Type 0 where
  collect_error : E → Collected E
  collected : Str → Option Usage → Str → Collected E

module _ {E : Type 0} where
  -- `writeSSEData`, `writeSSEError` and `writeSSEDone`.
  abbrev pub write : Event E → Writer E → Option E × Writer E
  write e w = (w.answer (length w.written), record w { written = e ∷ w.written })

  abbrev pub write_text : (Str → Event E) → Str → Writer E → Option E × Writer E
  write_text message [] w = (none, w)
  write_text message (a ∷ s) w = write (message (a ∷ s)) w

  -- `if err := ...; err != nil { return worker, err }`
  abbrev pub and_then : Option E × Writer E → (Writer E → Option E × Writer E) → Option E × Writer E
  and_then (some e, w) next = (some e, w)
  and_then (none, w) next = next w

  -- `handle`: the error, if a write fails.
  unfoldable pub handle :
      (Str → Event E) → Option TokenChunk → Tail → Writer E → Option E × Tail × Writer E
  handle message none t w = (none, t, w)
  handle message (some c) t w =
      let (e, w') = write_text message c.text w in
      elim e [ none ↦ (none, note_done c t, w') | some e' ↦ (some e', t, w') ]

  -- The loop over the stream.
  unfoldable pub receive :
      (Str → Event E) → List TokenChunk → Option E → Tail → Writer E → Received E
  unfolding handle
  receive message [] none t w = received t w
  receive message [] (some e) t w = let (_, w') = write (sse_error e) w in broken w'
  receive message (c ∷ cs) ending t w =
      let (e, t', w') = handle message (some c) t w in
      elim e [ none ↦ receive message cs ending t' w' | some e' ↦ stopped e' w' ]

  -- The usage, if it is asked for and there is one, and the end.
  unfoldable pub write_usage : (Usage → Event E) → Option Usage → Writer E → Option E × Writer E
  write_usage message none w = write sse_done w
  write_usage message (some u) w = and_then (write (message u) w) (write sse_done)

  -- What is written after the loop. A stream that fails is reported by an event, not by an error.
  unfoldable pub write_end :
      (Str → Event E) → (Usage → Event E) → Bool → Received E → Option E × Writer E
  unfolding write_usage
  write_end stop message include (stopped e w) = (some e, w)
  write_end stop message include (broken w) = (none, w)
  write_end stop message include (received t w) =
      and_then (write (stop (or_stop t.finish)) w)
        (write_usage message (if include then t.usage else none))

  -- From the first chunk on.
  unfoldable pub stream_chunks :
      (Str → Event E)
      → (Str → Event E)
      → (Usage → Event E)
      → Bool
      → Option TokenChunk
      → List TokenChunk
      → Option E
      → Writer E
      → Option E × Writer E
  unfolding handle receive write_end
  stream_chunks text stop usage include first cs ending w =
      let (e, t, w') = handle text first no_tail w in
      elim e [
        | none ↦ write_end stop usage include (receive text cs ending t w')
        | some e' ↦ (some e', w')
      ]

  -- `streamChatFailover` after `streamFirstToken` gave a stream, and perhaps its first chunk.
  unfoldable pub stream_chat :
      Bool → Option TokenChunk → List TokenChunk → Option E → Writer E → Option E × Writer E
  unfolding stream_chunks
  stream_chat include first cs ending w =
      and_then (write chat_role w)
        (stream_chunks chat_text chat_stop chat_usage include first cs ending)

  -- `streamTextFailover`, likewise.
  unfoldable pub stream_text :
      Bool → Option TokenChunk → List TokenChunk → Option E → Writer E → Option E × Writer E
  unfolding stream_chunks
  stream_text include first cs ending w =
      stream_chunks plain_text plain_stop plain_usage include first cs ending w

  -- The loop of `collect`.
  unfoldable pub collect_from : List TokenChunk → Option E → Str → Option Usage → Str → Collected E
  collect_from [] (some e) text u finish = collect_error e
  collect_from [] none text u finish = collected text u finish
  collect_from (c ∷ cs) ending text u finish =
      collect_from cs ending (text ++ c.text) (if c.done then usage_after c.usage u else u)
        (if c.done then c.finish_reason else finish)

  -- `collect`, once the stream is open.
  unfoldable pub collect : List TokenChunk → Option E → Collected E
  unfolding collect_from
  collect cs ending = collect_from cs ending [] none []

-- `usageOrZero`
unfoldable pub usage_or_zero : Option Usage → Usage
usage_or_zero none = record { prompt_tokens = 0; completion_tokens = 0; total_tokens = 0 }
usage_or_zero (some u) = u
