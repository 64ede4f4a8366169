-- ===== src/Gateway/Stream/Tests.antt =====
-- Two chunks, the last of which is done, and the theorem on them.
use forge_labs.Base.{◌≡◌, refl, true, false, none, some, [], ◌∷◌, Str, bytes}
use forge_labs.Gateway.Stream.{
  TokenChunk, chat_role, chat_text, chat_stop, chat_usage, plain_text, plain_stop, plain_usage,
  Collected, collected, stream_chat, stream_text, collect, collect_from,
}
use forge_labs.Gateway.Stream.Agrees.{working, Streams, stream_chat-Streams}

abbrev pub hello : TokenChunk
hello = record { text = bytes "hel"; done = false; finish_reason = []; usage = none }

abbrev pub last_chunk : TokenChunk
last_chunk = record {
  text = bytes "lo";
  done = true;
  finish_reason = [];
  usage = some (record { prompt_tokens = 3; completion_tokens = 2 });
}

collect-chunks : ◌≡◌ {A = Collected Str} (collect (hello ∷ last_chunk ∷ []) none) (
    collected
      (bytes "hello")
      (some (record { prompt_tokens = 3; completion_tokens = 2; total_tokens = 5 }))
      [])
unfolding collect collect_from
collect-chunks = refl

stream_chat-Streams_example :
    Streams {E = Str} chat_text chat_stop chat_usage true
      (hello ∷ last_chunk ∷ [])
      (stream_chat true (some hello) (last_chunk ∷ []) none (working []))
      (chat_role ∷ [])
    × Streams {E = Str} plain_text plain_stop plain_usage true
        (hello ∷ last_chunk ∷ [])
        (stream_text true (some hello) (last_chunk ∷ []) none (working []))
        []
stream_chat-Streams_example = stream_chat-Streams true hello (last_chunk ∷ []) []
