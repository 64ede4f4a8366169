-- ===== src/Gateway/Stream/Agrees.antt =====
-- The events of a stream against the answer that is collected from the same stream.
use forge_labs.Base.{
  ◌≡◌, refl, sym, ap, ◌∙◌, arith, Bool, true, false, Option, none, some, List, [], ◌∷◌, ◌++◌,
  if◌then◌else◌, Str,
}
use mathlib.Core.List.{append-nil, append_assoc}
use forge_labs.Gateway.Stream.{
  Usage, TokenChunk, Event, chat_role, chat_text, chat_stop, chat_usage, plain_text, plain_stop,
  plain_usage, sse_done, Writer, Tail, no_tail, or_stop, usage_after, note_done, received,
  Collected, collected, stopped, write_text, handle, receive, write_usage, write_end, stream_chunks,
  stream_chat, stream_text, collect_from, collect,
}

-- The texts in one.
abbrev pub join : List Str → Str
join [] = []
join (s ∷ ss) = s ++ join ss

-- The text of a chunk, if it has one.
abbrev said : Str → List Str
said [] = []
said (a ∷ s) = (a ∷ s) ∷ []

join-said : (s : Str) (ss : List Str) → join (said s ++ ss) ≡ s ++ join ss
join-said [] ss = refl
join-said (a ∷ s) ss = refl

or_stop_twice : (s : Str) → or_stop (or_stop s) ≡ or_stop s
or_stop_twice [] = refl
or_stop_twice (a ∷ s) = refl

-- The usage and the reason after a chunk.
usage-note_done :
    (c : TokenChunk) (t : Tail)
    → (note_done c t).usage ≡ (if c.done then usage_after c.usage t.usage else t.usage)
usage-note_done c t = ground arith

finish-note_done :
    (c : TokenChunk) (t : Tail) (finish : Str)
    → or_stop t.finish ≡ or_stop finish
    → or_stop (note_done c t).finish ≡ or_stop (if c.done then c.finish_reason else finish)
finish-note_done c t finish h = go c.done
  where
    go :
        (b : Bool)
        → or_stop
            (if b
              then record { finish = or_stop c.finish_reason; usage = usage_after c.usage t.usage }
              else t).finish
          ≡ or_stop (if b then c.finish_reason else finish)
    go true = or_stop_twice c.finish_reason
    go false = h

module _ {E : Type 0} where
  -- A writer whose writes do not fail.
  abbrev pub working : List (Event E) → Writer E
  working ws = record { written = ws; answer = λ _. none }

  -- The events before, and then one for every text.
  abbrev pub sent : (Str → Event E) → List Str → List (Event E) → List (Event E)
  sent message [] ws = ws
  sent message (s ∷ ss) ws = sent message ss (message s ∷ ws)

  -- The events before, then the usage if it is asked for and there is one, and the end.
  abbrev pub ended : (Usage → Event E) → Bool → Option Usage → List (Event E) → List (Event E)
  ended message include u ws = elim (if include then u else none) [
    | none ↦ sse_done ∷ ws
    | some v ↦ sse_done ∷ message v ∷ ws
  ]

  sent-said :
      (message : Str → Event E) (s : Str) (ss : List Str) (ws : List (Event E))
      → sent message (said s ++ ss) ws ≡ sent message ss (sent message (said s) ws)
  sent-said message [] ss ws = refl
  sent-said message (a ∷ s) ss ws = refl

  write_text-working :
      (message : Str → Event E) (s : Str) (ws : List (Event E))
      → write_text message s (working ws) ≡ (none, working (sent message (said s) ws))
  write_text-working message [] ws = refl
  write_text-working message (a ∷ s) ws = refl

  handle-working :
      (message : Str → Event E) (c : TokenChunk) (t : Tail) (ws : List (Event E))
      → handle message (some c) t (working ws)
        ≡ (none, note_done c t, working (sent message (said c.text) ws))
  unfolding handle
  handle-working message c t ws =
      ap (λ p. (elim p.0 [ none ↦ (none, note_done c t, p.1) | some e ↦ (some e, t, p.1) ]))
        (write_text-working message c.text ws)

  receive_cons :
      (message : Str → Event E) (c : TokenChunk) (cs : List TokenChunk) (t : Tail)
      (ws : List (Event E))
      → receive message (c ∷ cs) none t (working ws)
        ≡ receive message cs none (note_done c t) (working (sent message (said c.text) ws))
  unfolding receive
  receive_cons message c cs t ws =
      ap (λ p. elim p.0 [ none ↦ receive message cs none p.1 p.2 | some e ↦ stopped e p.2 ])
        (handle-working message c t ws)

  -- The loop over a stream that ends in EOF, and the loop of `collect` over the same chunks.
  abbrev Joint : (Str → Event E) → List TokenChunk → Tail → List (Event E) → Str → Str → Type 0
  Joint message cs t ws text finish =
      (texts : List Str) × (t' : Tail) × (finish' : Str) × (receive message cs none t (working ws)
        ≡ received t' (working (sent message texts ws)))
      × ◌≡◌ {A = Collected E} (collect_from cs none text t.usage finish)
          (collected (text ++ join texts) t'.usage finish')
      × (or_stop t'.finish ≡ or_stop finish')

  joint :
      (message : Str → Event E) (cs : List TokenChunk) (t : Tail) (ws : List (Event E))
      (text finish : Str)
      → or_stop t.finish ≡ or_stop finish
      → Joint message cs t ws text finish
  unfolding receive collect_from
  joint message [] t ws text finish h =
      ([], t, finish, refl, ap (λ s. collected s t.usage finish) (sym (append-nil text)), h)
  joint message (c ∷ cs) t ws text finish h =
      let (texts, t', finish', r, k, e) =
        joint message cs (note_done c t) (sent message (said c.text) ws) (text ++ c.text)
          (if c.done then c.finish_reason else finish) (finish-note_done c t finish h) in
      (
        said c.text ++ texts,
        t',
        finish',
        receive_cons message c cs t ws
            ∙ r
            ∙ ap (λ l. received t' (working l)) (sym (sent-said message c.text texts ws)),
        ap
              (λ u.
                collect_from cs none (text ++ c.text) u
                  (if c.done then c.finish_reason else finish))
              (sym (usage-note_done c t))
            ∙ k
            ∙ ap (λ s. collected s t'.usage finish')
                (append_assoc text c.text (join texts)
                  ∙ ap (λ s. text ++ s) (sym (join-said c.text texts))),
        e,
      )

  write_usage-working :
      (message : Usage → Event E) (include : Bool) (u : Option Usage) (ws : List (Event E))
      → write_usage message (if include then u else none) (working ws)
        ≡ (none, working (ended message include u ws))
  unfolding write_usage
  write_usage-working message include u ws = go (if include then u else none)
    where
      go :
          (o : Option Usage)
          → write_usage message o (working ws)
            ≡ (none, working (elim o [ none ↦ sse_done ∷ ws | some v ↦ sse_done ∷ message v ∷ ws ]))
      go none = refl
      go (some v) = refl

  -- The texts of the chunks, and the answer that is collected.
  abbrev pub Streams :
      (Str → Event E)
      → (Str → Event E)
      → (Usage → Event E)
      → Bool
      → List TokenChunk
      → Option E × Writer E
      → List (Event E)
      → Type 0
  Streams text stop usage include cs result ws =
      (texts : List Str) × (reason : Str) × (u : Option Usage) × ◌≡◌ {A = Collected E}
        (collect cs none) (collected (join texts) u reason)
      × (result
          ≡ (none, working (ended usage include u (stop (or_stop reason) ∷ sent text texts ws))))

  stream_chunks-Streams :
      (text stop : Str → Event E) (usage : Usage → Event E) (include : Bool) (c : TokenChunk)
      (cs : List TokenChunk) (ws : List (Event E))
      → Streams text stop usage include
          (c ∷ cs)
          (stream_chunks text stop usage include (some c) cs none (working ws))
          ws
  unfolding stream_chunks write_end collect
  stream_chunks-Streams text stop usage include c cs ws =
      let (texts, t', reason, r, k, e) = joint text (c ∷ cs) no_tail ws [] [] refl in
      (
        texts,
        reason,
        t'.usage,
        k,
        ap
              (λ p. elim p.0 [
                | none ↦ write_end stop usage include (receive text cs none p.1 p.2)
                | some e' ↦ (some e', p.2)
              ])
              (handle-working text c no_tail ws)
            ∙ (ap (write_end stop usage include) (sym (receive_cons text c cs no_tail ws) ∙ r)
                ∙ write_usage-working usage include t'.usage
                    (stop (or_stop t'.finish) ∷ sent text texts ws)
                ∙ ap
                    (λ s.
                      (none, working (ended usage include t'.usage (stop s ∷ sent text texts ws))))
                    e),
      )

  -- If there is a first chunk, the stream ends in EOF and no write fails, then a chat and a
  -- completion are written out completely and without an error: the texts that are written make up
  -- the text that `collect` returns for the same chunks, the stop chunk names the reason it returns,
  -- or "stop" if that is empty, and the usage it returns follows only if it is asked for and there
  -- is one. A chat begins with the role.
  pub stream_chat-Streams :
      (include : Bool) (c : TokenChunk) (cs : List TokenChunk) (ws : List (Event E))
      → Streams chat_text chat_stop chat_usage include
          (c ∷ cs)
          (stream_chat include (some c) cs none (working ws))
          (chat_role ∷ ws)
        × Streams plain_text plain_stop plain_usage include
            (c ∷ cs)
            (stream_text include (some c) cs none (working ws))
            ws
  unfolding stream_chat stream_text
  stream_chat-Streams include c cs ws = (
    stream_chunks-Streams chat_text chat_stop chat_usage include c cs (chat_role ∷ ws),
    stream_chunks-Streams plain_text plain_stop plain_usage include c cs ws,
  )
