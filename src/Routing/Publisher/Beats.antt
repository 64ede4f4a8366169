-- ===== src/Routing/Publisher/Beats.antt =====
-- The heartbeats of the health service, as the publisher finds them.
use forge_labs.Base.{
  ◌≡◌, refl, arith, Option, none, some, [], ◌∷◌, if◌then◌else◌, ap, ◌∙◌, Str, str_eq, Dict, str_key,
  lookup, insert, lookup-insert, lookup_same, Distinct,
}
use forge_labs.Health.{Heartbeat, all_beats}
use forge_labs.Health.Keyed.{IsKeyed}
use forge_labs.Routing.Publisher.{add_beats, beats_by_id}

module _ {F : Type 0} where
  abbrev or_else : Option (Heartbeat F) → Option (Heartbeat F) → Option (Heartbeat F)
  or_else none o = o
  or_else (some hb) o = some hb

  lookup-add_beats :
      (id : Str) (held : Dict Str (Heartbeat F)) (d : Dict Str (Heartbeat F))
      → IsKeyed held
      → Distinct held
      → lookup id (add_beats d (all_beats held)) ≡ or_else (lookup id held) (lookup id d)
  unfolding add_beats all_beats lookup
  lookup-add_beats id [] d t u = refl
  lookup-add_beats id ((k, hb) ∷ held) d (e, t) (n, u) =
      lookup-add_beats id held (insert hb.id hb d) t u
      ∙ ap (or_else (lookup id held))
          (lookup-insert hb.id id hb d ∙ ap (λ j. if str_eq j id then some hb else lookup id d) e)
      ∙ ground (arith, lookup_same k id held, n)

  -- A map under its own keys is found again.
  pub lookup-beats_by_id :
      (id : Str) (held : Dict Str (Heartbeat F))
      → IsKeyed held
      → Distinct held
      → lookup id (beats_by_id (some held)) ≡ lookup id held
  unfolding beats_by_id lookup
  lookup-beats_by_id id held t u = lookup-add_beats id held [] t u ∙ ground arith
