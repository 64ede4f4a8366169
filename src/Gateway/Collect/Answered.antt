-- ===== src/Gateway/Collect/Answered.antt =====
-- What is returned, against the calls that were made to open a stream.
use forge_labs.Base.{
  ℕ, ◌≡◌, refl, ◌∙◌, inl, inr, Option, none, some, List, [], ◌∷◌, map, Str, Dict, Float,
}
use mathlib.Core.Option
use forge_labs.Reliability.Classify.{Errors}
use forge_labs.Reliability.Failover.{
  Worker, DoError, no_workers, no_healthy_worker, call_error, Failover, Run, do_,
}
use forge_labs.Reliability.Failover.Outcomes.{Honest, do_-Honest}
use forge_labs.Gateway.Admission.{SelectedWorker}
use forge_labs.Gateway.Stream.{Usage, Collected, collect_error, collected}
use forge_labs.Gateway.Dispatch.{Opened}
use forge_labs.Gateway.Collect.{
  Times, Collection, by_id, worker_of, candidate_of, collect_worker, error_of, collection_of,
  calls_of, after_do, collect_with_failover,
}

-- A call that `Do` made, of the worker that its ID stands for.
abbrev named : Dict Str SelectedWorker → ℕ × Worker → ℕ × SelectedWorker
named d (i, v) = (i, worker_of d v.id)

module _ {F E : Type 0} ⦃f : Float F⦄ ⦃errors : Errors E⦄ where
  -- The workers whose streams were to be opened, with their positions, the latest first.
  unfoldable pub opened_from :
      Option (Failover F)
      → Times
      → (ℕ → SelectedWorker → Opened E)
      → List SelectedWorker
      → List (ℕ × SelectedWorker)
  opened_from fo times open_at [] = []
  opened_from none times open_at (w ∷ ws) = (0, w) ∷ []
  opened_from (some fo) times open_at (w ∷ ws) =
      let d = by_id (w ∷ ws) [] in
      map (named d) (do_ fo (calls_of times open_at d) (map candidate_of (w ∷ ws))).2.calls

module _ {E : Type 0} where
  -- What is returned beside the calls, the latest first. Without an error: after a call, what the
  -- latest one collected and its worker; without any call, nothing, and the worker of the empty ID.
  -- An error of a worker: the latest call met it. Another error: there was no call.
  abbrev pub IsSent :
      (ℕ → SelectedWorker → Opened E)
      → Dict Str SelectedWorker
      → List (ℕ × SelectedWorker)
      → Str
      → Option Usage
      → Str
      → Option SelectedWorker
      → Option (DoError E)
      → Type 0
  IsSent open_at d [] text usage finish used none =
      (used ≡ some (worker_of d [])) × (text ≡ []) × (usage ≡ none) × (finish ≡ [])
  IsSent open_at d ((i, w) ∷ _) text usage finish used none =
      (used ≡ some w) × (collect_worker (open_at i w) ≡ collected text usage finish)
  IsSent open_at d [] text usage finish used (some (call_error _)) = ⊥
  IsSent open_at d ((i, w) ∷ _) text usage finish used (some (call_error e)) =
      collect_worker (open_at i w) ≡ collect_error e
  IsSent open_at d [] text usage finish used (some _) = used ≡ none
  IsSent open_at d (_ ∷ _) text usage finish used (some _) = ⊥

  -- An error that a call answered.
  failed-Sent :
      (open_at : ℕ → SelectedWorker → Opened E) (i : ℕ) (w : SelectedWorker) (e : E)
      (o : Collected E)
      → collect_worker (open_at i w) ≡ o
      → error_of o ≡ some e
      → collect_worker (open_at i w) ≡ collect_error e
  failed-Sent open_at i w e (collect_error e') h n = h ∙ cc
  failed-Sent open_at i w e (collected text usage finish) h n = absurd (cc)

module _ {F E : Type 0} where
  abbrev pub Sent :
      (ℕ → SelectedWorker → Opened E)
      → Dict Str SelectedWorker
      → List (ℕ × SelectedWorker)
      → Collection F E
      → Type 0
  Sent open_at d calls c = IsSent open_at d calls c.text c.usage c.finish c.used c.error

  -- The latest call, which answered nil.
  called-Sent :
      (open_at : ℕ → SelectedWorker → Opened E) (d : Dict Str SelectedWorker)
      (fo : Option (Failover F)) (i : ℕ) (w : SelectedWorker) (rest : List (ℕ × SelectedWorker))
      (o : Collected E)
      → collect_worker (open_at i w) ≡ o
      → error_of o ≡ none
      → Sent open_at d ((i, w) ∷ rest) (collection_of (some w) none fo o)
  called-Sent open_at d fo i w rest (collect_error e) h n = absurd (cc)
  called-Sent open_at d fo i w rest (collected text usage finish) h n = (refl, h)

module _ (F : Type 0) {E : Type 0} where
  -- Without a failover.
  direct-Sent :
      (open_at : ℕ → SelectedWorker → Opened E) (d : Dict Str SelectedWorker) (w : SelectedWorker)
      (o : Collected E)
      → collect_worker (open_at 0 w) ≡ o
      → Sent open_at d
          ((0, w) ∷ [])
          (collection_of {F = F} (some w) (Option.map call_error (error_of o)) none o)
  direct-Sent open_at d w (collect_error e) h = h
  direct-Sent open_at d w (collected text usage finish) h = (refl, h)

module _ {F E : Type 0} ⦃f : Float F⦄ ⦃errors : Errors E⦄ where
  after_do-Sent :
      (times : Times) (open_at : ℕ → SelectedWorker → Opened E) (d : Dict Str SelectedWorker)
      (fo : Failover F) (used : Worker) (e : Option (DoError E)) (r : Run F)
      → Honest (calls_of times open_at d) (used, e, r)
      → Sent open_at d (map (named d) r.calls) (after_do open_at d fo (used, e, r))
  unfolding after_do
  after_do-Sent times open_at d fo used none r (inl (i, rest, calls, nil)) =
      rw (calls, after_do)
        (called-Sent open_at d _ i (worker_of d used.id) (map (named d) rest)
          (collect_worker (open_at i (worker_of d used.id))) refl nil)
  after_do-Sent times open_at d fo used none r (inr (calls, no_one)) =
      rw (calls, no_one, after_do) (refl, refl, refl, refl)
  after_do-Sent times open_at d fo used (some (call_error e)) r (w, (i, rest, calls, answer)) =
      rw calls (
        failed-Sent open_at i (worker_of d w.id) e (collect_worker (open_at i (worker_of d w.id)))
          refl answer)
  after_do-Sent times open_at d fo used (some no_workers) r (calls, _) = rw calls refl
  after_do-Sent times open_at d fo used (some no_healthy_worker) r (calls, _) = rw calls refl

  -- What `collectWithFailover` returns is decided by the calls that `Do` makes to open a stream.
  -- Without an error, the text, the usage and the reason are exactly what `collect` gives for the
  -- stream of the latest call, and the worker is the one of that call; if no call was made, all
  -- three are empty and the worker is the one of the empty ID. An error of a worker is the one that
  -- `collect` gives for the latest call. Any other error comes with no call and no worker.
  pub collect_with_failover-Sent :
      (fo : Option (Failover F)) (times : Times) (open_at : ℕ → SelectedWorker → Opened E)
      (ws : List SelectedWorker)
      → Sent open_at
          (by_id ws [])
          (opened_from fo times open_at ws)
          (collect_with_failover fo times open_at ws)
  unfolding collect_with_failover opened_from
  collect_with_failover-Sent fo times open_at [] = refl
  collect_with_failover-Sent none times open_at (w ∷ ws) =
      direct-Sent F open_at (by_id (w ∷ ws) []) w (collect_worker (open_at 0 w)) refl
  collect_with_failover-Sent (some fo) times open_at (w ∷ ws) =
      let d = by_id (w ∷ ws) [] in
      let env = calls_of times open_at d in
      let (used, e, r) = do_ fo env (map candidate_of (w ∷ ws)) in
      after_do-Sent times open_at d fo used e r (do_-Honest fo env (map candidate_of (w ∷ ws)))
