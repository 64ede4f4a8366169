-- ===== src/Provider/Found.antt =====
-- The endpoint of a provider's view leads to that provider's backend.
use forge_labs.Base.{
  ◌≡◌, refl, ◌∙◌, true, false, some, List, [], ◌∷◌, ◌++◌, All, has_prefix, Str, str_eq, Dict,
  lookup, insert, str_key, lookup-insert, lookup-insert_self, Float,
}
use forge_labs.Provider.{
  Provider, ModelMap, OpenAiConfig, VirtualWorker, Registry, endpoint_scheme, maps_of, backend_of,
  virtual_worker, workers_from, virtual_workers, backends_from, reload_providers,
  backend_by_endpoint, virtual_view,
}

All-append : {A : Type 0} (P : A → Type 0) (xs ys : List A) → All P xs → All P ys → All P (xs ++ ys)
All-append P [] ys h k = k
All-append P (x ∷ xs) ys (p, h) k = (p, All-append P xs ys h k)

module _ {F : Type 0} where
  -- No two providers have one ID, which is their primary key.
  abbrev pub DistinctIds : List (Provider F) → Type 0
  DistinctIds [] = Unit
  DistinctIds (p ∷ ps) = All (λ q. str_eq q.id p.id ≡ false) ps × DistinctIds ps

  backend-at :
      (r : Registry F) (id : Str)
      → backend_by_endpoint r (endpoint_scheme ++ id) ≡ lookup id r.by_id
  unfolding backend_by_endpoint has_prefix
  backend-at r id = refl

module _ {F : Type 0} ⦃f : Float F⦄ (resolve_key : Str → Str) (maps : List ModelMap) where
  -- Later providers with other IDs do not change what is found.
  kept-backend :
      (id : Str) (ps : List (Provider F)) (d : Dict Str OpenAiConfig)
      → All (λ q. str_eq q.id id ≡ false) ps
      → lookup id (backends_from resolve_key maps d ps) ≡ lookup id d
  unfolding backends_from
  kept-backend id [] d t = refl
  kept-backend id (p ∷ ps) d (e, t) =
      kept-backend id ps (insert p.id (backend_of resolve_key maps p) d) t
      ∙ lookup-insert p.id id (backend_of resolve_key maps p) d
      ∙ rw e refl

  -- A worker whose endpoint leads to its backend, among these.
  abbrev IsFound : Dict Str OpenAiConfig → VirtualWorker F → Type 0
  IsFound by_id w =
      backend_by_endpoint {F = F} (record { has_db = true; workers = []; by_id = by_id }) w.endpoint
      ≡ some w.backend

  workers_from-IsFound :
      (by_id : Dict Str OpenAiConfig) (p : Provider F) (ms : List ModelMap)
      → lookup p.id by_id ≡ some (backend_of resolve_key maps p)
      → All (IsFound by_id) (workers_from resolve_key maps p ms)
  unfolding workers_from virtual_worker
  workers_from-IsFound by_id p [] h = tt
  workers_from-IsFound by_id p (m ∷ ms) h = (
    backend-at (record { has_db = true; workers = []; by_id = by_id }) p.id ∙ h,
    workers_from-IsFound by_id p ms h,
  )

  virtual_workers-IsFound :
      (ps : List (Provider F)) (d : Dict Str OpenAiConfig)
      → DistinctIds ps
      → All (IsFound (backends_from resolve_key maps d ps)) (virtual_workers resolve_key maps ps)
  unfolding virtual_workers backends_from
  virtual_workers-IsFound [] d t = tt
  virtual_workers-IsFound (p ∷ ps) d (e, t) =
      let d' = insert p.id (backend_of resolve_key maps p) d in
      All-append (IsFound (backends_from resolve_key maps d' ps))
        (workers_from resolve_key maps p (maps_of p.id maps)) (virtual_workers resolve_key maps ps)
        (workers_from-IsFound (backends_from resolve_key maps d' ps) p (maps_of p.id maps)
          (kept-backend p.id ps d' e ∙ lookup-insert_self p.id (backend_of resolve_key maps p) d))
        (virtual_workers-IsFound ps d' t)

  -- After the database has answered with providers of different IDs and with their models, the endpoint
  -- of the view of every worker leads to the worker's own backend.
  pub reload_providers-found :
      (print_cost : F → Str) (ps : List (Provider F)) (r : Registry F)
      → r.has_db ≡ true
      → DistinctIds ps
      → let r' = (reload_providers resolve_key (some ps) (some maps) r).0 in
        All
          (λ w. backend_by_endpoint r' (virtual_view print_cost w).endpoint ≡ some w.backend)
          r'.workers
  unfolding reload_providers virtual_view backend_by_endpoint
  reload_providers-found print_cost ps r db t = rw db (virtual_workers-IsFound ps [] t)
