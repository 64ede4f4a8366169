-- ===== src/Scheduler/Types.antt =====
-- services/scheduler/interfaces.go.
use forge_labs.Base.{ℕ, Bool, Option, List, ℤ, Str, Dict}

pub record Candidate (F : Type 0) : Type 0 where
  pub worker_id : Str
  pub endpoint : Str
  pub queue_depth : ℤ
  pub healthy : Bool
  pub ready : Bool
  pub ewma_latency_ms : F
  pub models : List Str
  pub max_context : ℕ  -- uint32
  pub cost_per_hour : F
  pub cost_class : Str
  pub runtime : Str
  pub vram_gb : F
  pub gpu : Str
  pub capabilities : Dict Str Str

pub record Request : Type 0 where
  pub base_model : Str
  pub adapter : Str
  pub prompt : Str
  pub affinity_key : Str
  pub preferred_worker : Str
  pub min_context : ℕ  -- uint32

-- A filter has a name and the candidates that it keeps. A request may be nil.
pub record Filter (F : Type 0) : Type 0 where
  pub name : Str
  pub filter : Option Request → List (Candidate F) → List (Candidate F)

-- A scorer with its weight. `prepare` is the method `Prepare`, which may write to the request, and
-- what `Score` answers from then on, given the request and a candidate; a scorer without `Prepare`
-- leaves the request as it is.
pub record WeightedScorer (F : Type 0) : Type 0 where
  pub weight : F
  pub prepare :
      Option Request → List (Candidate F) → Option Request × (Option Request → Candidate F → F)
