-- ===== src/Routing/Snapshot.antt =====
-- services/routing/snapshot.go.
use forge_labs.Base.{ℕ, Bool, List, ◌++◌, is_empty, if◌then◌else◌, ℤ, Str, bytes, Dict}

pub record WorkerView (F : Type 0) : Type 0 where
  pub id : Str
  pub endpoint : Str
  pub base_model : Str
  pub adapter : Str
  pub healthy : Bool
  pub ready : Bool
  pub queue_depth : ℤ
  pub in_flight : ℤ
  pub max_context : ℕ  -- uint32
  pub cost_per_hour : F
  pub cost_class : Str
  pub runtime : Str
  pub vram_gb : F
  pub gpu : Str
  pub capabilities : Dict Str Str

-- `BuiltAt` is a time, in nanoseconds.
pub record RoutingSnapshot (F : Type 0) : Type 0 where
  pub built_at : ℕ
  pub epoch : ℕ  -- uint64
  pub workers : List (WorkerView F)

-- `base`, or `base#adapter`: the name that `ModelID`, the scheduler and the gateway build.
abbrev pub full_name : Str → Str → Str
full_name base adapter = if is_empty adapter then base else base ++ bytes "#" ++ adapter

pub model_id : {F : Type 0} → WorkerView F → Str
model_id w = full_name w.base_model w.adapter
