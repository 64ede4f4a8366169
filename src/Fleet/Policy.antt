-- ===== src/Fleet/Policy.antt =====
-- services/fleet/policy.go. The database is a parameter: what a query answers is an argument, and
-- `none` is its error. `UpdatedAt` is left out.
use forge_labs.Base.{
  Bool, true, false, Option, none, some, List, [], ◌∷◌, if◌then◌else◌, pos, Str, Dict, lookup,
  insert, str_key, Float,
}
use forge_labs.Routing.Snapshot.{full_name}
use forge_labs.Fleet.Hysteresis.{ScalingPolicy}

pub record ModelIdentity : Type 0 where
  pub base_model : Str
  pub adapter : Str

-- `Key`
abbrev pub identity_key : ModelIdentity → Str
identity_key m = full_name m.base_model m.adapter

pub record PolicyCache (F : Type 0) : Type 0 where
  pub has_db : Bool
  pub by : Dict Str (ScalingPolicy F)

abbrev pub policy_key : {F : Type 0} → ScalingPolicy F → Str
policy_key p = identity_key (record { base_model = p.base_model; adapter = p.adapter })

module _ {F : Type 0} ⦃f : Float F⦄ where
  abbrev pub default_policy : ModelIdentity → ScalingPolicy F
  default_policy id = record {
    base_model = id.base_model;
    adapter = id.adapter;
    min_replicas = pos 0;
    max_replicas = pos 3;
    target_concurrency = pos 16;
    scale_up_utilization = f.div (f.num 70) (f.num 100);
    scale_down_delay_seconds = pos 900;
    stabilization_window_seconds = pos 60;
  }

  -- `Get`
  unfoldable pub policy_of : PolicyCache F → ModelIdentity → ScalingPolicy F
  policy_of c id = elim (lookup (identity_key id) c.by) [ none ↦ default_policy id | some p ↦ p ]

module _ {F : Type 0} where
  -- The loop of `Reload` over the rows.
  pub rows_by_key : Dict Str (ScalingPolicy F) → List (ScalingPolicy F) → Dict Str (ScalingPolicy F)
  rows_by_key next [] = next
  rows_by_key next (r ∷ rs) = rows_by_key (insert (policy_key r) r next) rs

  -- `Reload`, with what `Find` answers.
  unfoldable pub reload : PolicyCache F → Option (List (ScalingPolicy F)) → PolicyCache F
  unfolding rows_by_key
  reload c none = c
  reload c (some rows) = if c.has_db then record c { by = rows_by_key [] rows } else c

  -- `Upsert`, with what `FirstOrCreate` leaves in the row; whether there was no error.
  pub upsert : PolicyCache F → ScalingPolicy F → Option (ScalingPolicy F) → PolicyCache F × Bool
  upsert c p saved =
      if c.has_db
      then (elim saved [
        | none ↦ (c, false)
        | some q ↦ (record c { by = insert (policy_key q) q c.by }, true)
      ])
      else (record c { by = insert (policy_key p) p c.by }, true)
