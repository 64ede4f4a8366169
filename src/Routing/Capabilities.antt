-- ===== src/Routing/Capabilities.antt =====
-- services/routing/capabilities.go. What `encoding/json` and `strconv.ParseFloat` read, and the letter
-- case of Unicode, are parameters.
use forge_labs.Base.{
  ℕ, ◌+◌, ◌-◌, ◌*◌, ◌^◌, ◌||◌, Option, none, some, [], ◌∷◌, if◌then◌else◌, ltb, is_empty, has_part,
  Str, bytes, Dict, lookup, str_key, Float,
}

-- What the parser asks of Go's packages: `json.Unmarshal` into a `map[string]string`, `ParseFloat`,
-- `ToLower` and `ToUpper`.
pub record Packages (F : Type 0) : Type 0 where
  pub unmarshal : Str → Option (Dict Str Str)
  pub parse_float : Str → Option F
  pub to_lower : Str → Str
  pub to_upper : Str → Str

pub record CostHint (F : Type 0) : Type 0 where
  pub per_hour_usd : F
  pub class : Str

pub record CapabilityView (F : Type 0) : Type 0 where
  pub runtime : Str
  pub max_context : ℕ  -- uint32
  pub vram_gb : F
  pub gpu : Str
  pub cost : CostHint F
  pub raw : Dict Str Str

-- The digits of a number to the base 10, after those that were read.
unfoldable pub digits_from : ℕ → Str → Option ℕ
digits_from n [] = some n
digits_from n (a ∷ s) =
    let rest = digits_from (n * 10 + (a - 48)) s in if ltb a 48 || ltb 57 a then none else rest

-- `strconv.ParseUint(v, 10, 32)`
unfoldable pub parse_uint32 : Str → Option ℕ
unfolding digits_from
parse_uint32 [] = none
parse_uint32 (a ∷ s) = elim (digits_from 0 (a ∷ s)) [
  | none ↦ none
  | some n ↦ if ltb n (2 ^ 32) then some n else none
]

-- `m[key]`, which is empty for a key that is not there.
abbrev pub value_of : Dict Str Str → Str → Str
value_of m key = elim (lookup key m) [ none ↦ [] | some v ↦ v ]

-- A value that is set, or else another.
abbrev set_or : Str → Str → Str
set_or v old = if is_empty v then old else v

-- A number that is set and can be read, or else another.
abbrev pub read_or : {A : Type 0} → (Str → Option A) → Str → A → A
read_or parse v old = if is_empty v then old else (elim (parse v) [ none ↦ old | some n ↦ n ])

module _ {F : Type 0} (go : Packages F) where
  -- `normalizeRuntime`
  unfoldable pub normalize_runtime : Str → Str
  normalize_runtime kind =
      let k = go.to_upper kind in
      if has_part (bytes "VLLM") k
      then bytes "vllm"
      else if has_part (bytes "OLLAMA") k
      then bytes "ollama"
      else if has_part (bytes "MLX") k
      then bytes "mlx"
      else if has_part (bytes "LLAMACPP") k
      then bytes "llamacpp"
      else if has_part (bytes "FORGE") k
      then bytes "forge"
      else go.to_lower kind

module _ {F : Type 0} ⦃f : Float F⦄ (go : Packages F) where
  unfoldable pub cost_class_of : Dict Str Str → F → Str
  cost_class_of m per_hour =
      let v = value_of m (bytes "cost_class") in
      if is_empty v
      then (if f.lt (f.num 0) per_hour then bytes "paid" else bytes "free")
      else go.to_lower v

  -- What is read from the pairs of the JSON object.
  unfoldable pub capabilities_of : Str → Dict Str Str → CapabilityView F
  unfolding cost_class_of parse_uint32
  capabilities_of runtime m =
      let v = value_of m (bytes "runtime") in
      let per_hour = read_or go.parse_float (value_of m (bytes "cost_per_hour")) (f.num 0) in
      record {
        runtime = if is_empty v then runtime else go.to_lower v;
        max_context = read_or parse_uint32 (value_of m (bytes "max_model_len")) 0;
        vram_gb = read_or go.parse_float (value_of m (bytes "vram_gb")) (f.num 0);
        gpu = set_or (value_of m (bytes "gpu")) [];
        cost = record { per_hour_usd = per_hour; class = cost_class_of m per_hour };
        raw = m;
      }

  -- `ParseCapabilities`
  unfoldable pub parse_capabilities : Str → Str → CapabilityView F
  unfolding capabilities_of normalize_runtime
  parse_capabilities raw kind =
      let nothing : CapabilityView F = record {
        runtime = normalize_runtime go kind;
        max_context = 0;
        vram_gb = f.num 0;
        gpu = [];
        cost = record { per_hour_usd = f.num 0; class = [] };
        raw = [];
      } in
      if is_empty raw then nothing else (elim (go.unmarshal raw) [
        | none ↦ nothing
        | some m ↦ capabilities_of (normalize_runtime go kind) m
      ])
