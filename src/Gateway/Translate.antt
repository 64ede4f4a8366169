-- ===== src/Gateway/Translate.antt =====
-- services/gateway/translate.go. Floats of 32 bits are kept as they are: `F`.
mod Names
mod Tests
use forge_labs.Base.{
  ℕ, zero, suc, ◌-◌, ◌≡◌, refl, Bool, true, false, ◌&&◌, ◌||◌, Option, none, some, List, [], ◌∷◌,
  ◌++◌, if◌then◌else◌, ◌==◌, leb, is_empty, is_some, reverse, cut, ℤ, pos, Str, bytes,
}

-- The bytes of the white space at the beginning of a string, by UTF-8: the spaces of
-- `unicode.IsSpace`.
abbrev is_space_byte : ℕ → Bool
is_space_byte a = (leb 9 a && leb a 13) || a == 32

space_width : List ℕ → ℕ
space_width [] = 0
space_width (a ∷ []) = if is_space_byte a then 1 else 0
space_width (a ∷ b ∷ []) =
    if is_space_byte a then 1 else if a == 0xC2 && (b == 0x85 || b == 0xA0) then 2 else 0
space_width (a ∷ b ∷ c ∷ _) =
    if is_space_byte a
    then 1
    else if a == 0xC2 && (b == 0x85 || b == 0xA0)
    then 2
    else if a == 0xE1 && b == 0x9A && c == 0x80
    then 3
    else if a == 0xE2
        && b == 0x80
        && ((leb 0x80 c && leb c 0x8A) || c == 0xA8 || c == 0xA9 || c == 0xAF)
    then 3
    else if a == 0xE2 && b == 0x81 && c == 0x9F
    then 3
    else if a == 0xE3 && b == 0x80 && c == 0x80
    then 3
    else 0

-- The same at the end, on the reversed bytes.
space_width_back : List ℕ → ℕ
space_width_back [] = 0
space_width_back (a ∷ []) = if is_space_byte a then 1 else 0
space_width_back (b ∷ a ∷ []) =
    if is_space_byte b then 1 else if a == 0xC2 && (b == 0x85 || b == 0xA0) then 2 else 0
space_width_back (c ∷ b ∷ a ∷ _) =
    if is_space_byte c
    then 1
    else if b == 0xC2 && (c == 0x85 || c == 0xA0)
    then 2
    else if a == 0xE1 && b == 0x9A && c == 0x80
    then 3
    else if a == 0xE2
        && b == 0x80
        && ((leb 0x80 c && leb c 0x8A) || c == 0xA8 || c == 0xA9 || c == 0xAF)
    then 3
    else if a == 0xE2 && b == 0x81 && c == 0x9F
    then 3
    else if a == 0xE3 && b == 0x80 && c == 0x80
    then 3
    else 0

-- Drops what a width function finds, with the bytes still to be dropped.
drop_spaces : (List ℕ → ℕ) → ℕ → List ℕ → List ℕ
drop_spaces width n [] = []
drop_spaces width (suc n) (a ∷ s) = drop_spaces width n s
drop_spaces width zero (a ∷ s) =
    let more = drop_spaces width (width (a ∷ s) - 1) s in if width (a ∷ s) == 0 then a ∷ s else more

-- `strings.TrimSpace`
unfoldable pub trim_space : Str → Str
unfolding space_width space_width_back drop_spaces
trim_space s = reverse (drop_spaces space_width_back 0 (reverse (drop_spaces space_width 0 s)))

-- `ParseModelID`
unfoldable pub parse_model_id : Str → Str × Str
parse_model_id id =
    let s = trim_space id in
    if is_empty s
    then ([], [])
    else elim (cut b'#' s) [ none ↦ (s, []) | some (base, adapter) ↦ (base, adapter) ]

pub record ChatMessage : Type 0 where
  pub role : Str
  pub content : Str

-- `messagesToPrompt`
pub messages_to_prompt : List ChatMessage → Str
messages_to_prompt [] = bytes "assistant: "
messages_to_prompt (m ∷ ms) =
    (if is_empty m.role then bytes "user" else m.role)
    ++ (bytes ": " ++ (m.content ++ (10 ∷ messages_to_prompt ms)))

-- A value of `any` that JSON decodes to, as far as `promptFromCompletions` looks: a string, a slice
-- of values, or another.
mutual
  pub data Json : Type 0 where
    text : Str → Json
    array : Items → Json
    other : Json

  pub data Items : Type 0 where
    end : Items
    item : Json → Items → Items

pub data PromptError : Type 0 where
  not_strings not_a_prompt : PromptError

pub data Prompt : Type 0 where
  prompt : Str → Prompt
  bad_prompt : PromptError → Prompt

-- The loop over the items; `none` is an item that is not a string.
parts_of : Items → Option (List Str)
parts_of end = some []
parts_of (item (text s) js) = elim (parts_of js) [ none ↦ none | some ps ↦ some (s ∷ ps) ]
parts_of (item (array _) js) = none
parts_of (item other js) = none

-- `strings.Join(parts, "\n")`
join_lines : List Str → Str
join_lines [] = []
join_lines (p ∷ []) = p
join_lines (p ∷ q ∷ ps) = p ++ (10 ∷ join_lines (q ∷ ps))

-- `promptFromCompletions`
pub prompt_from_completions : Json → Prompt
prompt_from_completions (text s) = prompt s
prompt_from_completions (array js) = elim (parts_of js) [
  | none ↦ bad_prompt not_strings
  | some ps ↦ prompt (join_lines ps)
]
prompt_from_completions other = bad_prompt not_a_prompt

pub record SamplingParams (F : Type 0) : Type 0 where
  pub temperature : F
  pub top_p : F
  pub max_tokens : ℤ

-- The request to a worker; an adapter or sampling parameters that are not set are `none`.
pub record GenerateRequest (F : Type 0) : Type 0 where
  pub base_model : Str
  pub adapter : Option Str
  pub prompt_text : Str
  pub sampling : Option (SamplingParams F)

abbrev or_default {ℓ} : {A : Type ℓ} → A → Option A → A
or_default d none = d
or_default d (some a) = a

-- `toWorkerRequest`, with the zero of the floats.
pub to_worker_request :
    {F : Type 0} → F → Str → Str → Option F → Option F → Option ℤ → GenerateRequest F
to_worker_request zero_float model prompt_bytes temperature top_p max_tokens =
    let (base, adapter) = parse_model_id model in
    record {
      base_model = base;
      adapter = if is_empty adapter then none else some adapter;
      prompt_text = prompt_bytes;
      sampling =
          if is_some temperature || is_some top_p || is_some max_tokens
          then some (record {
            temperature = or_default zero_float temperature;
            top_p = or_default zero_float top_p;
            max_tokens = or_default (pos 0) max_tokens;
          })
          else none;
    }

-- `maxTokensFromChat`, of the two limits of a chat request.
pub max_tokens_from_chat : Option ℤ → Option ℤ → Option ℤ
max_tokens_from_chat none max_tokens = max_tokens
max_tokens_from_chat (some n) max_tokens = some n
