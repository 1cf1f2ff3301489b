-- ===== src/Lora.antt =====
-- src/tuft/backends/lora_modules.py: from the flags of a client to the names that PEFT is to wrap.
pub mod Family
pub mod Achievable
pub mod Unmatched
use tu_ft.Base.{
  ℕ, String, Bool, true, false, not, ◌||◌, ◌&&◌, Option, none, some, List, [], ◌∷◌, ◌++◌, str_eq,
  if◌then◌else◌,
}
use tu_ft.Dict.{elem}
use tu_ft.Names.{all_in}
use tu_ft.Lora.Family.{Series, llama, qwen, Architecture, qwen3_5, qwen3_5_moe}

-- types.LoraConfig
pub record LoraConfig : Type 0 where
  pub rank : ℕ
  pub train_attn : Bool
  pub train_mlp : Bool
  pub train_unembed : Bool

pub record LoraTargets : Type 0 where
  pub modules : List String
  pub parameters : List String

-- MODULE_MAP
unfoldable pub attn_modules : Series → List String
attn_modules s = "q_proj" ∷ "k_proj" ∷ "v_proj" ∷ "o_proj" ∷ []

unfoldable pub mlp_modules : Series → List String
mlp_modules s = "gate_proj" ∷ "up_proj" ∷ "down_proj" ∷ []

unfoldable pub unembed_modules : Series → List String
unembed_modules llama = "lm_head" ∷ []
unembed_modules qwen = []

-- QWEN3_5_DEFAULT_GATED_DELTANET_TARGET_MODULES, QWEN3_5_GATED_DELTANET_TARGET_MODULES and
-- QWEN3_5_MOE_EXPERT_TARGET_PARAMETERS
abbrev pub default_deltanet_modules : List String
default_deltanet_modules =
    "linear_attn.in_proj_qkv" ∷ "linear_attn.in_proj_z" ∷ "linear_attn.out_proj" ∷ []

abbrev pub deltanet_modules : List String
deltanet_modules =
    "linear_attn.in_proj_qkv" ∷ "linear_attn.in_proj_z" ∷ "linear_attn.in_proj_b"
    ∷ "linear_attn.in_proj_a" ∷ "linear_attn.out_proj" ∷ []

abbrev pub expert_parameters : List String
expert_parameters = "mlp.experts.gate_up_proj" ∷ "mlp.experts.down_proj" ∷ []

-- ARCHITECTURE_MODULE_MAP: what an architecture adds to the attention, and to the MLP
unfoldable pub architecture_modules : Option Architecture → (full : Bool) → List String
architecture_modules none full = []
architecture_modules (some a) full = if full then deltanet_modules else default_deltanet_modules

unfoldable pub architecture_parameters : Option Architecture → List String
architecture_parameters none = []
architecture_parameters (some qwen3_5) = []
architecture_parameters (some qwen3_5_moe) = expert_parameters

abbrev when : Bool → List String → List String
when true xs = xs
when false xs = []

-- _assemble_targets
unfoldable pub assemble_targets :
    Series
    → Option Architecture
    → (train_attn train_mlp train_unembed : Bool) → (full : Bool) → LoraTargets
unfolding attn_modules mlp_modules unembed_modules architecture_modules architecture_parameters
assemble_targets series architecture train_attn train_mlp train_unembed full = record {
  modules =
      when train_attn (attn_modules series ++ architecture_modules architecture full)
      ++ (when train_mlp (mlp_modules series) ++ when train_unembed (unembed_modules series));
  parameters = when train_mlp (architecture_parameters architecture);
}

-- resolve_lora_targets, with what `resolve_model_series_and_architecture` gives; `none` for
-- ValueError
unfoldable pub resolve_lora_targets :
    Option Series × Option Architecture
    → (train_attn train_mlp train_unembed : Bool) → (full : Bool) → Option LoraTargets
unfolding assemble_targets
resolve_lora_targets (none, architecture) attn mlp unembed full = none
resolve_lora_targets (some series, architecture) attn mlp unembed full =
    some (assemble_targets series architecture attn mlp unembed full)

unfoldable pub get_lora_targets :
    Option Series × Option Architecture → LoraConfig → (full : Bool) → Option LoraTargets
unfolding resolve_lora_targets
get_lora_targets model c full =
    resolve_lora_targets model c.train_attn c.train_mlp c.train_unembed full

unfoldable pub same_list : List String → List String → Bool
same_list [] [] = true
same_list (x ∷ xs) (y ∷ ys) = str_eq x y && same_list xs ys
same_list _ _ = false

unfoldable pub same_targets : LoraTargets → LoraTargets → Bool
unfolding same_list
same_targets a b = same_list a.modules b.modules && same_list a.parameters b.parameters

unfoldable is_nil : List String → Bool
is_nil [] = true
is_nil (x ∷ xs) = false

unfoldable pub has_targets : LoraTargets → Bool
unfolding is_nil
has_targets t = not (is_nil t.modules) || not (is_nil t.parameters)

-- `targets in achievable`
unfoldable pub is_listed : LoraTargets → List LoraTargets → Bool
unfolding same_targets
is_listed t [] = false
is_listed t (u ∷ us) = same_targets t u || is_listed t us

-- The flags in the order of the three nested loops.
abbrev pub all_flags : List (Bool × Bool × Bool)
all_flags =
    (true, true, true)
    ∷ (true, true, false)
    ∷ (true, false, true)
    ∷ (true, false, false)
    ∷ (false, true, true)
    ∷ (false, true, false)
    ∷ (false, false, true)
    ∷ (false, false, false)
    ∷ []

-- One round of the innermost loop, and the loops.
unfoldable pub add_achievable : LoraTargets → List LoraTargets → List LoraTargets
unfolding has_targets is_listed
add_achievable t achievable =
    if has_targets t && not (is_listed t achievable) then achievable ++ t ∷ [] else achievable

unfoldable pub collect_achievable :
    Series
    → Option Architecture
    → (full : Bool) → List (Bool × Bool × Bool)
    → List LoraTargets
    → List LoraTargets
unfolding assemble_targets add_achievable
collect_achievable series architecture full [] achievable = achievable
collect_achievable series architecture full ((attn, mlp, unembed) ∷ rest) achievable =
    collect_achievable series architecture full rest
      (add_achievable (assemble_targets series architecture attn mlp unembed full) achievable)

-- achievable_lora_target_sets
unfoldable pub achievable_lora_target_sets :
    Option Series × Option Architecture → (full : Bool) → Option (List LoraTargets)
unfolding collect_achievable
achievable_lora_target_sets (none, architecture) full = none
achievable_lora_target_sets (some series, architecture) full =
    some (collect_achievable series architecture full all_flags [])
