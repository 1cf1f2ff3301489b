-- ===== src/Config.antt =====
-- src/tuft/config.py: the configuration of a model, and the validators that pydantic runs on it, in
-- their order. Of the fields, those are here that a validator or a controller reads; integers that
-- a validator wants to be positive are natural numbers.
pub mod Validators
pub mod Accepted
pub mod Slots
use tu_ft.Base.{
  ℕ, ◌*◌, String, Bool, true, false, ◌||◌, Option, none, some, List, [], ◌∷◌, str_eq, if◌then◌else◌,
}

pub data Capability : Type 0 where
  training_capability : Capability
  sampling_capability : Capability

abbrev pub same_capability : Capability → Capability → Bool
same_capability training_capability training_capability = true
same_capability sampling_capability sampling_capability = true
same_capability _ _ = false

pub record ModelConfig : Type 0 where
  pub model_name : String
  pub model_path : String
  pub capabilities : List Capability
  pub tensor_parallel_size : ℕ
  pub data_parallel_size : ℕ
  pub max_lora_rank : ℕ
  pub lora_alpha_ratio : ℕ
  -- whether `training_backend` is "fsdp"
  pub is_fsdp : Bool
  pub fsdp_rank_slots : Option (List (ℕ × ℕ))
  pub fsdp_qv_only : Bool
  pub fsdp_target_modules : Option (List String)
  pub fsdp_target_parameters : Option (List String)
  pub fsdp_train_attn : Bool
  pub fsdp_train_mlp : Bool
  pub fsdp_train_unembed : Bool
  pub qwen_gated_deltanet_full_lora : Bool
  pub colocate : Bool
  pub enable_auto_tool_choice : Bool
  pub tool_call_parser : Option String

-- `c in capabilities`
unfoldable pub has_capability : Capability → List Capability → Bool
has_capability c [] = false
has_capability c (d ∷ rest) = same_capability c d || has_capability c rest

unfoldable pub training_enabled : ModelConfig → Bool
unfolding has_capability
training_enabled c = has_capability training_capability c.capabilities

unfoldable pub sampling_enabled : ModelConfig → Bool
unfolding has_capability
sampling_enabled c = has_capability sampling_capability c.capabilities

unfoldable pub compute_lora_alpha : (rank lora_alpha_ratio : ℕ) → ℕ
compute_lora_alpha rank lora_alpha_ratio = rank * lora_alpha_ratio

-- AppConfig.get_model_config
unfoldable pub get_model_config : List ModelConfig → String → Option ModelConfig
get_model_config [] model_name = none
get_model_config (c ∷ rest) model_name =
    if str_eq c.model_name model_name then some c else get_model_config rest model_name

-- FSDP_QV_TARGET_MODULES
abbrev pub fsdp_qv_target_modules : List String
fsdp_qv_target_modules = "q_proj" ∷ "v_proj" ∷ []
