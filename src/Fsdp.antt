-- ===== src/Fsdp.antt =====
-- src/tuft/backends/fsdp_training_backend.py: what the backend takes from the configuration, and the
-- checks of a request and of a checkpoint against it. `model` is what
-- `resolve_model_series_and_architecture` gives for the path of the model.
pub mod Startup
pub mod Shards
pub mod Worker
pub mod Pool
use tu_ft.Base.{
  ℕ, String, Bool, true, false, not, ◌||◌, ◌&&◌, Option, none, some, List, [], ◌∷◌, ◌==◌, leb,
  if◌then◌else◌, is_some,
}
use tu_ft.Dict.{Dict}
use tu_ft.Names.{same_set}
use tu_ft.Errors.{invalid_request, value_error, Result, ok, err}
use tu_ft.Config.{ModelConfig, fsdp_qv_target_modules}
use tu_ft.Lora.{
  LoraConfig, LoraTargets, resolve_lora_targets, get_lora_targets, has_targets,
  achievable_lora_target_sets,
}
use tu_ft.Lora.Family.{Series, Architecture}
use tu_ft.Checkpoints.{Directory, CheckpointRecord}
use tu_ft.Checkpoints.Geometry.{saved_target_modules, saved_target_parameters}

abbrev pub Model : Type 0
Model = Option Series × Option Architecture

-- _get_rank_slots_from_config; a rank twice in the literal keeps the later count
unfoldable pub default_rank_slots : (max_rank : ℕ) → List (ℕ × ℕ)
default_rank_slots max_rank =
    if leb max_rank 8 then (max_rank, 16) ∷ [] else (8, 16) ∷ (max_rank, 8) ∷ []

unfoldable pub get_rank_slots_from_config : ModelConfig → List (ℕ × ℕ)
unfolding default_rank_slots
get_rank_slots_from_config c = elim c.fsdp_rank_slots [
  | none ↦ default_rank_slots c.max_lora_rank
  | some raw ↦ elim raw [ [] ↦ default_rank_slots c.max_lora_rank | r ∷ rest ↦ r ∷ rest ]
]

-- What the flags of the configuration resolve to.
unfoldable pub resolve_config : Model → ModelConfig → Option LoraTargets
unfolding resolve_lora_targets
resolve_config model c =
    resolve_lora_targets model c.fsdp_train_attn c.fsdp_train_mlp c.fsdp_train_unembed
      c.qwen_gated_deltanet_full_lora

-- The modules, and the parameters, of `_get_target_geometry_from_config`. What is resolved is read
-- only where a side is not explicit.
abbrev pub geometry_modules : Option LoraTargets → Option (List String) → Option (List String)
geometry_modules resolved (some modules) = some modules
geometry_modules (some t) none = some t.modules
geometry_modules none none = none

abbrev pub geometry_parameters : Option LoraTargets → Option (List String) → List String
geometry_parameters resolved (some parameters) = parameters
geometry_parameters (some t) none = t.parameters
geometry_parameters none none = []

-- _get_target_geometry_from_config
unfoldable pub get_target_geometry_from_config : Model → ModelConfig → Result LoraTargets
unfolding resolve_config has_targets
get_target_geometry_from_config model c =
    if c.fsdp_qv_only
    then ok (record { modules = fsdp_qv_target_modules; parameters = [] })
    else elim (geometry_modules (resolve_config model c) c.fsdp_target_modules) [
      | none ↦ err (value_error "Cannot infer FSDP LoRA target modules")
      | some modules ↦
          let t : LoraTargets = record {
            modules = modules;
            parameters = geometry_parameters (resolve_config model c) c.fsdp_target_parameters;
          } in
          if has_targets t
          then ok t
          else err (value_error "FSDP LoRA slot geometry resolved to no targets")
    ]

-- Equal as sets, on both sides.
unfoldable pub same_geometry : LoraTargets → LoraTargets → Bool
unfolding same_set
same_geometry a b = same_set a.modules b.modules && same_set a.parameters b.parameters

unfoldable pub any_same : LoraTargets → List LoraTargets → Bool
unfolding same_geometry
any_same t [] = false
any_same t (u ∷ us) = same_geometry t u || any_same t us

-- _validate_explicit_target_modules
unfoldable pub validate_explicit_target_modules : Model → ModelConfig → Result (Unit {0})
unfolding achievable_lora_target_sets get_target_geometry_from_config any_same
validate_explicit_target_modules model c =
    if c.fsdp_qv_only || not (is_some c.fsdp_target_modules || is_some c.fsdp_target_parameters)
    then ok tt
    else elim (achievable_lora_target_sets model c.qwen_gated_deltanet_full_lora) [
      | none ↦ ok tt
      | some achievable ↦ elim (get_target_geometry_from_config model c) [
        | err e ↦ err e
        | ok t ↦
            if any_same t achievable
            then ok tt
            else err (value_error "cannot be requested by any client")
      ]
    ]

pub record SlotPoolConfig : Type 0 where
  pub rank_slots : List (ℕ × ℕ)
  pub lora_alpha_ratio : ℕ
  pub targets : LoraTargets

-- The construction of the backend, as far as it reads the configuration: the slots of the pool.
unfoldable pub start : Model → ModelConfig → Result SlotPoolConfig
unfolding get_target_geometry_from_config get_rank_slots_from_config
    validate_explicit_target_modules
start model c = elim (get_target_geometry_from_config model c) [
  | err e ↦ err e
  | ok t ↦ elim (validate_explicit_target_modules model c) [
    | err e ↦ err e
    | ok u ↦ ok (record {
      rank_slots = get_rank_slots_from_config c;
      lora_alpha_ratio = c.lora_alpha_ratio;
      targets = t;
    })
  ]
]

-- _validate_lora_config
unfoldable pub validate_lora_config :
    Model → ModelConfig → SlotPoolConfig → LoraConfig → Result (Unit {0})
unfolding get_lora_targets same_geometry
validate_lora_config model c slots lora_config =
    if c.fsdp_qv_only
    then ok tt
    else elim (get_lora_targets model lora_config c.qwen_gated_deltanet_full_lora) [
      | none ↦
          if is_some c.fsdp_target_modules
          then ok tt
          else err (invalid_request "Cannot resolve target modules")
      | some requested ↦
          if same_geometry requested slots.targets
          then ok tt
          else err (invalid_request "FSDP LoRA target mismatch")
    ]

-- _validate_checkpoint_geometry
unfoldable pub validate_checkpoint_geometry :
    {W : Type 0}
    → SlotPoolConfig
    → Dict (Directory W)
    → CheckpointRecord
    → Result (List String × List String)
unfolding saved_target_modules saved_target_parameters same_set
validate_checkpoint_geometry slots disk r = elim (saved_target_modules disk r) [
  | none ↦ err (invalid_request "no supported explicit target_modules list")
  | some modules ↦
      if same_set modules slots.targets.modules
      then elim (saved_target_parameters disk r) [
        | none ↦ err (invalid_request "no valid target_parameters list")
        | some parameters ↦
            if same_set parameters slots.targets.parameters
            then ok (modules, parameters)
            else err (invalid_request "targeting parameters")
      ]
      else err (invalid_request "targeting modules")
]
