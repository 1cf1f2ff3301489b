-- ===== src/Config/Validators.antt =====
-- src/tuft/config.py: the validators of `ModelConfig`, which pydantic runs in the order in which
-- they stand, each on what the one before returned; and `AppConfig.check_validity`.
use tu_ft.Base.{
  ℕ, String, Bool, true, false, not, ◌||◌, ◌&&◌, Option, none, some, List, [], ◌∷◌, map, ltb, ◌==◌,
  if◌then◌else◌, is_some, length,
}
use tu_ft.Text.{is_empty}
use tu_ft.Names.{same_set, is_distinct, no_blank, normalized}
use tu_ft.Errors.{Result, ok, err, value_error}
use tu_ft.Config.{
  Capability, training_capability, sampling_capability, has_capability, ModelConfig,
  training_enabled, sampling_enabled, fsdp_qv_target_modules,
}

abbrev pub refuse : String → Result ModelConfig
refuse detail = err (value_error detail)

abbrev keep : Capability → List Capability → List Capability → List Capability
keep c declared rest = if has_capability c declared then c ∷ rest else rest

-- [c for c in ALL_MODEL_CAPABILITIES if c in capabilities]
unfoldable pub canonical : List Capability → List Capability
unfolding has_capability
canonical declared = keep training_capability declared (keep sampling_capability declared [])

unfoldable pub validate_capabilities : ModelConfig → Result ModelConfig
unfolding canonical
validate_capabilities c = elim c.capabilities [
  | [] ↦ refuse "declares no capabilities"
  | d ∷ rest ↦ ok (record c { capabilities = canonical (d ∷ rest) })
]

unfoldable pub validate_colocate : ModelConfig → Result ModelConfig
unfolding training_enabled sampling_enabled
validate_colocate c =
    if c.colocate && not (c.tensor_parallel_size == 1)
    then refuse "Colocate option is only supported for tensor_parallel_size=1."
    else (if c.colocate && ltb 1 c.data_parallel_size
        then refuse "Colocate option is not supported with data_parallel_size > 1."
        else (if c.colocate && not (training_enabled c && sampling_enabled c)
            then refuse "Colocate requires both capabilities"
            else ok c))

-- any(rank < 1 for rank in normalized), any(count < 1 for count in normalized.values()),
-- max_lora_rank in normalized, and whether a rank is above it
unfoldable pub any_rank : (ℕ → Bool) → List (ℕ × ℕ) → Bool
any_rank test [] = false
any_rank test ((rank, count) ∷ rest) = test rank || any_rank test rest

unfoldable pub any_count : (ℕ → Bool) → List (ℕ × ℕ) → Bool
any_count test [] = false
any_count test ((rank, count) ∷ rest) = test count || any_count test rest

-- The checks of `fsdp_rank_slots` that is given.
unfoldable pub check_rank_slots :
    (is_fsdp : Bool) → (max_lora_rank : ℕ) → List (ℕ × ℕ) → Option String
unfolding any_rank any_count
check_rank_slots is_fsdp max_lora_rank [] = some "must contain at least one rank"
check_rank_slots is_fsdp max_lora_rank (x ∷ slots) =
    if any_rank (λ rank. ltb rank 1) (x ∷ slots)
    then some "ranks must be at least 1"
    else (if any_count (λ count. ltb count 1) (x ∷ slots)
        then some "slot counts must be at least 1"
        else (if is_fsdp && not (any_rank (λ rank. rank == max_lora_rank) (x ∷ slots))
            then some "must define at least one slot for max_lora_rank"
            else (if is_fsdp && any_rank (λ rank. ltb max_lora_rank rank) (x ∷ slots)
                then some "contains ranks above max_lora_rank"
                else none)))

unfoldable pub validate_fsdp_rank_slots : ModelConfig → Result ModelConfig
unfolding check_rank_slots
validate_fsdp_rank_slots c =
    if ltb c.max_lora_rank 1
    then refuse "max_lora_rank must be at least 1"
    else elim c.fsdp_rank_slots [
      | none ↦ ok c
      | some slots ↦ elim (check_rank_slots c.is_fsdp c.max_lora_rank slots) [
        | some detail ↦ refuse detail
        | none ↦ ok c
      ]
    ]

-- The names of one side, trimmed, or why they are refused; modules may not be empty.
unfoldable pub check_names : (may_be_empty : Bool) → List String → Option (List String)
unfolding no_blank is_distinct normalized
check_names true [] = some []
check_names false [] = none
check_names may_be_empty (x ∷ xs) =
    if no_blank (x ∷ xs) && is_distinct (normalized (x ∷ xs))
    then some (normalized (x ∷ xs))
    else none

abbrev opt_names : (may_be_empty : Bool) → Option (List String) → Option (Option (List String))
opt_names may_be_empty none = some none
opt_names may_be_empty (some xs) = elim (check_names may_be_empty xs) [
  | none ↦ none
  | some ys ↦ some (some ys)
]

abbrev has_names : Option (List String) → Bool
has_names none = false
has_names (some []) = false
has_names (some (x ∷ xs)) = true

abbrev is_qv : Option (List String) → Bool
is_qv none = false
is_qv (some xs) = same_set xs fsdp_qv_target_modules

-- The part of `validate_fsdp_target_modules` after the names.
unfoldable pub check_qv : ModelConfig → Option String
unfolding same_set
check_qv c =
    if c.fsdp_qv_only && has_names c.fsdp_target_parameters
    then some "fsdp_qv_only conflicts with fsdp_target_parameters"
    else (if c.fsdp_qv_only && not c.is_fsdp
        then some "fsdp_qv_only requires training_backend='fsdp'"
        else (if not c.is_fsdp
            then none
            else (if c.fsdp_qv_only
                then (if is_some c.fsdp_target_modules && not (is_qv c.fsdp_target_modules)
                    then some "fsdp_qv_only conflicts with fsdp_target_modules"
                    else none)
                else (if is_qv c.fsdp_target_modules
                    then some "Q/V-only FSDP geometry requires fsdp_qv_only"
                    else none))))

unfoldable pub validate_fsdp_target_modules : ModelConfig → Result ModelConfig
unfolding check_names check_qv
validate_fsdp_target_modules c = elim (opt_names false c.fsdp_target_modules) [
  | none ↦ refuse "fsdp_target_modules"
  | some modules ↦ elim (opt_names true c.fsdp_target_parameters) [
    | none ↦ refuse "fsdp_target_parameters"
    | some parameters ↦
        let d = record c { fsdp_target_modules = modules; fsdp_target_parameters = parameters } in
        elim (check_qv d) [ some detail ↦ refuse detail | none ↦ ok d ]
  ]
]

unfoldable pub validate_lora_alpha_ratio : ModelConfig → Result ModelConfig
validate_lora_alpha_ratio c =
    if ltb c.lora_alpha_ratio 1 then refuse "lora_alpha_ratio must be >= 1" else ok c

abbrev has_parser : Option String → Bool
has_parser none = false
has_parser (some s) = not (is_empty s)

unfoldable pub validate_tool_calling : ModelConfig → Result ModelConfig
unfolding is_empty
validate_tool_calling c =
    if c.enable_auto_tool_choice && not (has_parser c.tool_call_parser)
    then refuse "enable_auto_tool_choice requires tool_call_parser"
    else ok c

abbrev pub and_then : Result ModelConfig → (ModelConfig → Result ModelConfig) → Result ModelConfig
and_then (err e) f = err e
and_then (ok c) f = f c

-- The validators of a `ModelConfig`.
unfoldable pub validate : ModelConfig → Result ModelConfig
unfolding validate_capabilities validate_colocate validate_fsdp_rank_slots
    validate_fsdp_target_modules validate_lora_alpha_ratio validate_tool_calling
validate c = and_then (validate_capabilities c) (λ c. and_then (validate_colocate c) (λ c.
    and_then (validate_fsdp_rank_slots c) (λ c.
      and_then (validate_fsdp_target_modules c)
        (λ c. and_then (validate_lora_alpha_ratio c) validate_tool_calling))))

unfoldable pub any_colocate : List ModelConfig → Bool
any_colocate [] = false
any_colocate (c ∷ rest) = c.colocate || any_colocate rest

-- AppConfig.check_validity
unfoldable pub check_validity : List ModelConfig → Result (Unit {0})
unfolding is_distinct any_colocate
check_validity [] = err (value_error "At least one supported model must be configured.")
check_validity (c ∷ rest) =
    if not (is_distinct (map model_name (c ∷ rest)))
    then err (value_error "Model names in supported_models must be unique.")
    else (if ltb 1 (length (c ∷ rest)) && any_colocate (c ∷ rest)
        then err (value_error "Colocate option is only allowed with a single supported model.")
        else ok tt)
  where
    model_name : ModelConfig → String
    model_name c = c.model_name
