-- ===== src/Checkpoints/Geometry.antt =====
-- src/tuft/checkpoints.py: the adapter geometry that a checkpoint records, and its LoRA alpha.
use tu_ft.Base.{ℕ, String, Option, none, some, List, [], ◌∷◌, ◌==◌, if◌then◌else◌}
use tu_ft.Dict.{Dict}
use tu_ft.Names.{valid_names}
use tu_ft.Errors.{Result, ok, err, checkpoint_incompatible}
use tu_ft.Checkpoints.{
  Directory, CheckpointRecord, CheckpointMetadata, metadata, adapter_file_at, AdapterFile,
  no_adapter, adapter_config, Item, text, no_text, null, number, array,
}

-- The texts of an array of texts.
unfoldable texts : List Item → Option (List String)
texts [] = some []
texts (text s ∷ rest) = elim (texts rest) [ none ↦ none | some ss ↦ some (s ∷ ss) ]
texts (no_text ∷ rest) = none

unfoldable names_of : List Item → Option (List String)
unfolding texts valid_names
names_of a = elim (texts a) [ none ↦ none | some xs ↦ valid_names xs ]

-- read_adapter_target_modules
unfoldable pub read_adapter_target_modules : AdapterFile → Option (List String)
unfolding names_of
read_adapter_target_modules (adapter_config alpha (array []) parameters) = none
read_adapter_target_modules (adapter_config alpha (array (x ∷ xs)) parameters) = names_of (x ∷ xs)
read_adapter_target_modules _ = none

-- read_adapter_target_parameters
unfoldable pub read_adapter_target_parameters : AdapterFile → Option (List String)
unfolding names_of
read_adapter_target_parameters (adapter_config alpha modules null) = some []
read_adapter_target_parameters (adapter_config alpha modules (array xs)) = names_of xs
read_adapter_target_parameters _ = none

unfoldable pub adapter_alpha : AdapterFile → Option ℕ
adapter_alpha (adapter_config (number n) modules parameters) = some n
adapter_alpha _ = none

-- The `target_modules` of metadata.json, as `saved_target_modules` accepts them.
unfoldable metadata_modules : Result CheckpointMetadata → Option (List String)
unfolding valid_names
metadata_modules (err e) = none
metadata_modules (ok m) = elim m.target_modules [
  | none ↦ none
  | some [] ↦ none
  | some (x ∷ xs) ↦ valid_names (x ∷ xs)
]

-- The rest of `saved_target_parameters`, with whether adapter_config.json exists.
unfoldable metadata_parameters : Result CheckpointMetadata → AdapterFile → Option (List String)
unfolding valid_names
metadata_parameters (ok m) file = elim m.target_parameters [
  | none ↦ some []
  | some xs ↦ valid_names xs
]
metadata_parameters (err e) no_adapter = some []
metadata_parameters (err e) _ = none

unfoldable pub metadata_alpha : Result CheckpointMetadata → Option ℕ
metadata_alpha (err e) = none
metadata_alpha (ok m) = m.lora_alpha

module _ {W : Type 0} where
  unfoldable pub saved_lora_alpha : Dict (Directory W) → CheckpointRecord → Option ℕ
  unfolding metadata adapter_file_at adapter_alpha metadata_alpha
  saved_lora_alpha disk r = elim (metadata_alpha (metadata disk r)) [
    | none ↦ adapter_alpha (adapter_file_at disk r.path)
    | some alpha ↦ some alpha
  ]

  unfoldable pub saved_target_modules : Dict (Directory W) → CheckpointRecord → Option (List String)
  unfolding metadata adapter_file_at read_adapter_target_modules metadata_modules
  saved_target_modules disk r = elim (read_adapter_target_modules (adapter_file_at disk r.path)) [
    | none ↦ metadata_modules (metadata disk r)
    | some modules ↦ some modules
  ]

  unfoldable pub saved_target_parameters :
      Dict (Directory W) → CheckpointRecord → Option (List String)
  unfolding metadata adapter_file_at read_adapter_target_parameters metadata_parameters
  saved_target_parameters disk r =
      elim (read_adapter_target_parameters (adapter_file_at disk r.path)) [
        | none ↦ metadata_parameters (metadata disk r) (adapter_file_at disk r.path)
        | some parameters ↦ some parameters
      ]

  unfoldable pub validate_lora_alpha :
      (expected_lora_alpha : ℕ) → Dict (Directory W) → CheckpointRecord → Result (Unit {0})
  unfolding saved_lora_alpha
  validate_lora_alpha expected disk r = elim (saved_lora_alpha disk r) [
    | none ↦ ok tt
    | some saved ↦
        if saved == expected then ok tt else err (checkpoint_incompatible r.checkpoint_id)
  ]
