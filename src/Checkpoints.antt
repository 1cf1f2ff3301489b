-- ===== src/Checkpoints.antt =====
-- src/tuft/checkpoints.py: the records of checkpoints and what is on disk for each. A checkpoint's
-- directory is found by its path. The contents of the JSON files are values, or a reason why they
-- cannot be read. `W` is the type of what else the backend writes there.
pub mod Geometry
use tu_ft.Base.{
  ℕ, ◌+◌, String, Bool, true, false, Option, none, some, List, [], ◌∷◌, ◌==◌, if◌then◌else◌,
}
use tu_ft.Dict
use tu_ft.Dict.{Dict}
use tu_ft.Errors.{Error, checkpoint_incompatible, checkpoint_metadata_read, Result, ok, err}

pub data CheckpointType : Type 0 where
  training : CheckpointType
  sampler : CheckpointType

pub record CheckpointMetadata : Type 0 where
  pub model_id : String
  pub name : String
  pub base_model : String
  pub checkpoint_type : CheckpointType
  pub created_at : ℕ
  pub session_id : String
  pub owner_name : String
  pub size_bytes : ℕ
  pub lora_rank : Option ℕ
  pub lora_alpha : Option ℕ
  pub train_attn : Option Bool
  pub train_mlp : Option Bool
  pub train_unembed : Option Bool
  pub target_modules : Option (List String)
  pub target_parameters : Option (List String)
  pub public : Bool
  pub future_id : ℕ
  pub seq_id : Option ℕ

-- metadata.json; `invalid_metadata` is one that pydantic refuses
pub data MetadataFile : Type 0 where
  no_metadata : MetadataFile
  invalid_metadata : MetadataFile
  metadata_json : CheckpointMetadata → MetadataFile

-- An entry of an array, and a value, in adapter_config.json, as far as the readers tell them apart.
pub data Item : Type 0 where
  text : String → Item
  no_text : Item

pub data Json : Type 0 where
  null : Json
  number : ℕ → Json
  array : List Item → Json
  other : Json

-- adapter_config.json
pub data AdapterFile : Type 0 where
  no_adapter : AdapterFile
  unreadable : AdapterFile
  not_an_object : AdapterFile
  adapter_config : (lora_alpha target_modules target_parameters : Json) → AdapterFile

pub record Directory (W : Type 0) : Type 0 where
  pub metadata_file : MetadataFile
  pub adapter_file : AdapterFile
  pub weights : Option W

pub record CheckpointRecord : Type 0 where
  pub checkpoint_id : String
  pub owner_name : String
  pub checkpoint_type : CheckpointType
  pub training_run_id : String
  pub path : String
  pub size_bytes : ℕ
  pub public : Bool
  pub created_at : ℕ
  pub future_id : ℕ
  pub seq_id : Option ℕ

module _ {W : Type 0} where
  unfoldable pub metadata_file_at : Dict (Directory W) → String → MetadataFile
  metadata_file_at disk path = elim (Dict.get disk path) [
    | none ↦ no_metadata
    | some dir ↦ dir.metadata_file
  ]

  unfoldable pub adapter_file_at : Dict (Directory W) → String → AdapterFile
  adapter_file_at disk path = elim (Dict.get disk path) [
    | none ↦ no_adapter
    | some dir ↦ dir.adapter_file
  ]

  -- CheckpointRecord.metadata
  unfoldable pub metadata : Dict (Directory W) → CheckpointRecord → Result CheckpointMetadata
  unfolding metadata_file_at
  metadata disk r = elim (metadata_file_at disk r.path) [
    | no_metadata ↦ err (checkpoint_metadata_read r.checkpoint_id)
    | invalid_metadata ↦ err (checkpoint_metadata_read r.checkpoint_id)
    | metadata_json m ↦ ok m
  ]

  unfoldable pub empty_directory : Directory W
  empty_directory = record {
    metadata_file = no_metadata;
    adapter_file = no_adapter;
    weights = none;
  }

  -- What the backend finds at a path.
  unfoldable pub directory_at : Dict (Directory W) → String → Directory W
  unfolding empty_directory
  directory_at disk path = elim (Dict.get disk path) [ none ↦ empty_directory | some dir ↦ dir ]

  -- CheckpointRecord.from_training_run with `exist_ok`: the directory is made if it is not there.
  unfoldable pub make_directory : String → Dict (Directory W) → Dict (Directory W)
  unfolding empty_directory
  make_directory path disk = elim (Dict.get disk path) [
    | none ↦ Dict.put disk path empty_directory
    | some dir ↦ disk
  ]

  unfoldable pub put_metadata :
      String → CheckpointMetadata → Dict (Directory W) → Dict (Directory W)
  put_metadata path m disk = elim (Dict.get disk path) [
    | none ↦ disk
    | some dir ↦ Dict.put disk path (record dir { metadata_file = metadata_json m })
  ]

  -- CheckpointRecord.delete
  unfoldable pub delete : CheckpointRecord → Dict (Directory W) → Dict (Directory W)
  delete r disk = Dict.pop disk r.path

unfoldable pub from_training_run :
    (checkpoint_path : String → String → String)
    → (now : ℕ) → (training_run_id checkpoint_name owner_name : String) → CheckpointType
    → CheckpointRecord
from_training_run checkpoint_path now run name owner kind = record {
  checkpoint_id = name;
  owner_name = owner;
  checkpoint_type = kind;
  training_run_id = run;
  path = checkpoint_path run name;
  size_bytes = 0;
  public = false;
  created_at = now;
  future_id = 0;
  seq_id = none;
}

-- The arguments of `save_metadata`.
pub record Described : Type 0 where
  pub base_model : String
  pub session_id : String
  pub lora_rank : Option ℕ
  pub lora_alpha : Option ℕ
  pub train_attn : Option Bool
  pub train_mlp : Option Bool
  pub train_unembed : Option Bool
  pub target_modules : Option (List String)
  pub target_parameters : Option (List String)

-- What `save_metadata` writes for a record.
unfoldable pub describe : CheckpointRecord → Described → CheckpointMetadata
describe r d = record {
  model_id = r.training_run_id;
  name = r.checkpoint_id;
  base_model = d.base_model;
  checkpoint_type = r.checkpoint_type;
  created_at = r.created_at;
  session_id = d.session_id;
  owner_name = r.owner_name;
  size_bytes = r.size_bytes;
  lora_rank = d.lora_rank;
  lora_alpha = d.lora_alpha;
  train_attn = d.train_attn;
  train_mlp = d.train_mlp;
  train_unembed = d.train_unembed;
  target_modules = d.target_modules;
  target_parameters = d.target_parameters;
  public = r.public;
  future_id = r.future_id;
  seq_id = r.seq_id;
}

-- The arguments that `set_visibility` hands back to `save_metadata`.
unfoldable pub described : CheckpointMetadata → Described
described m = record {
  base_model = m.base_model;
  session_id = m.session_id;
  lora_rank = m.lora_rank;
  lora_alpha = m.lora_alpha;
  train_attn = m.train_attn;
  train_mlp = m.train_mlp;
  train_unembed = m.train_unembed;
  target_modules = m.target_modules;
  target_parameters = m.target_parameters;
}

module _ {W : Type 0} where
  -- CheckpointRecord.save_metadata. Every argument is of its field's type, so pydantic accepts it,
  -- and the directory is there, since `from_training_run` or an earlier save made it.
  unfoldable pub save_metadata :
      CheckpointRecord → Described → Dict (Directory W) → Dict (Directory W)
  unfolding put_metadata describe
  save_metadata r d disk = put_metadata r.path (describe r d) disk

  -- CheckpointRecord.set_visibility: the record has its flag even when the file cannot be read.
  unfoldable pub set_visibility :
      (public : Bool)
      → CheckpointRecord
      → Dict (Directory W)
      → (CheckpointRecord × Dict (Directory W)) × Result (Unit {0})
  unfolding metadata save_metadata described
  set_visibility public r disk =
      let changed : CheckpointRecord = record r { public = public } in
      elim (metadata disk r) [
        | err e ↦ ((changed, disk), err e)
        | ok m ↦ ((changed, save_metadata changed (described m) disk), ok tt)
      ]
