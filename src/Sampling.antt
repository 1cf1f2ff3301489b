-- ===== src/Sampling.antt =====
-- src/tuft/sampling_controller.py: the sampling sessions, their histories and the calls of the
-- backends. A session's record is one object, which its holders share; a request runs in one step,
-- with the session's executor (src/tuft/sequence_executor.py) idle.
pub mod Executor
pub mod Index
pub mod History
pub mod Requests
pub mod Restart
pub mod Valid
pub mod Reached
pub mod Evict
pub mod Answers
use tu_ft.Base.{
  ℕ, max, String, Bool, true, false, not, ◌||◌, ◌&&◌, Option, none, some, List, [], ◌∷◌, map,
  str_eq, is_some, if◌then◌else◌,
}
use tu_ft.Dict
use tu_ft.Dict.{Dict, pop_all}
use tu_ft.Text.{is_empty}
use tu_ft.Errors.{
  Error, Result, ok, err, unknown_model, capability_disabled, checkpoint_not_found,
  checkpoint_access_denied, session_not_found, user_mismatch, missing_sequence_id,
}
use tu_ft.Config.{ModelConfig, get_model_config, sampling_enabled}
use tu_ft.Persistence.{Codec, save_record, delete_record}
use tu_ft.Checkpoints.{Directory, CheckpointRecord, metadata, from_training_run}
use tu_ft.Training.Weights.Compatible.{ParsedPath}
use tu_ft.Sampling.Index.{put_at, sort_pairs, max_key}

pub record SamplingHistoryEntry : Type 0 where
  pub seq_id : ℕ
  pub prompt_token_count : ℕ
  pub prompt_hash : String
  pub created_at : ℕ

-- `last_seq_id` is `none` for -1; `history_by_seq_id` is private and not persisted.
pub record SamplingSessionRecord : Type 0 where
  pub sampling_session_id : String
  pub session_id : String
  pub model_id : String
  pub base_model : String
  pub user_id : String
  pub model_path : Option String
  pub session_seq_id : ℕ
  pub last_seq_id : Option ℕ
  pub history : List SamplingHistoryEntry
  pub history_by_seq_id : List (ℕ × SamplingHistoryEntry)

pub record SamplingController (S T : Type 0) : Type 0 where
  pub sampling_sessions : Dict SamplingSessionRecord
  pub base_backends : Dict S
  pub redis : Dict T

-- The configuration, and what is called outside of this module: the parser of tinker paths, the
-- paths of the file system, the backends, and the tokens and the hash of a prompt `P`. `Q` is the
-- rest of a request, `A` what a backend gives.
pub record Env (S T P Q A : Type 0) : Type 0 where
  pub supported_models : List ModelConfig
  pub codec : Codec SamplingSessionRecord T
  pub parse_path : String → Result ParsedPath
  pub checkpoint_path : String → String → String
  pub adapter_path : String → String
  pub add_adapter : (lora_id adapter_path : String) → S → S × Result (Unit {0})
  pub sample : P → Q → (lora_id : Option String) → S → S × Result A
  pub token_count : P → ℕ
  pub hash_prompt : P → String

unfoldable pub opt_max : Option ℕ → Option ℕ → Option ℕ
opt_max none n = n
opt_max (some m) none = some m
opt_max (some m) (some n) = some (max m n)

abbrev pub snd : ℕ × SamplingHistoryEntry → SamplingHistoryEntry
snd p = p.1

-- _rebuild_history_index
unfoldable pub index_entries :
    List SamplingHistoryEntry → List (ℕ × SamplingHistoryEntry) → List (ℕ × SamplingHistoryEntry)
unfolding put_at
index_entries [] by = by
index_entries (e ∷ es) by = index_entries es (put_at by e.seq_id e)

unfoldable pub rebuild_history_index : SamplingSessionRecord → SamplingSessionRecord
unfolding index_entries opt_max max_key
rebuild_history_index r =
    let by = index_entries r.history [] in
    record r { history_by_seq_id = by; last_seq_id = opt_max r.last_seq_id (max_key by) }

-- _record_sequence, on the record; the sorted keys give the pairs sorted by key
unfoldable pub add_entry : SamplingHistoryEntry → SamplingSessionRecord → SamplingSessionRecord
unfolding put_at sort_pairs opt_max
add_entry e r =
    let by = put_at r.history_by_seq_id e.seq_id e in
    record r {
      history_by_seq_id = by;
      history = map snd (sort_pairs by);
      last_seq_id = opt_max r.last_seq_id (some e.seq_id);
    }

-- _sampling_disabled_config
unfoldable pub sampling_disabled : List ModelConfig → String → Bool
unfolding get_model_config sampling_enabled
sampling_disabled models base_model = elim (get_model_config models base_model) [
  | none ↦ false
  | some c ↦ not (sampling_enabled c)
]

-- require_sampling_capability
unfoldable pub require_sampling_capability : List ModelConfig → String → Result (Unit {0})
unfolding sampling_disabled
require_sampling_capability models base_model =
    if sampling_disabled models base_model
    then err (capability_disabled base_model "sampling")
    else ok tt

-- A model without a backend: the error of its capability, or an unknown model.
unfoldable pub no_backend : List ModelConfig → String → Error
unfolding require_sampling_capability
no_backend models base_model = elim (require_sampling_capability models base_model) [
  | err e ↦ e
  | ok u ↦ unknown_model base_model
]

module _ {S T P Q A : Type 0} (env : Env S T P Q A) where
  -- _save_session
  unfoldable pub save_session : String → SamplingController S T → SamplingController S T
  unfolding save_record
  save_session id s = elim (Dict.get s.sampling_sessions id) [
    | none ↦ s
    | some r ↦ record s { redis = (save_record env.codec id r s.redis).0 }
  ]

  -- _delete_session
  unfoldable pub delete_session : String → SamplingController S T → SamplingController S T
  unfolding delete_record
  delete_session id s = record s { redis = delete_record env.codec id s.redis }

  -- CheckpointRecord.from_tinker_path
  unfoldable pub from_tinker_path :
      {W : Type 0} → Dict (Directory W) → (path : String) → Result CheckpointRecord
  unfolding from_training_run metadata
  from_tinker_path disk path = elim (env.parse_path path) [
    | err e ↦ err e
    | ok p ↦
        let r =
          from_training_run env.checkpoint_path 0 p.training_run_id p.checkpoint_id ""
            p.checkpoint_type in
        elim (metadata disk r) [
          | err e ↦ err e
          | ok m ↦ ok (record r {
            owner_name = m.owner_name;
            size_bytes = m.size_bytes;
            public = m.public;
            created_at = m.created_at;
            future_id = m.future_id;
            seq_id = m.seq_id;
          })
        ]
  ]
