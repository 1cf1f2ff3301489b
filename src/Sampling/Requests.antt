-- ===== src/Sampling/Requests.antt =====
-- src/tuft/sampling_controller.py: creating a sampling session, sampling from it and evicting it.
use tu_ft.Base.{
  ℕ, String, Bool, not, ◌&&◌, Option, none, some, List, [], ◌∷◌, str_eq, is_some, if◌then◌else◌,
}
use tu_ft.Dict
use tu_ft.Dict.{Dict, pop_all, keys_where}
use tu_ft.Text.{is_empty}
use tu_ft.Errors.{
  Result, ok, err, unknown_model, checkpoint_not_found, checkpoint_access_denied, session_not_found,
  user_mismatch, missing_sequence_id,
}
use tu_ft.Checkpoints.{Directory, CheckpointRecord, metadata}
use tu_ft.Sampling.{
  Env, SamplingController, SamplingSessionRecord, SamplingHistoryEntry, add_entry, no_backend,
  save_session, delete_session, from_tinker_path,
}

module _ {S T P Q A : Type 0} (env : Env S T P Q A) where
  unfoldable pub new_session :
      (id session_id user_id base_model : String)
      → (model_path : Option String) → (session_seq_id : ℕ) → SamplingSessionRecord
  new_session id session_id user_id base_model model_path session_seq_id = record {
    sampling_session_id = id;
    session_id = session_id;
    model_id = id;
    base_model = base_model;
    user_id = user_id;
    model_path = model_path;
    session_seq_id = session_seq_id;
    last_seq_id = none;
    history = [];
    history_by_seq_id = [];
  }

  -- The end of `create_sampling_session`.
  unfoldable pub register_session :
      SamplingSessionRecord → SamplingController S T → SamplingController S T × Result String
  unfolding save_session
  register_session r s = (
    save_session env r.sampling_session_id
        (record s { sampling_sessions = Dict.put s.sampling_sessions r.sampling_session_id r }),
    ok r.sampling_session_id,
  )

  -- The guards for a `model_path`: the checkpoint and its base model, where the user may sample.
  unfoldable pub checked_checkpoint :
      {W : Type 0}
      → Dict (Directory W)
      → (user_id model_path : String) → Result (CheckpointRecord × String)
  unfolding from_tinker_path metadata
  checked_checkpoint disk user_id model_path = elim (from_tinker_path env disk model_path) [
    | err e ↦ err e
    | ok c ↦
        if Dict.has disk c.path
        then elim (metadata disk c) [
          | err e ↦ err e
          | ok m ↦
              if not c.public && not (str_eq c.owner_name user_id)
              then err (checkpoint_access_denied c.checkpoint_id)
              else ok (c, m.base_model)
        ]
        else err (checkpoint_not_found c.checkpoint_id)
  ]

  -- The call of `add_adapter`, and the end.
  unfoldable pub add_and_register :
      S
      → SamplingSessionRecord
      → String
      → SamplingController S T
      → SamplingController S T × Result String
  unfolding register_session
  add_and_register b r adapter_path s =
      let after = env.add_adapter r.sampling_session_id adapter_path b in
      let s' = record s { base_backends = Dict.put s.base_backends r.base_model after.0 } in
      elim after.1 [ err e ↦ (s', err e) | ok u ↦ register_session r s' ]

  -- create_sampling_session; `id` is the fresh uuid. An empty text is falsy.
  unfoldable pub create_sampling_session :
      {W : Type 0}
      → Dict (Directory W)
      → (id session_id user_id base_model model_path : String) → (session_seq_id : ℕ)
      → SamplingController S T
      → SamplingController S T × Result String
  unfolding is_empty checked_checkpoint no_backend new_session add_and_register register_session
  create_sampling_session disk id session_id user_id base_model model_path session_seq_id s =
      if not (is_empty model_path)
      then elim (checked_checkpoint disk user_id model_path) [
        | err e ↦ (s, err e)
        | ok found ↦
            let path = env.adapter_path (found.0).path in
            elim (Dict.get s.base_backends found.1) [
              | none ↦ (s, err (no_backend env.supported_models found.1))
              | some b ↦
                  add_and_register b
                    (new_session id session_id user_id found.1 (some path) session_seq_id) path s
            ]
      ]
      else (if is_empty base_model
          then (s, err (unknown_model "None"))
          else (if Dict.has s.base_backends base_model
              then register_session
                  (new_session id session_id user_id base_model none session_seq_id) s
              else (s, err (no_backend env.supported_models base_model))))

  -- _record_sequence
  unfoldable pub record_sequence :
      (now : ℕ)
      → SamplingSessionRecord
      → (seq_id : ℕ) → P
      → SamplingController S T
      → SamplingController S T
  unfolding add_entry save_session
  record_sequence now r seq_id prompt s =
      let e : SamplingHistoryEntry = record {
        seq_id = seq_id;
        prompt_token_count = env.token_count prompt;
        prompt_hash = env.hash_prompt prompt;
        created_at = now;
      } in
      save_session env r.sampling_session_id (record s {
        sampling_sessions = Dict.put s.sampling_sessions r.sampling_session_id (add_entry e r);
      })

  -- The guards of `_resolve_backend`: the session, the number of the request and the backend.
  unfoldable pub check_request :
      (user_id sampling_session_id : String)
      → (seq_id : Option ℕ) → SamplingController S T
      → Result (SamplingSessionRecord × (ℕ × S))
  unfolding is_empty no_backend
  check_request user_id id seq_id s =
      if is_empty id
      then err (session_not_found "None")
      else elim (Dict.get s.sampling_sessions id) [
        | none ↦ err (session_not_found id)
        | some r ↦ if not (str_eq r.user_id user_id) then err user_mismatch else elim seq_id [
          | none ↦ err missing_sequence_id
          | some q ↦ elim (Dict.get s.base_backends r.base_model) [
            | none ↦ err (no_backend env.supported_models r.base_model)
            | some b ↦ ok (r, (q, b))
          ]
        ]
      ]

  abbrev pub lora_id : SamplingSessionRecord → Option String
  lora_id r = if is_some r.model_path then some r.sampling_session_id else none

  -- run_sample
  unfoldable pub run_sample :
      (now : ℕ)
      → (user_id sampling_session_id : String) → (seq_id : Option ℕ) → P
      → Q
      → SamplingController S T
      → SamplingController S T × Result A
  unfolding check_request record_sequence
  run_sample now user_id id seq_id prompt request s = elim (check_request user_id id seq_id s) [
    | err e ↦ (s, err e)
    | ok found ↦
        let r = found.0 in
        let recorded = record_sequence now r found.1.0 prompt s in
        let after = env.sample prompt request (lora_id r) found.1.1 in
        (
          record recorded { base_backends = Dict.put recorded.base_backends r.base_model after.0 },
          after.1,
        )
  ]

  abbrev pub is_of : (model_id user_id : String) → SamplingSessionRecord → Bool
  is_of model_id user_id r = str_eq r.model_id model_id && str_eq r.user_id user_id

  unfoldable pub delete_each : List String → SamplingController S T → SamplingController S T
  unfolding delete_session
  delete_each [] s = s
  delete_each (id ∷ ids) s =
      delete_each ids
        (delete_session env id (record s { sampling_sessions = Dict.pop s.sampling_sessions id }))

  -- evict_model
  unfoldable pub evict_model :
      (model_id user_id : String) → SamplingController S T → SamplingController S T
  unfolding keys_where delete_each
  evict_model model_id user_id s =
      delete_each (keys_where (is_of model_id user_id) s.sampling_sessions) s

  -- get_sampler_info: the base model and the path of the adapter
  unfoldable pub get_sampler_info :
      (sampler_id user_id default_base_model : String)
      → SamplingController S T
      → Result (String × Option String)
  unfolding is_empty
  get_sampler_info sampler_id user_id default_base_model s =
      elim (Dict.get s.sampling_sessions sampler_id) [
        | none ↦ err (session_not_found sampler_id)
        | some r ↦
            if not (str_eq r.user_id user_id)
            then err user_mismatch
            else ok
                ((if is_empty r.base_model then default_base_model else r.base_model), r.model_path)
      ]
