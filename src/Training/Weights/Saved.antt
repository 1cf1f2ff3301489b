-- ===== src/Training/Weights/Saved.antt =====
-- What a save of src/tuft/training_controller.py leaves on disk.
use tu_ft.Base.{
  ℕ, String, ◌≡◌, refl, sym, ap, ◌∙◌, true, Option, none, some, arith, is_some, Option-cases, inl,
  inr,
}
use tu_ft.Dict
use tu_ft.Dict.{Dict, get-put, get-put_self}
use tu_ft.Errors.{Result, ok, err}
use tu_ft.Checkpoints.{
  CheckpointType, training, sampler, CheckpointRecord, CheckpointMetadata, Directory, Described,
  metadata, from_training_run, MetadataFile, no_metadata, metadata_json, metadata_file_at,
  make_directory, empty_directory, save_metadata, put_metadata, describe,
}
use tu_ft.Training.{Env, TrainingController, TrainingRunRecord, update_run, save_training_run}
use tu_ft.Training.Weights.{
  is_training, description, new_checkpoint, sized_checkpoint, advance_counter, chosen_name, counter,
  save_operation, record_checkpoint, write_state, add_checkpoint, save_training_run_with_checkpoint,
  save_checkpoint_record,
}

module _ {W : Type 0} where
  get-save_metadata :
      (c : CheckpointRecord) (d : Described) (disk : Dict (Directory W)) (dir : Directory W)
      → Dict.get disk c.path ≡ some dir
      → Dict.get (save_metadata c d disk) c.path
        ≡ some (record dir { metadata_file = metadata_json (describe c d) })
  unfolding save_metadata put_metadata
  get-save_metadata c d disk dir h =
      rw (h, save_metadata, put_metadata)
        (get-put_self disk c.path (record dir { metadata_file = metadata_json (describe c d) }))

  has-make_directory :
      (path : String) (disk : Dict (Directory W))
      → is_some (Dict.get (make_directory path disk) path) ≡ true
  unfolding make_directory
  has-make_directory path disk = ground (arith, get-put_self disk path empty_directory)

  metadata-at :
      (disk : Dict (Directory W)) (d : CheckpointRecord) (path : String) (m : CheckpointMetadata)
      → metadata_file_at disk path ≡ metadata_json m
      → d.path ≡ path
      → metadata disk d ≡ ok m
  unfolding metadata
  metadata-at disk d path m h at = rw (ap (λ i. metadata_file_at disk i) at ∙ h, metadata) refl

module _ {B W T C Q A P O : Type 0} (env : Env B W T C Q A P O) where
  has-write_state :
      (r : TrainingRunRecord) (c : CheckpointRecord) (s : TrainingController B W T C)
      → is_some (Dict.get s.disk c.path) ≡ true
      → is_some (Dict.get (write_state env r c s).0.disk c.path) ≡ true
  unfolding write_state
  has-write_state r c s h = elim (Option-cases r.backend) [
    | inl none_here ↦ rw (none_here, write_state) h
    | inr (name, named) ↦ elim (Option-cases (Dict.get s.training_backends name)) [
      | inl unknown ↦ rw (named, unknown, write_state) h
      | inr (b, known) ↦ elim (Option-cases (Dict.get s.disk c.path)) [
        | inl missing ↦ rw (named, known, missing, write_state) h
        | inr (dir, found) ↦
            rw (named, known, found, write_state)
              (ap is_some (
                get-put_self s.disk c.path
                  (env.api.save_state r.training_run_id (is_training c.checkpoint_type) b dir).0.1))
      ]
    ]
  ]

  disk-add_checkpoint :
      (model_id : String) (c : CheckpointRecord) (s : TrainingController B W T C)
      → (add_checkpoint env model_id c s).disk ≡ s.disk
  unfolding add_checkpoint update_run
  disk-add_checkpoint model_id c s = ground arith

  disk-save :
      (kind : CheckpointType) (model_id : String) (c : CheckpointRecord)
      (s : TrainingController B W T C)
      → (save_training_run_with_checkpoint env kind model_id c s).disk ≡ s.disk
  unfolding save_training_run_with_checkpoint save_training_run save_checkpoint_record
  disk-save training model_id c s = ground arith
  disk-save sampler model_id c s = ground arith

  -- The two writes of the metadata, and the reads of what is there then.
  written :
      (r : TrainingRunRecord) (c : CheckpointRecord) (disk : Dict (Directory W))
      → is_some (Dict.get disk c.path) ≡ true
      → metadata_file_at
          (save_metadata
            (sized_checkpoint env r c disk)
            (description env r)
            (save_metadata c (description env r) disk))
          c.path
        ≡ metadata_json (describe (sized_checkpoint env r c disk) (description env r))
  unfolding metadata_file_at sized_checkpoint
  written r c disk there = elim (Option-cases (Dict.get disk c.path)) [
    | inl missing ↦ absurd (ground (arith, missing, there))
    | inr (dir, found) ↦
        ap
          (λ (o : Option (Directory W)). elim o as (λ _. MetadataFile) [
            | none ↦ no_metadata
            | some dir ↦ dir.metadata_file
          ])
          (get-save_metadata (sized_checkpoint env r c disk) (description env r)
            (save_metadata c (description env r) disk) _
            (get-save_metadata c (description env r) disk dir found))
  ]

  -- The metadata that a path has once `record_checkpoint` has returned.
  record_checkpoint-metadata :
      (model_id : String) (r : TrainingRunRecord) (c saved : CheckpointRecord)
      (t : TrainingController B W T C) (o : Result (Unit {0}))
      → is_some (Dict.get t.disk c.path) ≡ true
      → (record_checkpoint env model_id r c (t, o)).1 ≡ ok saved
      → (saved.path ≡ c.path)
        × (metadata_file_at (record_checkpoint env model_id r c (t, o)).0.disk c.path
            ≡ metadata_json (describe saved (description env r)))
  unfolding record_checkpoint sized_checkpoint
  record_checkpoint-metadata model_id r c saved t (err e) there h = absurd (ground arith)
  record_checkpoint-metadata model_id r c saved t (ok u) there h =
      let same : sized_checkpoint env r c t.disk ≡ saved = ap record_of h in
      (
        sym (ap (λ i. i.path) same),
        ap (λ d. metadata_file_at d c.path)
              (disk-save c.checkpoint_type model_id (sized_checkpoint env r c t.disk) _
                ∙ disk-add_checkpoint model_id (sized_checkpoint env r c t.disk) _)
            ∙ written r c t.disk there
            ∙ ap (λ i. metadata_json (describe i (description env r))) same,
      )
    where
      record_of : Result CheckpointRecord → CheckpointRecord
      record_of (ok x) = x
      record_of (err e) = c

  pub save_operation-metadata :
      (now : ℕ) (model_id : String) (r : TrainingRunRecord) (name : Option String)
      (kind : CheckpointType) (future_id : ℕ) (seq_id : Option ℕ) (s : TrainingController B W T C)
      (saved d : CheckpointRecord)
      → (save_operation env now model_id r name kind future_id seq_id s).1 ≡ ok saved
      → d.path ≡ saved.path
      → (saved.path ≡ env.checkpoint_path r.training_run_id (chosen_name name (counter kind r)))
        × (metadata (save_operation env now model_id r name kind future_id seq_id s).0.disk d
            ≡ ok (describe saved (description env r)))
  unfolding save_operation new_checkpoint from_training_run
  save_operation-metadata now model_id r name kind future_id seq_id s saved d h at =
      let c = new_checkpoint env now r name kind future_id seq_id in
      let counted = update_run model_id (advance_counter kind) s in
      let start : TrainingController B W T C = record counted {
        disk = make_directory c.path counted.disk;
      } in
      let both =
        record_checkpoint-metadata model_id r c saved (write_state env r c start).0
          (write_state env r c start).1
          (has-write_state r c start (has-make_directory c.path counted.disk)) h in
      (
        both.0,
        metadata-at (save_operation env now model_id r name kind future_id seq_id s).0.disk d c.path
            (describe saved (description env r)) both.1 (at ∙ both.0),
      )
