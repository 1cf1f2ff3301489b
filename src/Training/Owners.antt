-- ===== src/Training/Owners.antt =====
-- Who may operate on a run: the checks at the start of the operations in
-- src/tuft/training_controller.py.
use tu_ft.Base.{ℕ, String, ◌≡◌, ◌≢◌, refl, Bool, true, Option, some, str_eq_ne, arith}
use tu_ft.Dict
use tu_ft.Errors.{user_mismatch, err}
use tu_ft.Checkpoints.{CheckpointType, CheckpointRecord, CheckpointMetadata}
use tu_ft.Training.{Env, TrainingController, TrainingRunRecord, get_run_record, update_activity}
use tu_ft.Training.Runs.{begin_operation, guarded_call, run_forward, run_optim_step, unload_model}
use tu_ft.Training.Weights.{save_checkpoint}
use tu_ft.Training.Weights.Compatible.{load_into}
use tu_ft.Training.Weights.Manage.{delete_checkpoint, set_visibility}

module _ {B W T C Q A P O : Type 0} (env : Env B W T C Q A P O) where
  -- For every state and every run in it: a user who is not its owner is refused with a user mismatch
  -- by `run_forward`, `run_optim_step`, `save_checkpoint`, the part of `load_checkpoint` that follows
  -- the reading of the checkpoint, `delete_checkpoint`, `set_visibility`, `update_activity` and
  -- `unload_model`, and nothing changes: neither the runs, nor what is on disk or in Redis, nor a
  -- backend.
  pub stranger-refused :
      (now : ℕ) (model_id user_id name : String) (new_name : Option String) (kind : CheckpointType)
      (future_id : ℕ) (public : Bool) (q : Q) (p : P) (c : CheckpointRecord)
      (m : CheckpointMetadata) (seq_id : Option ℕ) (r : TrainingRunRecord)
      (s : TrainingController B W T C)
      → Dict.get s.training_runs model_id ≡ some r
      → r.model_owner ≢ user_id
      → (run_forward env now model_id user_id q seq_id s ≡ (s, err user_mismatch))
        × (run_optim_step env now model_id user_id p seq_id s ≡ (s, err user_mismatch))
        × (save_checkpoint env now model_id user_id new_name kind future_id seq_id s
            ≡ (s, err user_mismatch))
        × (load_into env model_id user_id c m public seq_id s ≡ (s, err user_mismatch))
        × (delete_checkpoint env model_id user_id name s ≡ (s, err user_mismatch))
        × (set_visibility env model_id name user_id public s ≡ (s, err user_mismatch))
        × (update_activity env now model_id user_id s ≡ (s, err user_mismatch))
        × (unload_model env model_id user_id s ≡ (s, err user_mismatch))
  unfolding run_forward run_optim_step begin_operation guarded_call save_checkpoint load_into
      delete_checkpoint set_visibility update_activity unload_model get_run_record
  stranger-refused now model_id user_id name new_name kind future_id public q p c m seq_id r s here
        other =
      (
        rw (mismatch, run_forward, begin_operation) refl,
        rw (mismatch, run_optim_step, begin_operation) refl,
        rw (mismatch, save_checkpoint) refl,
        rw (mismatch, load_into) refl,
        rw (mismatch, delete_checkpoint) refl,
        rw (mismatch, set_visibility) refl,
        rw (mismatch, update_activity) refl,
        rw (here, unload_model, str_eq_ne r.model_owner user_id other) refl,
      )
    where
      mismatch : get_run_record model_id user_id true s ≡ err user_mismatch
      mismatch = ground (arith, here, str_eq_ne r.model_owner user_id other)
