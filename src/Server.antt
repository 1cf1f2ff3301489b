-- ===== src/Server.antt =====
-- src/tuft/state.py: what `ServerState` does to the runs and to the futures when it starts.
pub mod Samples
pub mod Overview
use tu_ft.Base.{
  ℕ, String, Bool, true, false, Option, none, some, List, [], ◌∷◌, ◌≡◌, opt_map, if◌then◌else◌,
}
use Prim.Native.String
use Prim.Native.String.{◌++◌}
use tu_ft.Dict
use tu_ft.Dict.{keys}
use tu_ft.Errors.{Error, Result, ok, err}
use tu_ft.Checkpoints.{CheckpointRecord}
use tu_ft.Futures
use tu_ft.Futures.{FutureStore}
use tu_ft.Futures.Marking.{
  mark_futures_failed_after_checkpoint, mark_model_pending_futures_failed,
  mark_pending_sample_futures_failed,
}
use tu_ft.Training.{Env, TrainingController, TrainingRunRecord}
use tu_ft.Training.Recovery.{restore_from_checkpoint}

-- The parts of `ServerState` that the restore works on.
pub record ServerState (B W T C V U : Type 0) : Type 0 where
  pub training : TrainingController B W T C
  pub future_store : FutureStore V U

unfoldable corrupted_message : String → String
corrupted_message model_id =
    "Training run " ++ model_id
    ++ " is corrupted and could not be restored; the pending operation cannot complete."

unfoldable disabled_message : String → String
disabled_message base_model =
    "Training capability for model " ++ base_model
    ++ " is disabled on this server; the pending operation cannot complete. Re-enable the "
    ++ "capability and retry."

unfoldable restored_message : String → Option CheckpointRecord → String
restored_message model_id none = "No checkpoint found for model " ++ model_id ++ ". Please retry."
restored_message model_id (some c) =
    "Server restored from checkpoint " ++ c.checkpoint_id
    ++ ". Operations after this checkpoint need to be retried."

module _ {B W T C Q A P O V U : Type 0} (env : Env B W T C Q A P O)
    (futures : Futures.Env V U) where
  -- The end of one round of the loop, after `restore_from_checkpoint`.
  unfoldable pub fail_futures_after :
      String
      → FutureStore V U
      → TrainingController B W T C × Result (Option CheckpointRecord)
      → ServerState B W T C V U × Result (Unit {0})
  unfolding mark_futures_failed_after_checkpoint restored_message
  fail_futures_after model_id store (training, err e) =
      (record { training = training; future_store = store }, err e)
  fail_futures_after model_id store (training, ok latest) = (
    record {
      training = training;
      future_store =
          (mark_futures_failed_after_checkpoint futures (some model_id)
            (opt_map (λ c. c.future_id) latest) (restored_message model_id latest) store).0;
    },
    ok tt,
  )

  -- One round of the loop over the runs.
  unfoldable pub restore_model :
      String → ServerState B W T C V U → ServerState B W T C V U × Result (Unit {0})
  unfolding mark_model_pending_futures_failed restore_from_checkpoint fail_futures_after
      corrupted_message disabled_message
  restore_model model_id s = elim (Dict.get s.training.training_runs model_id) [
    | none ↦ (s, ok tt)
    | some r ↦
        if r.corrupted
        then (
          record s {
            future_store =
                (mark_model_pending_futures_failed futures (some model_id)
                  (corrupted_message model_id) s.future_store).0;
          },
          ok tt,
        )
        else elim r.backend [
          | none ↦ (
            record s {
              future_store =
                  (mark_model_pending_futures_failed futures (some model_id)
                    (disabled_message r.base_model) s.future_store).0;
            },
            ok tt,
          )
          | some name ↦
              fail_futures_after model_id s.future_store
                (restore_from_checkpoint env model_id s.training)
        ]
  ]

  -- The rest of the loop, unless a round raised.
  unfoldable pub restore_models :
      List String
      → ServerState B W T C V U × Result (Unit {0})
      → ServerState B W T C V U × Result (Unit {0})
  unfolding restore_model
  restore_models [] s = s
  restore_models (model_id ∷ rest) (s, err e) = (s, err e)
  restore_models (model_id ∷ rest) (s, ok u) = restore_models rest (restore_model model_id s)

  -- _restore_from_checkpoints
  unfoldable pub restore_from_checkpoints :
      ServerState B W T C V U → ServerState B W T C V U × Result (Unit {0})
  unfolding restore_models mark_pending_sample_futures_failed keys
  restore_from_checkpoints s = restore_models (keys s.training.training_runs) (
    record s {
      future_store =
          (mark_pending_sample_futures_failed futures
            "Server restarted while sample request was pending. Please retry." s.future_store).0;
    },
    ok tt,
  )
