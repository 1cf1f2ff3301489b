-- ===== src/Tests/Runs.antt =====
-- Runs of the training controller, and of the start of the server.
use tu_ft.Base.{
  ℕ, ◌+◌, String, ◌≡◌, ◌≢◌, refl, true, false, ◌&&◌, none, some, [], ◌∷◌, arith, eq_iff, length,
}
use tu_ft.Dict
use tu_ft.Dict.{Dict}
use tu_ft.Errors.{checkpoint_access_denied, sequence_conflict, user_mismatch, ok, err}
use tu_ft.Checkpoints.{training, sampler, CheckpointMetadata, metadata, adapter_file_at}
use tu_ft.Checkpoints.Geometry.{read_adapter_target_modules, read_adapter_target_parameters}
use tu_ft.Training.{update_activity, require_training_capability, has_legacy_lora_state}
use tu_ft.Training.Runs.{run_forward, run_optim_step, unload_model}
use tu_ft.Names.{same_set}
use tu_ft.Training.Weights.{save_checkpoint, save_operation}
use tu_ft.Training.Weights.Compatible.{load_into, check_adapter_compatible, load_checkpoint}
use tu_ft.Training.Weights.Manage.{delete_checkpoint, set_visibility}
use tu_ft.Training.Weights.Reload.{save_operation-compatible}
use tu_ft.Training.Answers.{run-next}
use tu_ft.Training.Owners.{stranger-refused}
use tu_ft.Training.Sequence.{seq_at}
use tu_ft.Training.Sequence.Calls.{accepted, perform_all, count_from}
use tu_ft.Training.Sequence.Accepted.{accepted-consecutive}
use tu_ft.Futures.{FutureRecord, is_pending, is_sample}
use tu_ft.Futures.Effects.{IsKeyed}
use tu_ft.Server.{restore_from_checkpoints}
use tu_ft.Server.Samples.{restore_from_checkpoints-Settled}
use tu_ft.Tests.Bench.{
  ann, bob, config, run, controller, calls, saved, described, futures, server, late, stocked,
  path_c,
}

ann-bob : ann ≢ bob
ann-bob p = ground (arith, eq_iff ann bob)

first_number : seq_at "m" controller ≡ some 1
unfolding Dict.get
first_number = refl

accepted_example :
    (accepted config "m" calls controller
      ≡ count_from 1 (length (accepted config "m" calls controller)))
    × (seq_at "m" (perform_all config calls controller)
        ≡ some (1 + length (accepted config "m" calls controller)))
accepted_example = accepted-consecutive config "m" 1 calls controller first_number

accepted_test : accepted config "m" calls controller ≡ 1 ∷ 2 ∷ 3 ∷ []
unfolding accepted Dict.get Dict.put
accepted_test = refl

the_run : Dict.get controller.training_runs "m" ≡ some run
unfolding Dict.get
the_run = refl

stranger_example :
    (run_forward config 4 "m" bob 7 (some 1) controller ≡ (controller, err user_mismatch))
    × (run_optim_step config 4 "m" bob 1 (some 1) controller ≡ (controller, err user_mismatch))
    × (save_checkpoint config 4 "m" bob none training 5 (some 1) controller
        ≡ (controller, err user_mismatch))
    × (load_into config "m" bob saved described true (some 1) controller
        ≡ (controller, err user_mismatch))
    × (delete_checkpoint config "m" bob "c" controller ≡ (controller, err user_mismatch))
    × (set_visibility config "m" "c" bob true controller ≡ (controller, err user_mismatch))
    × (update_activity config 4 "m" bob controller ≡ (controller, err user_mismatch))
    × (unload_model config "m" bob controller ≡ (controller, err user_mismatch))
stranger_example =
    stranger-refused config 4 "m" bob "c" none training 5 true 7 1 saved described (some 1) run
      controller the_run ann-bob

save_returned : (save_operation config 4 "m" run (some "c") sampler 5 none controller).1 ≡ ok saved
unfolding save_operation Dict.get Dict.put
save_returned = refl

modules_read :
    read_adapter_target_modules (
      adapter_file_at
        (save_operation config 4 "m" run (some "c") sampler 5 none controller).0.disk
        saved.path)
    ≡ some ("q_proj" ∷ [])
unfolding save_operation Dict.get Dict.put read_adapter_target_modules adapter_file_at
modules_read = refl

parameters_read :
    read_adapter_target_parameters (
      adapter_file_at
        (save_operation config 4 "m" run (some "c") sampler 5 none controller).0.disk
        saved.path)
    ≡ some []
unfolding save_operation Dict.get Dict.put read_adapter_target_parameters adapter_file_at
parameters_read = refl

compatible_example :
    (m : CheckpointMetadata) × (metadata
        (save_operation config 4 "m" run (some "c") sampler 5 none controller).0.disk
        saved
      ≡ ok m)
    × (check_adapter_compatible config
          (save_operation config 4 "m" run (some "c") sampler 5 none controller).0.disk
          saved
          m
          run
        ≡ ok tt)
unfolding same_set
compatible_example =
    save_operation-compatible config 4 "m" run (some "c") sampler 5 none controller saved
      ("q_proj" ∷ []) ("q_proj" ∷ []) [] save_returned refl modules_read parameters_read refl refl

server-IsKeyed : IsKeyed server.future_store.records
unfolding Dict.get
server-IsKeyed k r h = ground (arith, eq_iff "f" k)

settled_example :
    IsKeyed (restore_from_checkpoints config futures server).0.future_store.records
    × ((id : String) (r : FutureRecord ℕ)
        → Dict.get (restore_from_checkpoints config futures server).0.future_store.records id
          ≡ some r
        → (is_pending r.status && is_sample r.operation_type) ≡ false)
settled_example = restore_from_checkpoints-Settled config futures server server-IsKeyed

late_lem : late ≢ run.next_seq_id
late_lem p = ground (arith, p)

base_known : Dict.get controller.training_backends "base" ≡ some 0
unfolding Dict.get
base_known = refl

base_capable : require_training_capability config.supported_models run.base_model ≡ ok tt
unfolding require_training_capability
base_capable = refl

run_resumable : has_legacy_lora_state run ≡ false
unfolding has_legacy_lora_state
run_resumable = refl

run-next_example :
    ((run_forward config 4 "m" run.model_owner 7 (some run.next_seq_id) controller).1
      ≡ (config.api.forward "m" 7 0).1)
    × ((run_forward config 4 "m" run.model_owner 7 none controller).1
        ≡ (config.api.forward "m" 7 0).1)
    × ((run_optim_step config 4 "m" run.model_owner 1 (some run.next_seq_id) controller).1
        ≡ (config.api.optim_step "m" 1 0).1)
    × ((run_optim_step config 4 "m" run.model_owner 1 none controller).1
        ≡ (config.api.optim_step "m" 1 0).1)
    × (run_forward config 4 "m" run.model_owner 7 (some late) controller ≡ (
      (update_activity config 4 "m" run.model_owner controller).0,
      err (sequence_conflict run.next_seq_id late),
    ))
    × (run_optim_step config 4 "m" run.model_owner 1 (some late) controller ≡ (
      (update_activity config 4 "m" run.model_owner controller).0,
      err (sequence_conflict run.next_seq_id late),
    ))
run-next_example =
    run-next config 4 "m" "base" controller run 0 the_run base_capable run_resumable refl base_known
      7 1 late late_lem

load_checkpoint_test :
    ((load_checkpoint config "m" ann path_c true (some 1) stocked).1 ≡ ok tt)
    × ((load_checkpoint config "m" bob path_c true (some 1) stocked).1
        ≡ err (checkpoint_access_denied "c"))
unfolding load_checkpoint Dict.get
load_checkpoint_test = (refl, refl)
