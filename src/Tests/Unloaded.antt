-- ===== src/Tests/Unloaded.antt =====
-- Unloading a run of a concrete controller.
use tu_ft.Base.{ℕ, ◌≡◌, refl, ◌&&◌, str_eq, [], ◌∷◌}
use tu_ft.Dict
use tu_ft.Errors.{ok, is_ok}
use tu_ft.Training.{TrainingController, TrainingRunRecord}
use tu_ft.Checkpoints.{CheckpointRecord}
use tu_ft.Training.Runs.{unload_model}
use tu_ft.Training.Runs.Unloaded.{unless, unload_model-runs}
use tu_ft.Tests.Bench.{ann, config, controller, run}

abbrev two_runs : TrainingController ℕ ℕ TrainingRunRecord CheckpointRecord
two_runs = record controller {
  training_runs = ("m", run) ∷ ("n", run) ∷ [];
  redis = ("m", run) ∷ ("n", run) ∷ [];
}

unload_model_test :
    ((unload_model config "m" ann two_runs).1 ≡ ok tt)
    × ((unload_model config "m" ann two_runs).0.training_runs ≡ ("n", run) ∷ [])
    × ((unload_model config "m" ann two_runs).0.redis ≡ ("n", run) ∷ [])
unfolding unload_model Dict.get Dict.pop
unload_model_test = (refl, refl, refl)

unload_model-runs_example :
    (Dict.get (unload_model config "m" ann two_runs).0.training_runs "n"
      ≡ unless
          (is_ok (unload_model config "m" ann two_runs).1 && str_eq "m" "n")
          (Dict.get two_runs.training_runs "n"))
    × (Dict.get (unload_model config "m" ann two_runs).0.redis "n"
        ≡ unless
            (is_ok (unload_model config "m" ann two_runs).1
              && (config.run_codec.enabled && str_eq "m" "n"))
            (Dict.get two_runs.redis "n"))
unload_model-runs_example = unload_model-runs config "m" ann "n" two_runs
