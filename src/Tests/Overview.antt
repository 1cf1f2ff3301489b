-- ===== src/Tests/Overview.antt =====
-- The overview of a session, on concrete controllers.
use tu_ft.Base.{ℕ, ◌≡◌, refl, ◌&&◌, none, [], ◌∷◌}
use tu_ft.Dict
use tu_ft.Dict.{test_at}
use tu_ft.Errors.{err, user_mismatch}
use tu_ft.Sessions.{SessionManager}
use tu_ft.Sampling.{SamplingController}
use tu_ft.Server.Overview.{
  get_session_overview, shows_run, shows_sampler, is_run_of, is_sampler_of, is_session_of,
  shows-get_session_overview,
}
use tu_ft.Tests.Bench.{ann, bob, controller}

abbrev sessions : SessionManager ℕ ℕ
sessions = record {
  sessions =
      (
        "s",
        record {
          session_id = "s";
          tags = [];
          user_metadata = 0;
          user_id = ann;
          sdk_version = "1";
          created_at = 3;
          last_heartbeat = 3;
        },
      )
      ∷ [];
  redis = [];
}

abbrev samplers : SamplingController ℕ ℕ
samplers = record {
  sampling_sessions =
      (
        "x",
        record {
          sampling_session_id = "x";
          session_id = "s";
          model_id = "x";
          base_model = "base";
          user_id = ann;
          model_path = none;
          session_seq_id = 0;
          last_seq_id = none;
          history = [];
          history_by_seq_id = [];
        },
      )
      ∷ [];
  base_backends = [];
  redis = [];
}

overview_of_stranger : get_session_overview "s" bob sessions controller samplers ≡ err user_mismatch
unfolding get_session_overview Dict.get
overview_of_stranger = refl

shows-get_session_overview_example :
    (shows_run "m" (get_session_overview "s" ann sessions controller samplers) ≡ (
      test_at (is_session_of ann) (Dict.get sessions.sessions "s")
      && test_at (is_run_of "s") (Dict.get controller.training_runs "m")))
    × (shows_sampler "m" (get_session_overview "s" ann sessions controller samplers) ≡ (
        test_at (is_session_of ann) (Dict.get sessions.sessions "s")
        && test_at (is_sampler_of "s") (Dict.get samplers.sampling_sessions "m")))
unfolding Dict.get
shows-get_session_overview_example =
    shows-get_session_overview "s" ann "m" sessions controller samplers (refl, tt) (refl, tt)
