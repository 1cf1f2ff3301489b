-- ===== src/Server/Overview.antt =====
-- src/tuft/state.py: the operations of `ServerState` that join several controllers.
use tu_ft.Base.{
  String, ◌≡◌, refl, Bool, false, ◌&&◌, List, str_eq, if◌then◌else◌, Option-cases, Bool-cases, inl,
  inr,
}
use tu_ft.Dict
use tu_ft.Dict.{Dict, elem, keys_where, test_at}
use tu_ft.Dict.Unique.{IsUnique, elem-keys_where}
use tu_ft.Errors.{Result, ok, err, user_mismatch}
use tu_ft.Sessions.{SessionManager, SessionRecord, require}
use tu_ft.Training
use tu_ft.Training.{TrainingController, TrainingRunRecord}
use tu_ft.Training.Runs
use tu_ft.Sampling
use tu_ft.Sampling.{SamplingController, SamplingSessionRecord}
use tu_ft.Sampling.Requests.{evict_model}

abbrev pub is_run_of : String → TrainingRunRecord → Bool
is_run_of session_id r = str_eq r.session_id session_id

abbrev pub is_sampler_of : String → SamplingSessionRecord → Bool
is_sampler_of session_id r = str_eq r.session_id session_id

abbrev pub is_session_of : {M : Type 0} → String → SessionRecord M → Bool
is_session_of user_id r = str_eq r.user_id user_id

module _ {M N B W T C S U : Type 0} where
  -- get_session_overview
  unfoldable pub get_session_overview :
      (session_id user_id : String)
      → SessionManager M N
      → TrainingController B W T C
      → SamplingController S U
      → Result (List String × List String)
  unfolding require keys_where
  get_session_overview session_id user_id sessions training sampling =
      elim (require session_id sessions) [
        | err e ↦ err e
        | ok r ↦
            if str_eq r.user_id user_id
            then ok (
              keys_where (is_run_of session_id) training.training_runs,
              keys_where (is_sampler_of session_id) sampling.sampling_sessions,
            )
            else err user_mismatch
      ]

-- unload_model, after the controller of the runs
unfoldable evict_unloaded :
    {S U P Q A X : Type 0}
    → Sampling.Env S U P Q A
    → (model_id user_id : String) → SamplingController S U
    → X × Result (Unit {0})
    → (X × SamplingController S U) × Result (Unit {0})
unfolding evict_model
evict_unloaded env model_id user_id sampling (training, err e) = ((training, sampling), err e)
evict_unloaded env model_id user_id sampling (training, ok u) =
    ((training, evict_model env model_id user_id sampling), ok u)

unfoldable pub unload_model :
    {B W T C Q A P O S U V Y Z : Type 0}
    → Training.Env B W T C Q A P O
    → Sampling.Env S U V Y Z
    → (model_id user_id : String) → TrainingController B W T C
    → SamplingController S U
    → (TrainingController B W T C × SamplingController S U) × Result (Unit {0})
unfolding Runs.unload_model evict_unloaded
unload_model env samplers model_id user_id training sampling =
    evict_unloaded samplers model_id user_id sampling
      (Runs.unload_model env model_id user_id training)

-- Whether the overview shows an id among the runs, and among the samplers.
abbrev pub shows_run : String → Result (List String × List String) → Bool
shows_run id (err e) = false
shows_run id (ok o) = elem o.0 id

abbrev pub shows_sampler : String → Result (List String × List String) → Bool
shows_sampler id (err e) = false
shows_sampler id (ok o) = elem o.1 id

-- Where the ids of the runs and of the samplers are distinct: a user is shown an id among the runs of
-- a session exactly if the session is the user's and the run under the id is of the session, and the
-- same for the samplers; of a session that is not there, or is another user's, nothing is shown.
pub shows-get_session_overview :
    {M N B W T C S U : Type 0} (session_id user_id id : String) (sessions : SessionManager M N)
    (training : TrainingController B W T C) (sampling : SamplingController S U)
    → IsUnique training.training_runs
    → IsUnique sampling.sampling_sessions
    → (shows_run id (get_session_overview session_id user_id sessions training sampling) ≡ (
        test_at (is_session_of user_id) (Dict.get sessions.sessions session_id)
        && test_at (is_run_of session_id) (Dict.get training.training_runs id)))
      × (shows_sampler id (get_session_overview session_id user_id sessions training sampling) ≡ (
          test_at (is_session_of user_id) (Dict.get sessions.sessions session_id)
          && test_at (is_sampler_of session_id) (Dict.get sampling.sampling_sessions id)))
unfolding get_session_overview require
shows-get_session_overview session_id user_id id sessions training sampling u v =
    elim (Option-cases (Dict.get sessions.sessions session_id)) [
      | inl e ↦ rw (get_session_overview, require, e) (refl, refl)
      | inr (r, e) ↦
          rw (get_session_overview, require, e)
            (elim (Bool-cases (str_eq r.user_id user_id)) [
              | inl h ↦ rw h (
                elem-keys_where (is_run_of session_id) training.training_runs id u,
                elem-keys_where (is_sampler_of session_id) sampling.sampling_sessions id v,
              )
              | inr h ↦ rw h (refl, refl)
            ])
    ]
