-- ===== src/Training/Runs/Unloaded.antt =====
-- What `unload_model` of src/tuft/training_controller.py leaves of the runs.
use tu_ft.Base.{
  String, ◌≡◌, refl, ◌∙◌, ap, Bool, ◌&&◌, Option, none, some, str_eq, if◌then◌else◌, Option-cases,
  Bool-cases, inl, inr,
}
use tu_ft.Dict
use tu_ft.Dict.{get-pop}
use tu_ft.Errors.{Result, ok, err, is_ok}
use tu_ft.Training.{Env, TrainingController, on_backend}
use tu_ft.Training.Runs.{forget_run, delete_training_run, unload_model}

-- What is left under an id, where `gone` says that the run was unloaded.
abbrev pub unless {ℓ} : {V : Type ℓ} → Bool → Option V → Option V
unless gone v = if gone then none else v

module _ {B W T C Q A P O : Type 0} (env : Env B W T C Q A P O) where
  on_backend-runs {ℓ} :
      {X : Type ℓ} (model_id : String) (name : Option String) (call : B → B × Result X)
      (s : TrainingController B W T C)
      → ((on_backend env model_id name call s).0.training_runs ≡ s.training_runs)
        × ((on_backend env model_id name call s).0.redis ≡ s.redis)
  unfolding on_backend
  on_backend-runs model_id none call s = (refl, refl)
  on_backend-runs model_id (some name) call s =
      elim (Option-cases (Dict.get s.training_backends name)) [
        | inl e ↦ rw (on_backend, e) (refl, refl)
        | inr (b, e) ↦ rw (on_backend, e) (refl, refl)
      ]

  forget_run-runs :
      (model_id id : String) (s : TrainingController B W T C × Result (Unit {0}))
      → (Dict.get (forget_run env model_id s).0.training_runs id
          ≡ unless
              (is_ok (forget_run env model_id s).1 && str_eq model_id id)
              (Dict.get s.0.training_runs id))
        × (Dict.get (forget_run env model_id s).0.redis id
            ≡ unless
                (is_ok (forget_run env model_id s).1
                  && (env.run_codec.enabled && str_eq model_id id))
                (Dict.get s.0.redis id))
  unfolding forget_run delete_training_run
  forget_run-runs model_id id (s, err e) = (refl, refl)
  forget_run-runs model_id id (s, ok u) = (
    get-pop s.training_runs model_id id,
    elim (Bool-cases env.run_codec.enabled) [
      | inl e ↦ rw e (get-pop s.redis model_id id)
      | inr e ↦ rw e refl
    ],
  )

  forget_run-kept :
      (model_id id : String) (s : TrainingController B W T C)
      (t : TrainingController B W T C × Result (Unit {0}))
      → t.0.training_runs ≡ s.training_runs
      → t.0.redis ≡ s.redis
      → (Dict.get (forget_run env model_id t).0.training_runs id
          ≡ unless
              (is_ok (forget_run env model_id t).1 && str_eq model_id id)
              (Dict.get s.training_runs id))
        × (Dict.get (forget_run env model_id t).0.redis id
            ≡ unless
                (is_ok (forget_run env model_id t).1
                  && (env.run_codec.enabled && str_eq model_id id))
                (Dict.get s.redis id))
  forget_run-kept model_id id s t p q =
      let result = forget_run env model_id t in
      let left = forget_run-runs model_id id t in
      (
        left.0 ∙ ap (λ d. unless (is_ok result.1 && str_eq model_id id) (Dict.get d id)) p,
        left.1
            ∙ ap
                (λ d.
                  unless (is_ok result.1 && (env.run_codec.enabled && str_eq model_id id))
                    (Dict.get d id))
                q,
      )

  -- For every state and all ids: where `unload_model` returns, the run is gone from memory, and from
  -- Redis where it is enabled, and every other run is what it was in both; where it raises, all are.
  pub unload_model-runs :
      (model_id user_id id : String) (s : TrainingController B W T C)
      → (Dict.get (unload_model env model_id user_id s).0.training_runs id
          ≡ unless
              (is_ok (unload_model env model_id user_id s).1 && str_eq model_id id)
              (Dict.get s.training_runs id))
        × (Dict.get (unload_model env model_id user_id s).0.redis id
            ≡ unless
                (is_ok (unload_model env model_id user_id s).1
                  && (env.run_codec.enabled && str_eq model_id id))
                (Dict.get s.redis id))
  unfolding unload_model
  unload_model-runs model_id user_id id s =
      elim (Option-cases (Dict.get s.training_runs model_id)) [
        | inl e ↦ rw (unload_model, e) (refl, refl)
        | inr (r, e) ↦ elim (Bool-cases (str_eq r.model_owner user_id)) [
          | inr h ↦ rw (unload_model, e, h) (refl, refl)
          | inl h ↦
              rw (unload_model, e, h)
                (elim (Option-cases r.backend) [
                  | inl n ↦ rw n (forget_run-runs model_id id (s, ok tt))
                  | inr (name, n) ↦
                      let call = env.api.remove_adapter model_id in
                      let kept = on_backend-runs model_id (some name) call s in
                      rw n (
                        forget_run-kept model_id id s (on_backend env model_id (some name) call s)
                          kept.0 kept.1)
                ])
        ]
      ]
