-- ===== src/Training/Answers.antt =====
-- What a training operation of src/tuft/training_controller.py answers to the owner of a run.
use tu_ft.Base.{
  ℕ, String, ◌≡◌, ◌≢◌, refl, ap, ◌∙◌, true, false, Option, none, some, str_eq_self, arith,
}
use tu_ft.Dict
use tu_ft.Errors.{sequence_conflict, Result, ok, err}
use tu_ft.Training.{
  Env, TrainingController, TrainingRunRecord, get_run_record, require_training_capability,
  has_legacy_lora_state, require_resumable_run, update_activity, update_run, save_training_run,
  check_seq, finish_guard, with_sequence_guard, on_backend,
}
use tu_ft.Training.Runs.{begin_operation, guarded_call, run_forward, run_optim_step}

module _ {B W T C Q A P O : Type 0} (env : Env B W T C Q A P O) where
  result-finish_guard {ℓ} :
      {X : Type ℓ} (model_id : String) (seq_id : Option ℕ) (s : TrainingController B W T C)
      (o : Result X)
      → (finish_guard env model_id seq_id (s, o)).1 ≡ o
  unfolding finish_guard
  result-finish_guard model_id seq_id s (ok x) = refl
  result-finish_guard model_id seq_id s (err e) = refl

  backends-update_activity :
      (now : ℕ) (model_id user_id : String) (s : TrainingController B W T C)
      → (update_activity env now model_id user_id s).0.training_backends ≡ s.training_backends
  unfolding update_activity update_run save_training_run get_run_record
  backends-update_activity now model_id user_id s = ground arith

  module _ (now : ℕ) (model_id name : String) (s : TrainingController B W T C)
      (r : TrainingRunRecord) (b : B) (here : Dict.get s.training_runs model_id ≡ some r)
      (capable : require_training_capability env.supported_models r.base_model ≡ ok tt)
      (resumable : has_legacy_lora_state r ≡ false) (linked : r.backend ≡ some name)
      (known : Dict.get s.training_backends name ≡ some b) where
    begun :
        begin_operation env now model_id r.model_owner s
        ≡ ((update_activity env now model_id r.model_owner s).0, ok r)
    unfolding begin_operation
    begun = rw (mine, capable, fine, begin_operation) refl
      where
        mine : get_run_record model_id r.model_owner true s ≡ ok r
        mine = unfold get_run_record in ground (arith, here, str_eq_self r.model_owner)

        fine : require_resumable_run r ≡ ok tt
        fine = unfold require_resumable_run in ground (arith, resumable)

    result-guarded_call {ℓ} :
        {X : Type ℓ} (seq_id : Option ℕ) (call : B → B × Result X)
        → check_seq seq_id r ≡ none
        → (guarded_call env model_id seq_id call
            ((update_activity env now model_id r.model_owner s).0, ok r)).1
          ≡ (call b).1
    unfolding guarded_call
    result-guarded_call seq_id call fine =
        rw (fine, with_sequence_guard)
          (result-finish_guard model_id seq_id _ _
            ∙ rw
                (
                  linked,
                  ap (λ d. Dict.get d name) (backends-update_activity now model_id r.model_owner s)
                      ∙ known,
                  on_backend,
                )
                refl)

    -- For the owner of a run with complete geometry, whose model may train and whose backend is
    -- there: `run_forward` and `run_optim_step` with the run's next number, or with none, answer what
    -- the backend returns or raises; with any other number they raise a conflict that names the
    -- expected number, and change no more than the time of the request.
    pub run-next :
        (q : Q) (p : P) (number : ℕ)
        → number ≢ r.next_seq_id
        → ((run_forward env now model_id r.model_owner q (some r.next_seq_id) s).1
            ≡ (env.api.forward model_id q b).1)
          × ((run_forward env now model_id r.model_owner q none s).1
              ≡ (env.api.forward model_id q b).1)
          × ((run_optim_step env now model_id r.model_owner p (some r.next_seq_id) s).1
              ≡ (env.api.optim_step model_id p b).1)
          × ((run_optim_step env now model_id r.model_owner p none s).1
              ≡ (env.api.optim_step model_id p b).1)
          × (run_forward env now model_id r.model_owner q (some number) s ≡ (
            (update_activity env now model_id r.model_owner s).0,
            err (sequence_conflict r.next_seq_id number),
          ))
          × (run_optim_step env now model_id r.model_owner p (some number) s ≡ (
            (update_activity env now model_id r.model_owner s).0,
            err (sequence_conflict r.next_seq_id number),
          ))
    unfolding run_forward run_optim_step
    run-next q p number other = (
      ap (λ a. (guarded_call env model_id (some r.next_seq_id) (env.api.forward model_id q) a).1)
            begun
          ∙ result-guarded_call (some r.next_seq_id) (env.api.forward model_id q) in_turn,
      ap (λ a. (guarded_call env model_id none (env.api.forward model_id q) a).1) begun
          ∙ result-guarded_call none (env.api.forward model_id q) unnumbered,
      ap (λ a. (guarded_call env model_id (some r.next_seq_id) (env.api.optim_step model_id p) a).1)
            begun
          ∙ result-guarded_call (some r.next_seq_id) (env.api.optim_step model_id p) in_turn,
      ap (λ a. (guarded_call env model_id none (env.api.optim_step model_id p) a).1) begun
          ∙ result-guarded_call none (env.api.optim_step model_id p) unnumbered,
      ap (λ a. guarded_call env model_id (some number) (env.api.forward model_id q) a) begun
          ∙ conflict (env.api.forward model_id q),
      ap (λ a. guarded_call env model_id (some number) (env.api.optim_step model_id p) a) begun
          ∙ conflict (env.api.optim_step model_id p),
    )
      where
        in_turn : check_seq (some r.next_seq_id) r ≡ none
        in_turn = unfold check_seq in ground arith

        unnumbered : check_seq none r ≡ none
        unnumbered = unfold check_seq in refl

        out_of_turn : check_seq (some number) r ≡ some (sequence_conflict r.next_seq_id number)
        out_of_turn = unfold check_seq in ground arith

        conflict :
            {X : Type 0} (call : B → B × Result X)
            → guarded_call env model_id
                (some number)
                call
                ((update_activity env now model_id r.model_owner s).0, ok r)
              ≡ (
                (update_activity env now model_id r.model_owner s).0,
                err (sequence_conflict r.next_seq_id number),
              )
        conflict call = unfold guarded_call in rw (out_of_turn, with_sequence_guard) refl
