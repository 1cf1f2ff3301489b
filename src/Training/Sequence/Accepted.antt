-- ===== src/Training/Sequence/Accepted.antt =====
-- The numbers that a run accepts: `_with_sequence_guard` of src/tuft/training_controller.py under a
-- history of calls.
use tu_ft.Base.{
  ℕ, suc, ◌+◌, String, ◌≡◌, refl, ap, ◌∙◌, Bool, true, false, ◌&&◌, Option, none, some, List, [],
  ◌∷◌, str_eq, eq_iff, if-both, is_some, arith, length, inl, inr, Bool-cases,
}
use tu_ft.Dict
use tu_ft.Dict.{Dict}
use tu_ft.Errors.{Result, ok, err, is_ok, Result-both}
use tu_ft.Checkpoints.{CheckpointType, training, sampler, CheckpointRecord, CheckpointMetadata}
use tu_ft.Training.{
  Env, TrainingController, TrainingRunRecord, get_run_record, update_run,
  require_training_capability, require_resumable_run, on_backend, update_activity,
}
use tu_ft.Training.Runs.{begin_operation, guarded_call, run_forward, run_optim_step}
use tu_ft.Training.Weights.{
  save_checkpoint, save_operation, new_checkpoint, add_checkpoint, write_state, record_checkpoint,
  save_training_run_with_checkpoint, save_checkpoint_record, set_collection, collection,
  advance_counter,
}
use tu_ft.Training.Weights.Compatible.{
  load_checkpoint, check_adapter_compatible, load_operation, load_into, find_checkpoint,
}
use tu_ft.Training.Sequence.{
  next_of, seq_at, Keeps, Counted, refused-Counted, Keeps-Counted, update_run-Keeps,
  save_training_run-Keeps, on_backend-Keeps, with_sequence_guard-Counted,
}
use tu_ft.Training.Sequence.Calls.{
  Call, Operation, accepted, count_from, forward, load, number_in, optim_step, perform, perform_all,
  save,
}

module _ {B W T C Q A P O : Type 0} (env : Env B W T C Q A P O) where
  -- What a checked lookup gives is the run under that id.
  seq_at-get_run_record :
      (model_id user_id : String) (enforce : Bool) (s : TrainingController B W T C)
      (r : TrainingRunRecord)
      → get_run_record model_id user_id enforce s ≡ ok r
      → Dict.get s.training_runs model_id ≡ some r
  unfolding get_run_record
  seq_at-get_run_record model_id user_id enforce s r h = ground arith

  -- How the checks before a guarded call leave the numbers.
  abbrev Began :
      String
      → TrainingController B W T C
      → TrainingController B W T C × Result TrainingRunRecord
      → Type 0
  Began model_id s (t, err e) = t ≡ s
  Began model_id s (t, ok r) = Keeps s t × (seq_at model_id s ≡ some r.next_seq_id)

  update_activity-Keeps :
      (now : ℕ) (model_id user_id : String) (s : TrainingController B W T C)
      → Keeps s (update_activity env now model_id user_id s).0
  unfolding update_activity
  update_activity-Keeps now model_id user_id s =
      Result-both {Y = TrainingController B W T C × Result (Unit {0})} (λ t. Keeps s t.0)
        (get_run_record model_id user_id true s) (λ e h j. refl)
        (λ r h j.
          save_training_run-Keeps env model_id
            (update_run model_id (λ r. record r { last_request_time = now }) s) j
          ∙ update_run-Keeps model_id (λ r. record r { last_request_time = now }) s (λ r. refl) j)

  begin_operation-Began :
      (now : ℕ) (model_id user_id : String) (s : TrainingController B W T C)
      → Began model_id s (begin_operation env now model_id user_id s)
  unfolding begin_operation
  begin_operation-Began now model_id user_id s =
      Result-both (Began model_id s) (get_run_record model_id user_id true s) (λ e h. refl)
        (λ r found.
          Result-both (Began model_id s)
            (require_training_capability env.supported_models r.base_model) (λ e h. refl)
            (λ u h.
              Result-both (Began model_id s) (require_resumable_run r) (λ e h. refl)
                (λ v h. (
                  update_activity-Keeps now model_id user_id s,
                  ap next_of (seq_at-get_run_record model_id user_id true s r found),
                ))))

  abbrev CountedCall {ℓ} :
      {X : Type ℓ}
      → String
      → Option ℕ
      → TrainingController B W T C
      → TrainingController B W T C × Result X
      → Type 0
  CountedCall model_id seq_id s t = Counted model_id seq_id s t.0 (is_ok t.1)

  guarded_call-Counted {ℓ} :
      {X : Type ℓ} (model_id : String) (seq_id : Option ℕ) (call : B → B × Result X)
      (s t : TrainingController B W T C) (o : Result TrainingRunRecord)
      → Began model_id s (t, o)
      → CountedCall model_id seq_id s (guarded_call env model_id seq_id call (t, o))
  unfolding guarded_call
  guarded_call-Counted model_id seq_id call s t (err e) began =
      rw began (refused-Counted model_id seq_id s)
  guarded_call-Counted {X = X} model_id seq_id call s t (ok r) began =
      Keeps-Counted model_id seq_id s t _ _ began.0 (
        with_sequence_guard-Counted env model_id r seq_id (on_backend env model_id r.backend call) t
          (began.0 model_id ∙ began.1) (on_backend-Keeps env model_id r.backend call t))

  load_operation-Keeps :
      (model_id : String) (r : TrainingRunRecord) (c : CheckpointRecord) (m : CheckpointMetadata)
      (optimizer : Bool) (s : TrainingController B W T C)
      → Keeps s (load_operation env model_id r c m optimizer s).0
  unfolding load_operation
  load_operation-Keeps model_id r c m optimizer s =
      Result-both {Y = TrainingController B W T C × Result (Unit {0})} (λ t. Keeps s t.0)
        (check_adapter_compatible env s.disk c m r) (λ e h j. refl)
        (λ u h. on_backend-Keeps env model_id r.backend _ s)

  load_into-Counted :
      (model_id user_id : String) (c : CheckpointRecord) (m : CheckpointMetadata) (optimizer : Bool)
      (seq_id : Option ℕ) (s : TrainingController B W T C)
      → CountedCall model_id seq_id s (load_into env model_id user_id c m optimizer seq_id s)
  unfolding load_into
  load_into-Counted model_id user_id c m optimizer seq_id s =
      Result-both (CountedCall model_id seq_id s) (get_run_record model_id user_id true s)
        (λ e h. refused-Counted model_id seq_id s)
        (λ r found.
          Result-both (CountedCall model_id seq_id s)
            (require_training_capability env.supported_models r.base_model)
            (λ e h. refused-Counted model_id seq_id s)
            (λ u h.
              Result-both (CountedCall model_id seq_id s) (require_resumable_run r)
                (λ e h. refused-Counted model_id seq_id s)
                (λ v h.
                  if-both (CountedCall model_id seq_id s) (is_some r.backend)
                    (with_sequence_guard-Counted env model_id r seq_id
                      (load_operation env model_id r c m optimizer) s
                      (ap next_of (seq_at-get_run_record model_id user_id true s r found))
                      (load_operation-Keeps model_id r c m optimizer s))
                    (refused-Counted model_id seq_id s))))

  write_state-Keeps :
      (r : TrainingRunRecord) (c : CheckpointRecord) (s : TrainingController B W T C)
      → Keeps s (write_state env r c s).0
  unfolding write_state
  write_state-Keeps r c s j = ground arith

  save_training_run_with_checkpoint-Keeps :
      (kind : CheckpointType) (model_id : String) (c : CheckpointRecord)
      (s : TrainingController B W T C)
      → Keeps s (save_training_run_with_checkpoint env kind model_id c s)
  unfolding save_training_run_with_checkpoint save_checkpoint_record
  save_training_run_with_checkpoint-Keeps training model_id c s j =
      ground (arith, save_training_run-Keeps env model_id s j)
  save_training_run_with_checkpoint-Keeps sampler model_id c s j =
      ground (arith, save_training_run-Keeps env model_id s j)

  add_checkpoint-Keeps :
      (model_id : String) (c : CheckpointRecord) (s : TrainingController B W T C)
      → Keeps s (add_checkpoint env model_id c s)
  unfolding add_checkpoint set_collection
  add_checkpoint-Keeps model_id c s =
      update_run-Keeps model_id
        (λ r.
          set_collection c.checkpoint_type
            (Dict.put (collection c.checkpoint_type r) c.checkpoint_id c) r)
        s (λ r. set_collection-keeps c.checkpoint_type _ r)
    where
      set_collection-keeps :
          (kind : CheckpointType) (d : Dict CheckpointRecord) (r : TrainingRunRecord)
          → (set_collection kind d r).next_seq_id ≡ r.next_seq_id
      set_collection-keeps training d r = refl
      set_collection-keeps sampler d r = refl

  record_checkpoint-Keeps :
      (model_id : String) (r : TrainingRunRecord) (c : CheckpointRecord)
      (t : TrainingController B W T C) (o : Result (Unit {0}))
      → Keeps t (record_checkpoint env model_id r c (t, o)).0
  unfolding record_checkpoint
  record_checkpoint-Keeps model_id r c t (err e) j = refl
  record_checkpoint-Keeps model_id r c t (ok u) j =
      save_training_run_with_checkpoint-Keeps c.checkpoint_type model_id _ _ j
      ∙ add_checkpoint-Keeps model_id _ _ j

  save_operation-Keeps :
      (now : ℕ) (model_id : String) (r : TrainingRunRecord) (name : Option String)
      (kind : CheckpointType) (future_id : ℕ) (seq_id : Option ℕ) (s : TrainingController B W T C)
      → Keeps s (save_operation env now model_id r name kind future_id seq_id s).0
  unfolding save_operation advance_counter
  save_operation-Keeps now model_id r name kind future_id seq_id s j =
      record_checkpoint-Keeps model_id r (new_checkpoint env now r name kind future_id seq_id) _ _ j
      ∙ write_state-Keeps r (new_checkpoint env now r name kind future_id seq_id) _ j
      ∙ update_run-Keeps model_id (advance_counter kind) s (advanced kind) j
    where
      advanced :
          (kind : CheckpointType) (r : TrainingRunRecord)
          → (advance_counter kind r).next_seq_id ≡ r.next_seq_id
      advanced training r = refl
      advanced sampler r = refl

  save_checkpoint-Counted :
      (now : ℕ) (model_id user_id : String) (name : Option String) (kind : CheckpointType)
      (future_id : ℕ) (seq_id : Option ℕ) (s : TrainingController B W T C)
      → CountedCall model_id seq_id s
          (save_checkpoint env now model_id user_id name kind future_id seq_id s)
  unfolding save_checkpoint
  save_checkpoint-Counted now model_id user_id name kind future_id seq_id s =
      Result-both (CountedCall model_id seq_id s) (get_run_record model_id user_id true s)
        (λ e h. refused-Counted model_id seq_id s)
        (λ r found.
          Result-both (CountedCall model_id seq_id s)
            (require_training_capability env.supported_models r.base_model)
            (λ e h. refused-Counted model_id seq_id s)
            (λ u h.
              Result-both (CountedCall model_id seq_id s) (require_resumable_run r)
                (λ e h. refused-Counted model_id seq_id s)
                (λ v h.
                  if-both (CountedCall model_id seq_id s) r.corrupted
                    (refused-Counted model_id seq_id s)
                    (with_sequence_guard-Counted env model_id r seq_id
                      (save_operation env now model_id r name kind future_id seq_id) s
                      (ap next_of (seq_at-get_run_record model_id user_id true s r found))
                      (save_operation-Keeps now model_id r name kind future_id seq_id s)))))

  perform-Counted :
      (c : Call Q P) (s : TrainingController B W T C)
      → Counted c.model_id c.seq_id s (perform env c s).0 (perform env c s).1
  unfolding perform run_forward run_optim_step load_checkpoint
  perform-Counted c s = by_operation c.operation
    where
      by_operation :
          (o : Operation Q P)
          → Counted c.model_id c.seq_id s
              (perform env (record c { operation = o }) s).0
              (perform env (record c { operation = o }) s).1
      by_operation (forward q) =
          guarded_call-Counted c.model_id c.seq_id (env.api.forward c.model_id q) s _ _
            (begin_operation-Began c.now c.model_id c.user_id s)
      by_operation (optim_step p) =
          guarded_call-Counted c.model_id c.seq_id (env.api.optim_step c.model_id p) s _ _
            (begin_operation-Began c.now c.model_id c.user_id s)
      by_operation (save name kind future_id) =
          save_checkpoint-Counted c.now c.model_id c.user_id name kind future_id c.seq_id s
      by_operation (load path optimizer) =
          Result-both (CountedCall c.model_id c.seq_id s)
            (find_checkpoint env c.model_id c.user_id path s)
            (λ e h. refused-Counted c.model_id c.seq_id s)
            (λ found h. load_into-Counted c.model_id c.user_id found.0 found.1 optimizer c.seq_id s)

  -- The numbers `given` go up by one from `n`, and `after` is the state with the one that follows.
  abbrev InOrder : String → ℕ → List ℕ → TrainingController B W T C → Type 0
  InOrder model_id n given after =
      (given ≡ count_from n (length given)) × (seq_at model_id after ≡ some (n + length given))

  -- For every state, every history of calls of the operations that take a `seq_id` on any runs, by
  -- any users, whatever the backends return or raise, and every run that has next number `n` at the
  -- start: the numbers of the calls on the run that returned are n, n + 1, … in this order, with no
  -- gap and no repetition, and the next number at the end is the one after the last of them.
  pub accepted-consecutive :
      (model_id : String) (n : ℕ) (calls : List (Call Q P)) (s : TrainingController B W T C)
      → seq_at model_id s ≡ some n
      → (accepted env model_id calls s ≡ count_from n (length (accepted env model_id calls s)))
        × (seq_at model_id (perform_all env calls s)
            ≡ some (n + length (accepted env model_id calls s)))
  unfolding perform_all accepted count_from
  accepted-consecutive model_id n [] s at = (refl, at ∙ ap some (omega arith))
  accepted-consecutive model_id n (c ∷ rest) s at =
      by_call (perform env c s).1 c.seq_id (perform-Counted c s)
        (λ m. accepted-consecutive model_id m rest (perform env c s).0)
    where
      by_call :
          (returned : Bool) (seq_id : Option ℕ)
          → Counted c.model_id seq_id s (perform env c s).0 returned
          → ((m : ℕ)
              → seq_at model_id (perform env c s).0 ≡ some m
              → InOrder model_id m
                  (accepted env model_id rest (perform env c s).0)
                  (perform_all env rest (perform env c s).0))
          → InOrder model_id n
              (number_in seq_id
                (returned && str_eq c.model_id model_id)
                (accepted env model_id rest (perform env c s).0))
              (perform_all env rest (perform env c s).0)
      by_call true none counted later = later n (counted model_id ∙ at)
      by_call false none counted later = later n (counted model_id ∙ at)
      by_call false (some q) counted later = later n (counted model_id ∙ at)
      by_call true (some q) counted later = elim (Bool-cases (str_eq c.model_id model_id)) [
        | inl here ↦
            let same = (eq_iff c.model_id model_id).0 here in
            let number : q ≡ n = ground (arith, counted.0, ap (λ i. seq_at i s) same) in
            let next : seq_at model_id (perform env c s).0 ≡ some (suc n) =
              counted.1 model_id ∙ rw here (ap (λ i. some (suc i)) number) in
            rw here (
              ap (λ i. i ∷ accepted env model_id rest (perform env c s).0) number
                  ∙ ap (λ l. n ∷ l) (later (suc n) next).0,
              (later (suc n) next).1 ∙ ap some (omega arith),
            )
        | inr other ↦ rw other (later n (counted.1 model_id ∙ rw other at))
      ]
