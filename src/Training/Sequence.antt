-- ===== src/Training/Sequence.antt =====
-- The order of the operations of a run: `seq_id` and `_with_sequence_guard` in
-- src/tuft/training_controller.py.
pub mod Calls
pub mod Accepted
use tu_ft.Base.{
  ℕ, suc, ◌+◌, String, ◌≡◌, ◌⊎◌, refl, sym, ap, ◌∙◌, subst, Bool, true, false, ◌&&◌, Option, none,
  some, List, [], ◌∷◌, str_eq, eq_iff, ◌==◌, opt_map, if◌then◌else◌, arith, length, inl, inr,
  Bool-cases,
}
use tu_ft.Dict
use tu_ft.Dict.{Dict, get-put}
use tu_ft.Errors.{Error, Result, ok, err, is_ok}
use tu_ft.Persistence.{save_record}
use tu_ft.Checkpoints.{CheckpointType, training, sampler, CheckpointRecord, CheckpointMetadata}
use tu_ft.Training.{
  Env, TrainingController, TrainingRunRecord, update_run, save_training_run, advance_seq, check_seq,
  finish_guard, with_sequence_guard, on_backend, update_activity, get_run_record,
}

-- The number that the next operation of a run has to have.
abbrev pub next_of : Option TrainingRunRecord → Option ℕ
next_of none = none
next_of (some r) = some r.next_seq_id

module _ {B W T C : Type 0} where
  abbrev pub seq_at : String → TrainingController B W T C → Option ℕ
  seq_at model_id s = next_of (Dict.get s.training_runs model_id)

  -- No run's next number changes.
  abbrev pub Keeps : TrainingController B W T C → TrainingController B W T C → Type 0
  Keeps s t = (j : String) → seq_at j t ≡ seq_at j s

  -- What an operation on `model_id` with an optional number may do to the next numbers, by whether
  -- it returned.
  abbrev pub Counted :
      String → Option ℕ → TrainingController B W T C → TrainingController B W T C → Bool → Type 0
  Counted model_id none s t returned = Keeps s t
  Counted model_id (some q) s t false = Keeps s t
  Counted model_id (some q) s t true =
      (seq_at model_id s ≡ some q)
      × ((j : String) → seq_at j t ≡ (if str_eq model_id j then some (suc q) else seq_at j s))

  -- A call that is refused changes nothing.
  pub refused-Counted :
      (model_id : String) (seq_id : Option ℕ) (s : TrainingController B W T C)
      → Counted model_id seq_id s s false
  refused-Counted model_id none s = λ j. refl
  refused-Counted model_id (some q) s = λ j. refl

  -- What keeps the numbers may come before.
  pub Keeps-Counted :
      (model_id : String) (seq_id : Option ℕ) (s t u : TrainingController B W T C) (returned : Bool)
      → Keeps s t
      → Counted model_id seq_id t u returned
      → Counted model_id seq_id s u returned
  Keeps-Counted model_id none s t u returned k c = λ j. c j ∙ k j
  Keeps-Counted model_id (some q) s t u false k c = λ j. c j ∙ k j
  Keeps-Counted model_id (some q) s t u true k c =
      (sym (k model_id) ∙ c.0, λ j. c.1 j ∙ ground (arith, k j))

  pub get-update_run :
      (model_id : String) (f : TrainingRunRecord → TrainingRunRecord)
      (s : TrainingController B W T C) (j : String)
      → Dict.get (update_run model_id f s).training_runs j ≡ (
          if str_eq model_id j
          then opt_map f (Dict.get s.training_runs model_id)
          else Dict.get s.training_runs j)
  unfolding update_run
  get-update_run model_id f s j = by_run (Dict.get s.training_runs model_id) refl
    where
      by_run :
          (o : Option TrainingRunRecord)
          → Dict.get s.training_runs model_id ≡ o
          → Dict.get
              (elim o as (λ _. TrainingController B W T C) [
                | none ↦ s
                | some r ↦ record s { training_runs = Dict.put s.training_runs model_id (f r) }
              ]).training_runs
              j
            ≡ (if str_eq model_id j then opt_map f o else Dict.get s.training_runs j)
      by_run none e = ground (arith, eq_iff model_id j, e)
      by_run (some r) e = get-put s.training_runs model_id j (f r)

  pub update_run-Keeps :
      (model_id : String) (f : TrainingRunRecord → TrainingRunRecord)
      (s : TrainingController B W T C)
      → ((r : TrainingRunRecord) → (f r).next_seq_id ≡ r.next_seq_id)
      → Keeps s (update_run model_id f s)
  update_run-Keeps model_id f s same j =
      ap next_of (get-update_run model_id f s j) ∙ elim (Bool-cases (str_eq model_id j)) [
        | inl here ↦ rw (here, (eq_iff model_id j).0 here) (mapped (Dict.get s.training_runs j))
        | inr other ↦ rw other refl
      ]
    where
      mapped : (o : Option TrainingRunRecord) → next_of (opt_map f o) ≡ next_of o
      mapped none = refl
      mapped (some r) = ap some (same r)

module _ {B W T C Q A P O : Type 0} (env : Env B W T C Q A P O) where
  pub save_training_run-Keeps :
      (model_id : String) (s : TrainingController B W T C)
      → Keeps s (save_training_run env model_id s)
  unfolding save_training_run
  save_training_run-Keeps model_id s j = ground arith

  pub on_backend-Keeps {ℓ} :
      {X : Type ℓ} (model_id : String) (name : Option String) (call : B → B × Result X)
      (s : TrainingController B W T C)
      → Keeps s (on_backend env model_id name call s).0
  unfolding on_backend
  on_backend-Keeps model_id none call s j = refl
  on_backend-Keeps model_id (some name) call s j = ground arith

  finish_guard-Counted {ℓ} :
      {X : Type ℓ} (model_id : String) (r : TrainingRunRecord) (seq_id : Option ℕ)
      (s t : TrainingController B W T C) (result : Result X)
      → seq_at model_id s ≡ some r.next_seq_id
      → check_seq seq_id r ≡ none
      → Keeps s t
      → Counted model_id seq_id s
          (finish_guard env model_id seq_id (t, result)).0
          (is_ok (finish_guard env model_id seq_id (t, result)).1)
  unfolding finish_guard check_seq advance_seq
  finish_guard-Counted model_id r none s t (err e) at fine kept = kept
  finish_guard-Counted model_id r (some q) s t (err e) at fine kept = kept
  finish_guard-Counted model_id r none s t (ok x) at fine kept = λ j.
      save_training_run-Keeps model_id (update_run model_id (advance_seq none) t) j
      ∙ update_run-Keeps model_id (advance_seq none) t (λ r. refl) j
      ∙ kept j
  finish_guard-Counted model_id r (some q) s t (ok x) at fine kept = (
    at ∙ ap some (sym number),
    λ j.
        save_training_run-Keeps model_id (update_run model_id (advance_seq (some q)) t) j
        ∙ ap next_of (get-update_run model_id (advance_seq (some q)) t j)
        ∙ by_key j (Bool-cases (str_eq model_id j)),
  )
    where
      number : q ≡ r.next_seq_id
      number = ground arith

      advanced :
          (o : Option TrainingRunRecord)
          → next_of o ≡ some q
          → next_of (opt_map (advance_seq (some q)) o) ≡ some (suc q)
      advanced none e = ground arith
      advanced (some r) e = ground arith

      by_key :
          (j : String)
          → (str_eq model_id j ≡ true) ⊎ (str_eq model_id j ≡ false)
          → next_of (
              if str_eq model_id j
              then opt_map (advance_seq (some q)) (Dict.get t.training_runs model_id)
              else Dict.get t.training_runs j)
            ≡ (if str_eq model_id j then some (suc q) else seq_at j s)
      by_key j (inl here) =
          rw here (
            advanced (Dict.get t.training_runs model_id)
              (kept model_id ∙ at ∙ ap some (sym number)))
      by_key j (inr other) = rw other (kept j)

  -- An operation that keeps the numbers, run under the guard.
  pub with_sequence_guard-Counted {ℓ} :
      {X : Type ℓ} (model_id : String) (r : TrainingRunRecord) (seq_id : Option ℕ)
      (operation : TrainingController B W T C → TrainingController B W T C × Result X)
      (s : TrainingController B W T C)
      → seq_at model_id s ≡ some r.next_seq_id
      → Keeps s (operation s).0
      → Counted model_id seq_id s
          (with_sequence_guard env model_id r seq_id operation s).0
          (is_ok (with_sequence_guard env model_id r seq_id operation s).1)
  unfolding with_sequence_guard
  with_sequence_guard-Counted {X = X} model_id r seq_id operation s at kept =
      by_check (check_seq seq_id r) refl
    where
      by_check :
          (o : Option Error)
          → check_seq seq_id r ≡ o
          → Counted model_id seq_id s
              (elim o as (λ _. TrainingController B W T C × Result X) [
                | some e ↦ (s, err e)
                | none ↦ finish_guard env model_id seq_id (operation s)
              ]).0
              (is_ok
                (elim o as (λ _. TrainingController B W T C × Result X) [
                  | some e ↦ (s, err e)
                  | none ↦ finish_guard env model_id seq_id (operation s)
                ]).1)
      by_check (some e) h = refused-Counted model_id seq_id s
      by_check none h =
          finish_guard-Counted model_id r seq_id s (operation s).0 (operation s).1 at h kept
