-- ===== src/Training/Sequence/Calls.antt =====
-- The guarded operations of src/tuft/training_controller.py as calls, and the numbers that a run
-- accepts over a history of calls.
use tu_ft.Base.{
  ℕ, zero, suc, String, Bool, true, false, ◌&&◌, Option, none, some, List, [], ◌∷◌, str_eq,
}
use tu_ft.Errors.{Result, is_ok}
use tu_ft.Checkpoints.{CheckpointType}
use tu_ft.Training.{Env, TrainingController}
use tu_ft.Training.Runs.{run_forward, run_optim_step}
use tu_ft.Training.Weights.{save_checkpoint}
use tu_ft.Training.Weights.Compatible.{ParsedPath, load_checkpoint}

-- A call of one of the operations that take a `seq_id`.
pub data Operation (Q P : Type 0) : Type 0 where
  forward : Q → Operation Q P
  optim_step : P → Operation Q P
  save : (name : Option String) → CheckpointType → (future_id : ℕ) → Operation Q P
  load : ParsedPath → (optimizer : Bool) → Operation Q P

pub record Call (Q P : Type 0) : Type 0 where
  pub now : ℕ
  pub model_id : String
  pub user_id : String
  pub seq_id : Option ℕ
  pub operation : Operation Q P

abbrev pub number_in : Option ℕ → Bool → List ℕ → List ℕ
number_in none counts rest = rest
number_in (some q) false rest = rest
number_in (some q) true rest = q ∷ rest

module _ {B W T C Q A P O : Type 0} (env : Env B W T C Q A P O) where
  abbrev pub outcome {ℓ} :
      {X : Type ℓ} → TrainingController B W T C × Result X → TrainingController B W T C × Bool
  outcome after = (after.0, is_ok after.1)

  -- The state after a call, and whether it returned.
  unfoldable pub perform : Call Q P → TrainingController B W T C → TrainingController B W T C × Bool
  unfolding run_forward run_optim_step save_checkpoint load_checkpoint
  perform c s = elim c.operation [
    | forward q ↦ outcome (run_forward env c.now c.model_id c.user_id q c.seq_id s)
    | optim_step p ↦ outcome (run_optim_step env c.now c.model_id c.user_id p c.seq_id s)
    | save name kind future_id ↦
        outcome (save_checkpoint env c.now c.model_id c.user_id name kind future_id c.seq_id s)
    | load path optimizer ↦
        outcome (load_checkpoint env c.model_id c.user_id path optimizer c.seq_id s)
  ]

  unfoldable pub perform_all :
      List (Call Q P) → TrainingController B W T C → TrainingController B W T C
  unfolding perform
  perform_all [] s = s
  perform_all (c ∷ rest) s = perform_all rest (perform c s).0

  -- The numbers of the calls on a run that returned, in their order.
  unfoldable pub accepted : String → List (Call Q P) → TrainingController B W T C → List ℕ
  unfolding perform
  accepted model_id [] s = []
  accepted model_id (c ∷ rest) s =
      number_in c.seq_id ((perform c s).1 && str_eq c.model_id model_id)
        (accepted model_id rest (perform c s).0)

-- n, n + 1, …, `count` of them
unfoldable pub count_from : ℕ → (count : ℕ) → List ℕ
count_from n zero = []
count_from n (suc count) = n ∷ count_from (suc n) count
