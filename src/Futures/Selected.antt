-- ===== src/Futures/Selected.antt =====
-- Which records the four `mark_…_failed` methods fail.
use tu_ft.Base.{ℕ, String, ◌≡◌, ◌∙◌, true, ◌&&◌, Option, some, if◌then◌else◌, opt_eq, opt_map}
use tu_ft.Dict
use tu_ft.Dict.{Dict}
use tu_ft.Errors.{future_cancelled}
use tu_ft.Futures.{FutureRecord, FutureStore, Env, failed, is_pending, is_sample}
use tu_ft.Futures.Marking.{
  past_checkpoint, mark_futures_failed_after_checkpoint, mark_all_pending_failed,
  mark_model_pending_futures_failed, mark_pending_sample_futures_failed,
}
use tu_ft.Futures.Effects.{IsKeyed, fail_if, get-mark_keys}

module _ {V T : Type 0} (env : Env V T) (s : FutureStore V T) (keyed : IsKeyed s.records) where
  abbrev pub cancelled : String → FutureRecord V → FutureRecord V
  cancelled message r = record r {
    status = failed;
    error = some (future_cancelled r.request_id message);
    event = true;
  }

  -- With each record under its own request id: after a restore from a checkpoint, the record at any
  -- id is cancelled if it belongs to the model and its future id is past that of the checkpoint
  -- (with no checkpoint: if it belongs to the model), whatever its status was; any other record is
  -- as it was, and no record appears or goes.
  pub get-mark_futures_failed_after_checkpoint :
      (model_id : Option String) (checkpoint : Option ℕ) (message id : String)
      → Dict.get
          (mark_futures_failed_after_checkpoint env model_id checkpoint message s).0.records
          id
        ≡ opt_map
            (λ r.
              if opt_eq r.model_id model_id && past_checkpoint checkpoint r.future_id
              then cancelled message r
              else r)
            (Dict.get s.records id)
  unfolding mark_futures_failed_after_checkpoint fail_if
  get-mark_futures_failed_after_checkpoint model_id checkpoint message id =
      get-mark_keys env _ message id s keyed

  -- The three methods for pending futures: with each record under its own request id, a completed
  -- record is left as it was by all three, a pending record is cancelled by the first, by the
  -- second if it belongs to the model, and by the third if it is a sample operation.
  pub get-mark_pending :
      (model_id : Option String) (message id : String) (r : FutureRecord V)
      → Dict.get s.records id ≡ some r
      → (Dict.get (mark_all_pending_failed env message s).0.records id
          ≡ some (if is_pending r.status then cancelled message r else r))
        × (Dict.get (mark_model_pending_futures_failed env model_id message s).0.records id
            ≡ some (
                if opt_eq r.model_id model_id && is_pending r.status
                then cancelled message r
                else r))
        × (Dict.get (mark_pending_sample_futures_failed env message s).0.records id
            ≡ some (
                if is_pending r.status && is_sample r.operation_type
                then cancelled message r
                else r))
  unfolding mark_all_pending_failed mark_model_pending_futures_failed
      mark_pending_sample_futures_failed fail_if
  get-mark_pending model_id message id r e = (
    get-mark_keys env _ message id s keyed ∙ simp e,
    get-mark_keys env _ message id s keyed ∙ simp e,
    get-mark_keys env _ message id s keyed ∙ simp e,
  )
