-- ===== src/Futures/Marking.antt =====
-- The `mark_…_failed` methods of src/tuft/futures.py, which fail the records that a test selects.
use tu_ft.Base.{
  ℕ, ◌+◌, String, Bool, true, ◌&&◌, Option, none, some, List, [], ◌∷◌, ltb, if◌then◌else◌, opt_eq,
}
use tu_ft.Dict
use tu_ft.Dict.{Dict}
use tu_ft.Errors.{future_cancelled}
use tu_ft.Futures.{
  FutureRecord, FutureStore, Env, failed, is_pending, is_sample, assign, save_future,
}

abbrev pub past_checkpoint : Option ℕ → ℕ → Bool
past_checkpoint none future_id = true
past_checkpoint (some checkpoint_future_id) future_id = ltb checkpoint_future_id future_id

module _ {V T : Type 0} where
  -- What the four `mark_…_failed` methods do with a record that their test selects.
  unfoldable pub fail_record :
      Env V T → (reason : String) → FutureRecord V → FutureStore V T → FutureStore V T
  unfolding save_future
  fail_record env reason r s =
      let failed_record = record r {
        status = failed;
        error = some (future_cancelled r.request_id reason);
        event = true;
      } in
      save_future env r.request_id (assign r.request_id failed_record s)

  unfoldable pub mark_one :
      Env V T
      → (test : FutureRecord V → Bool) → (reason : String) → Option (FutureRecord V)
      → FutureStore V T
      → (count : ℕ) → FutureStore V T × ℕ
  unfolding fail_record
  mark_one env test reason none s count = (s, count)
  mark_one env test reason (some r) s count =
      if test r then (fail_record env reason r s, count + 1) else (s, count)

  -- The loop `for record in self._records.values()` of those methods: the keys in their order, each
  -- with the record that stands there when its turn comes, and the count.
  unfoldable pub mark_each :
      Env V T
      → (test : FutureRecord V → Bool) → (reason : String) → List String
      → FutureStore V T
      → (count : ℕ) → FutureStore V T × ℕ
  unfolding mark_one
  mark_each env test reason [] s count = (s, count)
  mark_each env test reason (k ∷ ks) s count =
      let (s', count') = mark_one env test reason (Dict.get s.records k) s count in
      mark_each env test reason ks s' count'

  abbrev mark_all :
      Env V T → (FutureRecord V → Bool) → String → FutureStore V T → FutureStore V T × ℕ
  mark_all env test reason s = mark_each env test reason (Dict.keys s.records) s 0

  unfoldable pub mark_futures_failed_after_checkpoint :
      Env V T
      → (model_id : Option String) → (checkpoint_future_id : Option ℕ) → (error_message : String)
      → FutureStore V T
      → FutureStore V T × ℕ
  unfolding mark_each
  mark_futures_failed_after_checkpoint env model_id checkpoint_future_id error_message =
      mark_all env
        (λ r. opt_eq r.model_id model_id && past_checkpoint checkpoint_future_id r.future_id)
        error_message

  unfoldable pub mark_all_pending_failed :
      Env V T → (error_message : String) → FutureStore V T → FutureStore V T × ℕ
  unfolding mark_each
  mark_all_pending_failed env error_message = mark_all env (λ r. is_pending r.status) error_message

  unfoldable pub mark_model_pending_futures_failed :
      Env V T
      → (model_id : Option String) → (error_message : String) → FutureStore V T
      → FutureStore V T × ℕ
  unfolding mark_each
  mark_model_pending_futures_failed env model_id error_message =
      mark_all env (λ r. opt_eq r.model_id model_id && is_pending r.status) error_message

  unfoldable pub mark_pending_sample_futures_failed :
      Env V T → (error_message : String) → FutureStore V T → FutureStore V T × ℕ
  unfolding mark_each
  mark_pending_sample_futures_failed env error_message =
      mark_all env (λ r. is_pending r.status && is_sample r.operation_type) error_message
