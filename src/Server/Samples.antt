-- ===== src/Server/Samples.antt =====
-- The futures that are left pending when `ServerState` in src/tuft/state.py has started.
use tu_ft.Base.{
  String, ◌≡◌, refl, sym, ◌∙◌, Bool, false, ◌&&◌, Option, none, some, List, [], ◌∷◌, opt_map, arith,
  if-both, Bool-cases, Option-cases, inl, inr,
}
use tu_ft.Dict
use tu_ft.Dict.{Dict, keys}
use tu_ft.Errors.{Result, ok, err}
use tu_ft.Checkpoints.{CheckpointRecord}
use tu_ft.Futures
use tu_ft.Futures.{
  FutureRecord, FutureStore, Status, is_pending, is_sample, OperationType, pending, ready, failed,
}
use tu_ft.Futures.Marking.{
  mark_each, mark_futures_failed_after_checkpoint, mark_model_pending_futures_failed,
  mark_pending_sample_futures_failed,
}
use tu_ft.Futures.Effects.{IsKeyed, fail_if, get-mark_keys}
use tu_ft.Training.{Env, TrainingController}
use tu_ft.Training.Recovery.{restore_from_checkpoint}
use tu_ft.Server.{
  ServerState, fail_futures_after, restore_model, restore_models, restore_from_checkpoints,
}

abbrev is_open_sample : {V : Type 0} → FutureRecord V → Bool
is_open_sample r = is_pending r.status && is_sample r.operation_type

-- Each record is under its own id, and no sample operation is pending.
abbrev Settled : {V : Type 0} → Dict (FutureRecord V) → Type 0
Settled {V} d =
    IsKeyed d
    × ((id : String) (r : FutureRecord V) → Dict.get d id ≡ some r → is_open_sample r ≡ false)

module _ {V U : Type 0} (futures : Futures.Env V U) where
  mark-Keyed :
      (test : FutureRecord V → Bool) (reason : String) (s : FutureStore V U)
      → IsKeyed s.records
      → IsKeyed (mark_each futures test reason (keys s.records) s 0).0.records
  unfolding fail_if
  mark-Keyed test reason s keyed id r h =
      by_old (Dict.get s.records id) refl (sym (get-mark_keys futures test reason id s keyed) ∙ h)
    where
      by_old :
          (o : Option (FutureRecord V))
          → Dict.get s.records id ≡ o
          → opt_map (fail_if test reason) o ≡ some r
          → r.request_id ≡ id
      by_old none e g = absurd (ground arith)
      by_old (some old) e g = ground (arith, keyed id old e)

  -- What is settled stays so when more records are failed.
  mark-Settled :
      (test : FutureRecord V → Bool) (reason : String) (s : FutureStore V U)
      → Settled s.records
      → Settled (mark_each futures test reason (keys s.records) s 0).0.records
  unfolding fail_if
  mark-Settled test reason s (keyed, closed) = (
    mark-Keyed test reason s keyed,
    λ id r h.
        by_old id r (Dict.get s.records id) refl
          (sym (get-mark_keys futures test reason id s keyed) ∙ h),
  )
    where
      by_old :
          (id : String) (r : FutureRecord V) (o : Option (FutureRecord V))
          → Dict.get s.records id ≡ o
          → opt_map (fail_if test reason) o ≡ some r
          → is_open_sample r ≡ false
      by_old id r none e g = absurd (ground arith)
      by_old id r (some old) e g = ground (arith, closed id old e)

  mark_samples-Settled :
      (reason : String) (s : FutureStore V U)
      → IsKeyed s.records
      → Settled (mark_pending_sample_futures_failed futures reason s).0.records
  unfolding fail_if mark_pending_sample_futures_failed
  mark_samples-Settled reason s keyed = (
    mark-Keyed is_open_sample reason s keyed,
    λ id r h.
        by_old id r (Dict.get s.records id) refl
          (sym (get-mark_keys futures is_open_sample reason id s keyed) ∙ h),
  )
    where
      by_old :
          (id : String) (r : FutureRecord V) (o : Option (FutureRecord V))
          → Dict.get s.records id ≡ o
          → opt_map (fail_if is_open_sample reason) o ≡ some r
          → is_open_sample r ≡ false
      by_old id r none e g = absurd (ground arith)
      by_old id r (some old) e g = elim (Bool-cases (is_open_sample old)) [
        | inl chosen ↦ ground arith
        | inr closed ↦ ground arith
      ]

module _ {B W T C Q A P O V U : Type 0} (env : Env B W T C Q A P O)
    (futures : Futures.Env V U) where
  abbrev IsSettled : ServerState B W T C V U × Result (Unit {0}) → Type 0
  IsSettled s = Settled s.0.future_store.records

  fail_futures_after-Settled :
      (model_id : String) (store : FutureStore V U)
      (t : TrainingController B W T C × Result (Option CheckpointRecord))
      → Settled store.records
      → IsSettled (fail_futures_after env futures model_id store t)
  unfolding fail_futures_after mark_futures_failed_after_checkpoint
  fail_futures_after-Settled model_id store (training, err e) settled = settled
  fail_futures_after-Settled model_id store (training, ok latest) settled =
      mark-Settled futures _ _ store settled

  restore_model-Settled :
      (model_id : String) (s : ServerState B W T C V U)
      → Settled s.future_store.records
      → IsSettled (restore_model env futures model_id s)
  unfolding restore_model mark_model_pending_futures_failed
  restore_model-Settled model_id s settled =
      elim (Option-cases (Dict.get s.training.training_runs model_id)) [
        | inl missing ↦ rw (missing, restore_model) settled
        | inr (r, found) ↦
            rw (found, restore_model)
              (if-both IsSettled r.corrupted (mark-Settled futures _ _ s.future_store settled)
                (elim (Option-cases r.backend) [
                  | inl unlinked ↦ rw unlinked (mark-Settled futures _ _ s.future_store settled)
                  | inr (name, linked) ↦ rw linked (
                      fail_futures_after-Settled model_id s.future_store
                        (restore_from_checkpoint env model_id s.training) settled)
                ]))
      ]

  restore_models-Settled :
      (ids : List String) (s : ServerState B W T C V U × Result (Unit {0}))
      → IsSettled s
      → IsSettled (restore_models env futures ids s)
  unfolding restore_models
  restore_models-Settled [] s settled = settled
  restore_models-Settled (id ∷ rest) (s, err e) settled = settled
  restore_models-Settled (id ∷ rest) (s, ok u) settled =
      restore_models-Settled rest (restore_model env futures id s)
        (restore_model-Settled id s settled)

  -- For every server whose futures stand under their own request ids, whatever its runs are and
  -- whatever the backends return or raise while they are restored: after the start no sample
  -- operation is pending, and each record still stands under its own request id.
  pub restore_from_checkpoints-Settled :
      (s : ServerState B W T C V U)
      → IsKeyed s.future_store.records
      → IsKeyed (restore_from_checkpoints env futures s).0.future_store.records
        × ((id : String) (r : FutureRecord V)
            → Dict.get (restore_from_checkpoints env futures s).0.future_store.records id ≡ some r
            → (is_pending r.status && is_sample r.operation_type) ≡ false)
  unfolding restore_from_checkpoints
  restore_from_checkpoints-Settled s keyed =
      restore_models-Settled (keys s.training.training_runs) _
        (mark_samples-Settled futures _ s.future_store keyed)
