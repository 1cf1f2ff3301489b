-- ===== src/Tests/Registry.antt =====
-- Runs of the future registry.
use tu_ft.Base.{
  ℕ, String, ◌≡◌, ◌≢◌, refl, true, false, ◌&&◌, none, some, [], ◌∷◌, arith, eq_iff, opt_eq, opt_map,
  if◌then◌else◌,
}
use tu_ft.Dict
use tu_ft.Dict.{Dict}
use tu_ft.Errors.{user_mismatch, future_not_found, ok, err}
use tu_ft.Futures.{
  failed, FutureRecord, FutureStore, Env, pending, ready, active, payload, returned, finish,
  forward, is_pending, is_sample,
}
use tu_ft.Futures.Retrieve.{Wait, retrieve}
use tu_ft.Futures.Restore.{restore_from_redis}
use tu_ft.Futures.Marking.{
  past_checkpoint, mark_futures_failed_after_checkpoint, mark_all_pending_failed,
  mark_model_pending_futures_failed, mark_pending_sample_futures_failed,
}
use tu_ft.Futures.Effects.{IsKeyed}
use tu_ft.Futures.Invariant.{IsValid, KeepsIds}
use tu_ft.Futures.Reached.{Reach-IsValid}
use tu_ft.Futures.Steps.{Step, enqueued, finished, perform, Reach, start, next, initial}
use tu_ft.Futures.Selected.{cancelled, get-mark_futures_failed_after_checkpoint, get-mark_pending}
use tu_ft.Futures.Answers.{answer_of, retrieve-finish, retrieve_after_other}
use tu_ft.Futures.Mirror.{IsMirrored, perform-IsMirrored, retrieve-restart}

abbrev ann : String
ann = "ann"

abbrev bob : String
bob = "bob"

bob-ann : bob ≢ ann
bob-ann p = ground (arith, eq_iff bob ann)

-- Texts are the records themselves.
abbrev plain : Env ℕ (FutureRecord ℕ)
plain = record { enabled = true; dumps = λ r. some r; loads = λ t. some t }

plain-KeepsIds : KeepsIds plain
plain-KeepsIds r t r' d l = ground arith

abbrev enqueue_f : Step ℕ
enqueue_f = enqueued "f" ann (some "m") active (some forward) none

abbrev finish_f : Step ℕ
finish_f = finished "f" (returned 5)

abbrev queued : FutureStore ℕ (FutureRecord ℕ)
queued = perform plain enqueue_f (initial plain)

abbrev answered : FutureStore ℕ (FutureRecord ℕ)
answered = perform plain finish_f queued

reached : Reach plain answered
unfolding Dict.get
reached = next (next start enqueue_f refl) finish_f tt

Reach-IsValid_example : IsValid plain answered
Reach-IsValid_example = Reach-IsValid plain plain-KeepsIds reached

abbrev future : FutureRecord ℕ
future = record {
  request_id = "f";
  future_id = 1;
  model_id = some "m";
  user_id = some ann;
  queue_state = active;
  status = pending;
  payload = none;
  error = none;
  operation_type = some forward;
  operation_args = none;
  event = false;
}

abbrev store : FutureStore ℕ (FutureRecord ℕ)
store = record { records = ("f", future) ∷ []; next_future_id = 2; redis = ("f", future) ∷ [] }

store-IsKeyed : IsKeyed store.records
unfolding Dict.get
store-IsKeyed k r h = ground (arith, eq_iff "f" k)

abbrev message : String
message = "restored"

mark_after_example :
    Dict.get
      (mark_futures_failed_after_checkpoint plain (some "m") (some 0) message store).0.records
      "f"
    ≡ opt_map
        (λ r.
          if opt_eq r.model_id (some "m") && past_checkpoint (some 0) r.future_id
          then cancelled plain store store-IsKeyed message r
          else r)
        (Dict.get store.records "f")
mark_after_example =
    get-mark_futures_failed_after_checkpoint plain store store-IsKeyed (some "m") (some 0) message
      "f"

found : Dict.get store.records "f" ≡ some future
unfolding Dict.get
found = refl

missing : Dict.get store.records "g" ≡ none
unfolding Dict.get
missing = refl

mark_pending_example :
    (Dict.get (mark_all_pending_failed plain message store).0.records "f"
      ≡ some (
          if is_pending future.status
          then cancelled plain store store-IsKeyed message future
          else future))
    × (Dict.get (mark_model_pending_futures_failed plain (some "m") message store).0.records "f"
        ≡ some (
            if opt_eq future.model_id (some "m") && is_pending future.status
            then cancelled plain store store-IsKeyed message future
            else future))
    × (Dict.get (mark_pending_sample_futures_failed plain message store).0.records "f"
        ≡ some (
            if is_pending future.status && is_sample future.operation_type
            then cancelled plain store store-IsKeyed message future
            else future))
mark_pending_example =
    get-mark_pending plain store store-IsKeyed (some "m") message "f" future found

abbrev wait : Wait ℕ
wait r = none

retrieve-finish_example :
    (retrieve wait "f" ann (finish plain "f" (returned 5) store)
      ≡ (finish plain "f" (returned 5) store, answer_of (returned 5)))
    × ((retrieve wait "f" bob (finish plain "f" (returned 5) store)).1 ≡ err user_mismatch)
    × ((retrieve wait "g" bob (finish plain "f" (returned 5) store)).1 ≡ err (future_not_found "g"))
retrieve-finish_example =
    retrieve-finish plain wait "f" "g" ann bob (returned 5) store future found refl bob-ann missing

retrieve_after_other_example :
    ((retrieve wait "f" bob store).1 ≡ err user_mismatch)
    × (Dict.get (retrieve wait "f" bob store).0.records "f"
        ≡ some (record future { status = failed }))
    × ((k : String)
        → k ≢ "f"
        → Dict.get (retrieve wait "f" bob store).0.records k ≡ Dict.get store.records k)
    × ((retrieve wait "f" ann (retrieve wait "f" bob store).0).1 ≡ ok (payload none))
retrieve_after_other_example =
    retrieve_after_other wait wait "f" ann bob store future found refl bob-ann refl refl

initial-IsMirrored : IsMirrored plain (initial plain)
unfolding Dict.get
initial-IsMirrored k = refl

queued-IsMirrored : IsMirrored plain queued
queued-IsMirrored =
    perform-IsMirrored plain refl (λ r. refl) enqueue_f (initial plain) tt initial-IsMirrored

perform-IsMirrored_example : IsMirrored plain answered
perform-IsMirrored_example =
    perform-IsMirrored plain refl (λ r. refl) finish_f queued tt queued-IsMirrored

abbrev answered_future : FutureRecord ℕ
answered_future = record future { payload = some 5; status = ready; event = true }

abbrev written_future : FutureRecord ℕ
written_future = record answered_future { event = false }

in_registry : Dict.get answered.records "f" ≡ some answered_future
unfolding Dict.get perform finish tu_ft.Futures.enqueue Dict.put
in_registry = refl

retrieve-restart_example :
    (retrieve wait "f" ann (restore_from_redis plain answered.redis)).1
    ≡ (retrieve wait "f" ann answered).1
retrieve-restart_example =
    retrieve-restart plain wait "f" ann answered answered_future written_future written_future refl
      (Reach-IsValid plain plain-KeepsIds reached)
      (perform-IsMirrored plain refl (λ r. refl) finish_f queued tt queued-IsMirrored) in_registry
      refl refl refl refl refl refl refl refl
