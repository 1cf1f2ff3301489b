-- ===== src/Futures/Retrieve.antt =====
-- `FutureStore.retrieve` of src/tuft/futures.py.
use tu_ft.Base.{String, Option, none, some, if◌then◌else◌, opt_eq}
use tu_ft.Dict
use tu_ft.Dict.{Dict}
use tu_ft.Errors.{future_not_found, user_mismatch, Result, ok, err}
use tu_ft.Futures.{
  FutureRecord, FutureStore, Answer, payload, try_again, failed, is_pending, is_failed, assign,
}

-- The wait of `retrieve` on a pending record: what the record is when its event is set, or `none`
-- after the timeout. The record is the object that was found, even if it has left the registry.
abbrev pub Wait : Type 0 → Type 0
Wait V = FutureRecord V → Option (FutureRecord V)

module _ {V : Type 0} where
  unfoldable pub result_of : FutureRecord V → Result (Answer V)
  result_of r =
      if is_failed r.status
      then elim r.error [ none ↦ ok (payload r.payload) | some e ↦ err e ]
      else ok (payload r.payload)

  unfoldable pub await_result : Wait V → FutureRecord V → Result (Answer V)
  unfolding result_of
  await_result wait r =
      if is_pending r.status
      then elim (wait r) [
        | none ↦ ok (try_again r.request_id r.queue_state)
        | some r' ↦ result_of r'
      ]
      else result_of r

module _ {V T : Type 0} where
  unfoldable pub retrieve :
      Wait V → String → (user_id : String) → FutureStore V T → FutureStore V T × Result (Answer V)
  unfolding await_result
  retrieve wait request_id user_id s = elim (Dict.get s.records request_id) [
    | none ↦ (s, err (future_not_found request_id))
    | some r ↦
        if opt_eq r.user_id (some user_id)
        then (s, await_result wait r)
        else (assign request_id (record r { status = failed }) s, err user_mismatch)
  ]
