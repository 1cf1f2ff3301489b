-- ===== src/Futures/Restore.antt =====
-- `FutureStore._restore_from_redis` of src/tuft/futures.py.
use tu_ft.Base.{◌+◌, false, Option, none, some, [], ◌∷◌, leb, if◌then◌else◌}
use tu_ft.Dict
use tu_ft.Dict.{Dict}
use tu_ft.Futures.{FutureRecord, FutureStore, Env, set_event_if_completed}

module _ {V T : Type 0} where
  -- One round of the loop of `_restore_from_redis`. A loaded record has a fresh event, which the
  -- validator of the class sets; the `event.set()` of the loop then changes nothing more.
  unfoldable pub restore_record : Option (FutureRecord V) → FutureStore V T → FutureStore V T
  unfolding set_event_if_completed
  restore_record none s = s
  restore_record (some loaded) s =
      let r = set_event_if_completed (record loaded { event = false }) in
      record s {
        records = Dict.put s.records r.request_id r;
        next_future_id =
            if leb s.next_future_id r.future_id then r.future_id + 1 else s.next_future_id;
      }

  unfoldable pub restore_all : Env V T → Dict T → FutureStore V T → FutureStore V T
  unfolding restore_record
  restore_all env [] s = s
  restore_all env ((k, t) ∷ rest) s = restore_all env rest (restore_record (env.loads t) s)

  -- `FutureStore()`, over what Redis holds
  unfoldable pub restore_from_redis : Env V T → Dict T → FutureStore V T
  unfolding restore_all
  restore_from_redis env redis =
      let fresh : FutureStore V T = record { records = []; next_future_id = 1; redis = redis } in
      if env.enabled then restore_all env redis fresh else fresh
