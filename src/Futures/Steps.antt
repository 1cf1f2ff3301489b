-- ===== src/Futures/Steps.antt =====
-- The life of a registry as a sequence of steps, chosen by clients, runners, the clock of Redis and
-- crashes.
use tu_ft.Base.{ℕ, String, ◌≡◌, Option, none, []}
use tu_ft.Dict
use tu_ft.Dict.{Dict, get-put, get-put_self, get-pop}
use tu_ft.Futures.{
  FutureStore, Env, QueueState, OperationType, Outcome, enqueue, create_ready_future, finish,
  cleanup,
}
use tu_ft.Futures.Retrieve.{Wait, retrieve}
use tu_ft.Futures.Restore.{restore_from_redis}
use tu_ft.Futures.Marking.{
  mark_futures_failed_after_checkpoint, mark_all_pending_failed, mark_model_pending_futures_failed,
  mark_pending_sample_futures_failed,
}

-- One step. `expire` is Redis dropping a key whose TTL has passed; `restart` is the end of the
-- process, by a shutdown or a crash, and a new one on the same Redis.
pub data Step (V : Type 0) : Type 0 where
  enqueued :
      (request_id user_id : String) (model_id : Option String) (queue_state : QueueState)
      (operation_type : Option OperationType) (operation_args : Option V)
      → Step V
  made_ready : (request_id : String) (v : V) (user_id : String) (model_id : Option String) → Step V
  finished : (request_id : String) → Outcome V → Step V
  retrieved : Wait V → (request_id user_id : String) → Step V
  cleaned : (request_id : String) → Step V
  failed_after : (model_id : Option String) → Option ℕ → String → Step V
  failed_pending : String → Step V
  failed_model : (model_id : Option String) → String → Step V
  failed_samples : String → Step V
  expire : (key : String) → Step V
  restart : Step V

module _ {V T : Type 0} (env : Env V T) where
  unfoldable pub perform : Step V → FutureStore V T → FutureStore V T
  perform (enqueued id user model queue op args) s = (enqueue env id user model queue op args s).0
  perform (made_ready id v user model) s = (create_ready_future env id v user model s).0
  perform (finished id outcome) s = finish env id outcome s
  perform (retrieved wait id user) s = (retrieve wait id user s).0
  perform (cleaned id) s = cleanup env id s
  perform (failed_after model checkpoint message) s =
      (mark_futures_failed_after_checkpoint env model checkpoint message s).0
  perform (failed_pending message) s = (mark_all_pending_failed env message s).0
  perform (failed_model model message) s = (mark_model_pending_futures_failed env model message s).0
  perform (failed_samples message) s = (mark_pending_sample_futures_failed env message s).0
  perform (expire key) s = record s { redis = Dict.pop s.redis key }
  perform restart s = restore_from_redis env s.redis

  -- A uuid is drawn that no record has.
  abbrev pub IsFresh : Step V → FutureStore V T → Type 0
  IsFresh (enqueued id _ _ _ _ _) s = Dict.get s.records id ≡ none
  IsFresh (made_ready id _ _ _) s = Dict.get s.records id ≡ none
  IsFresh _ s = Unit

  abbrev pub initial : FutureStore V T
  initial = record { records = []; next_future_id = 1; redis = [] }

  -- The states that a registry can reach, from the first start on an empty Redis.
  pub data Reach : FutureStore V T → Type 0 where
    start : Reach initial
    next : {s : FutureStore V T} → Reach s → (a : Step V) → IsFresh a s → Reach (perform a s)
