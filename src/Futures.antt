-- ===== src/Futures.antt =====
-- src/tuft/futures.py: the future registry. `V` is the type of payloads and operation arguments
-- (`Any` in the source) and `T` the type of the texts that pydantic writes. `created_at`, metrics,
-- spans and log lines are left out. Every method that mutates holds `self._lock` or runs without
-- an `await` in between, so each is one step.
pub mod Retrieve
pub mod Restore
pub mod Marking
pub mod Effects
pub mod Invariant
pub mod Restart
pub mod Steps
pub mod Reached
pub mod Selected
pub mod Answers
pub mod Mirror
use tu_ft.Base.{
  ℕ, ◌+◌, ◌-◌, String, Bool, true, false, not, ◌&&◌, Option, none, some, List, [], ◌∷◌, ltb, leb,
  ◌==◌, str_eq, if◌then◌else◌, opt_eq, is_some,
}
use tu_ft.Dict
use tu_ft.Dict.{Dict}
use tu_ft.Persistence.{Codec, save_record, delete_record}
use tu_ft.Errors.{
  Error, server_error, future_not_found, future_cancelled, user_mismatch, Result, ok, err,
}

pub data Status : Type 0 where
  pending ready failed : Status

pub data QueueState : Type 0 where
  active paused_capacity paused_rate_limit : QueueState

pub data OperationType : Type 0 where
  forward forward_backward optim_step save_weights save_weights_for_sampler load_weights sample :
      OperationType

abbrev pub is_pending : Status → Bool
is_pending pending = true
is_pending _ = false

-- `status in ("ready", "failed")`
abbrev pub is_completed : Status → Bool
is_completed pending = false
is_completed ready = true
is_completed failed = true

abbrev pub is_failed : Status → Bool
is_failed failed = true
is_failed _ = false

abbrev pub is_sample : Option OperationType → Bool
is_sample (some sample) = true
is_sample _ = false

pub record FutureRecord (V : Type 0) : Type 0 where
  pub request_id : String
  pub future_id : ℕ
  pub model_id : Option String
  pub user_id : Option String
  pub queue_state : QueueState
  pub status : Status
  pub payload : Option V
  pub error : Option Error
  pub operation_type : Option OperationType
  pub operation_args : Option V
  -- whether `event.set()` has been called
  pub event : Bool

-- How records are written and read back. The field `event` is excluded from the text.
abbrev pub Env : Type 0 → Type 0 → Type 0
Env V T = Codec (FutureRecord V) T

-- The registry, and the part of Redis under its key prefix, by request id.
pub record FutureStore (V T : Type 0) : Type 0 where
  pub records : Dict (FutureRecord V)
  pub next_future_id : ℕ
  pub redis : Dict T

-- The answer of `retrieve`: the payload, or a TryAgainResponse after a timeout.
pub data Answer (V : Type 0) : Type 0 where
  payload : Option V → Answer V
  try_again : (request_id : String) (queue_state : QueueState) → Answer V

-- How an operation that a runner awaits ends.
pub data Outcome (V : Type 0) : Type 0 where
  returned : V → Outcome V
  raised : Error → Outcome V
  crashed : (message : String) → Outcome V

module _ {V : Type 0} where
  -- FutureRecord._set_event_if_completed
  unfoldable pub set_event_if_completed : FutureRecord V → FutureRecord V
  set_event_if_completed r = if is_completed r.status then record r { event = true } else r

module _ {V T : Type 0} where
  unfoldable pub save_or_strip : Env V T → String → FutureRecord V → Dict T → Dict T
  unfolding save_record
  save_or_strip env key r redis =
      let (saved, success) = save_record env key (record r { event = false }) redis in
      if success
      then saved
      else (save_record env key (record r { payload = none; event = false }) saved).0

  -- _save_future
  unfoldable pub save_future : Env V T → String → FutureStore V T → FutureStore V T
  unfolding save_or_strip
  save_future env request_id s =
      if env.enabled
      then elim (Dict.get s.records request_id) [
        | none ↦ s
        | some r ↦ record s { redis = save_or_strip env request_id r s.redis }
      ]
      else s

  -- _delete_future
  unfoldable pub delete_future : Env V T → String → FutureStore V T → FutureStore V T
  unfolding delete_record
  delete_future env request_id s = record s { redis = delete_record env request_id s.redis }

  -- _allocate_future_id
  unfoldable pub allocate_future_id : FutureStore V T → FutureStore V T × ℕ
  allocate_future_id s = (record s { next_future_id = s.next_future_id + 1 }, s.next_future_id)

  unfoldable pub get_current_future_id : FutureStore V T → ℕ
  get_current_future_id s = if ltb 1 s.next_future_id then s.next_future_id - 1 else 0

  -- _store_record
  unfoldable pub store_record : Env V T → FutureRecord V → FutureStore V T → FutureStore V T
  unfolding save_future
  store_record env r s =
      save_future env r.request_id (record s { records = Dict.put s.records r.request_id r })

  -- The locked part of `enqueue`; `request_id` is the fresh uuid. The runner that it starts ends by
  -- `finish`, and may end at any later time.
  unfoldable pub enqueue :
      Env V T
      → (request_id : String) → (user_id : String) → (model_id : Option String) → QueueState
      → Option OperationType
      → (operation_args : Option V) → FutureStore V T
      → FutureStore V T × String
  unfolding allocate_future_id store_record
  enqueue env request_id user_id model_id queue_state operation_type operation_args s =
      let (s', future_id) = allocate_future_id s in
      let r : FutureRecord V = record {
        request_id = request_id;
        future_id = future_id;
        model_id = model_id;
        user_id = some user_id;
        queue_state = queue_state;
        status = pending;
        payload = none;
        error = none;
        operation_type = operation_type;
        operation_args = operation_args;
        event = false;
      } in
      (store_record env r s', request_id)

  unfoldable pub create_ready_future :
      Env V T
      → (request_id : String) → V
      → (user_id : String) → (model_id : Option String) → FutureStore V T
      → FutureStore V T × String
  unfolding allocate_future_id store_record
  create_ready_future env request_id v user_id model_id s =
      let (s', future_id) = allocate_future_id s in
      let r : FutureRecord V = record {
        request_id = request_id;
        future_id = future_id;
        model_id = model_id;
        user_id = some user_id;
        queue_state = active;
        status = ready;
        payload = some v;
        error = none;
        operation_type = none;
        operation_args = none;
        event = true;
      } in
      (store_record env r s', request_id)

  abbrev pub assign : String → FutureRecord V → FutureStore V T → FutureStore V T
  assign request_id r s = record s { records = Dict.put s.records request_id r }

  -- _mark_ready; the event is set after the save, and is not part of what is saved
  unfoldable pub mark_ready : Env V T → String → V → FutureStore V T → FutureStore V T
  unfolding save_future
  mark_ready env request_id v s = elim (Dict.get s.records request_id) [
    | none ↦ s
    | some r ↦
        let done = record r { payload = some v; status = ready; error = none } in
        assign request_id (record done { event = true })
          (save_future env request_id (assign request_id done s))
  ]

  -- _mark_failed
  unfoldable pub mark_failed : Env V T → String → Error → FutureStore V T → FutureStore V T
  unfolding save_future
  mark_failed env request_id failure s = elim (Dict.get s.records request_id) [
    | none ↦ s
    | some r ↦
        let done = record r { status = failed; error = some failure } in
        assign request_id (record done { event = true })
          (save_future env request_id (assign request_id done s))
  ]

  -- The end of the `_runner` that `enqueue` started.
  unfoldable pub finish : Env V T → String → Outcome V → FutureStore V T → FutureStore V T
  unfolding mark_ready mark_failed
  finish env request_id (returned v) = mark_ready env request_id v
  finish env request_id (raised e) = mark_failed env request_id e
  finish env request_id (crashed message) = mark_failed env request_id (server_error message)

  unfoldable pub cleanup : Env V T → String → FutureStore V T → FutureStore V T
  unfolding delete_future
  cleanup env request_id s =
      delete_future env request_id (record s { records = Dict.pop s.records request_id })

  -- `shutdown`, after the tasks have been cancelled: Redis is left as it is.
  unfoldable pub shutdown : FutureStore V T → FutureStore V T
  shutdown s = record s { records = [] }
