-- ===== src/Sampling/Restart.antt =====
-- src/tuft/sampling_controller.py: the sessions that a restart brings back, and their adapters.
use tu_ft.Base.{
  String, Bool, true, false, not, ◌||◌, ◌&&◌, Option, none, some, List, [], ◌∷◌, if◌then◌else◌,
}
use tu_ft.Dict
use tu_ft.Dict.{Dict, pop_all}
use tu_ft.Text.{is_empty}
use tu_ft.Errors.{Result, ok, err}
use tu_ft.Persistence.Restore.{restore_all}
use tu_ft.Sampling.{
  Env, SamplingController, SamplingSessionRecord, rebuild_history_index, sampling_disabled,
}
use tu_ft.Sampling.Requests.{delete_each}

module _ {S T P Q A : Type 0} (env : Env S T P Q A) where
  -- Whether the model of a session is gone: no backend, and no model with sampling disabled.
  unfoldable pub is_gone : Dict S → SamplingSessionRecord → Bool
  unfolding is_empty sampling_disabled
  is_gone base_backends r =
      not (is_empty r.base_model)
      && not (Dict.has base_backends r.base_model)
      && not (sampling_disabled env.supported_models r.base_model)

  -- What one round of the loop puts into `sampling_sessions`.
  unfoldable pub restored_session : Dict S → T → Option SamplingSessionRecord
  unfolding is_gone rebuild_history_index
  restored_session base_backends t = elim (env.codec.loads t) [
    | none ↦ none
    | some r ↦ if is_gone base_backends r then none else some (rebuild_history_index r)
  ]

  abbrev gone_id : Dict S → Option SamplingSessionRecord → List String → List String
  gone_id base_backends none rest = rest
  gone_id base_backends (some r) rest =
      if is_gone base_backends r then r.sampling_session_id ∷ rest else rest

  -- The sessions that the loop collects as invalid.
  unfoldable pub invalid_sessions : Dict S → Dict T → List String
  unfolding is_gone
  invalid_sessions base_backends [] = []
  invalid_sessions base_backends ((k, t) ∷ rest) =
      gone_id base_backends (env.codec.loads t) (invalid_sessions base_backends rest)

  -- _restore_from_redis, as the last step of the construction
  unfoldable pub restore_from_redis : Dict S → Dict T → SamplingController S T
  unfolding restored_session invalid_sessions
  restore_from_redis base_backends redis =
      if env.codec.enabled
      then record {
        sampling_sessions =
            restore_all (restored_session base_backends) (λ r. r.sampling_session_id) redis [];
        base_backends = base_backends;
        redis = pop_all redis (invalid_sessions base_backends redis);
      }
      else record { sampling_sessions = []; base_backends = base_backends; redis = redis }

  -- One round of `_rebuild_sampling_backends`: what the backend then is, and whether the session is
  -- invalid.
  unfoldable pub rebuild_one :
      (path_exists : String → Bool) → Dict S → SamplingSessionRecord → Dict S × Bool
  unfolding is_empty sampling_disabled
  rebuild_one path_exists base_backends r = elim r.model_path [
    | none ↦ (base_backends, false)
    | some path ↦
        if is_empty path || is_empty r.base_model
        then (base_backends, false)
        else elim (Dict.get base_backends r.base_model) [
          | none ↦ (base_backends, not (sampling_disabled env.supported_models r.base_model))
          | some b ↦
              if path_exists path
              then (let after = env.add_adapter r.sampling_session_id path b in
                  (Dict.put base_backends r.base_model after.0, failed after.1))
              else (base_backends, true)
        ]
  ]
    where
      failed : Result (Unit {0}) → Bool
      failed (err e) = true
      failed (ok u) = false

  -- The loop over the sessions.
  unfoldable pub rebuild_each :
      (path_exists : String → Bool) → Dict SamplingSessionRecord → Dict S → Dict S × List String
  unfolding rebuild_one
  rebuild_each path_exists [] base_backends = (base_backends, [])
  rebuild_each path_exists ((id, r) ∷ rest) base_backends =
      let one = rebuild_one path_exists base_backends r in
      let others = rebuild_each path_exists rest one.0 in
      (others.0, if one.1 then id ∷ others.1 else others.1)

  -- _rebuild_sampling_backends
  unfoldable pub rebuild_sampling_backends :
      (path_exists : String → Bool) → SamplingController S T → SamplingController S T
  unfolding rebuild_each delete_each
  rebuild_sampling_backends path_exists s =
      let rebuilt = rebuild_each path_exists s.sampling_sessions s.base_backends in
      delete_each env rebuilt.1 (record s { base_backends = rebuilt.0 })
