-- ===== src/Sampling/Evict.antt =====
-- src/tuft/sampling_controller.py: which sessions `evict_model` removes.
use tu_ft.Base.{
  String, ◌≡◌, refl, ◌∙◌, ap, Bool, ◌&&◌, none, List, [], ◌∷◌, arith, str_eq, if◌then◌else◌,
  Option-cases, inl, inr,
}
use tu_ft.Dict
use tu_ft.Dict.{Dict, pop_all, elem, get-pop_all, keys_where, test_at}
use tu_ft.Dict.Unique.{elem-keys_where}
use tu_ft.Sampling.{Env, SamplingController, SamplingSessionRecord, delete_session}
use tu_ft.Sampling.Requests.{delete_each, evict_model, is_of}
use tu_ft.Sampling.Valid.{Keeps, IsConsistent}
use tu_ft.Sampling.Reached.{Reach, Reach-IsConsistent}

module _ {S T P Q A : Type 0} (env : Env S T P Q A) where
  delete_each_sessions :
      (ids : List String) (s : SamplingController S T)
      → (delete_each env ids s).sampling_sessions ≡ pop_all s.sampling_sessions ids
  unfolding delete_each pop_all delete_session
  delete_each_sessions [] s = refl
  delete_each_sessions (id ∷ ids) s = delete_each_sessions ids _

  abbrev pub is_user : String → SamplingSessionRecord → Bool
  is_user user_id r = str_eq r.user_id user_id

  -- The `model_id` of a session is its own id.
  owner_test :
      (s : SamplingController S T) (model_id user_id id : String)
      → IsConsistent env s
      → test_at (is_of env model_id user_id) (Dict.get s.sampling_sessions id)
        ≡ (str_eq id model_id && test_at (is_user user_id) (Dict.get s.sampling_sessions id))
  owner_test s model_id user_id id v = elim (Option-cases (Dict.get s.sampling_sessions id)) [
    | inl e ↦ rw e (ground arith)
    | inr (q, e) ↦ rw e (ap (λ i. str_eq i model_id && str_eq q.user_id user_id) (v.0 id q e).0.1.0)
  ]

  -- In every state that is reached, `evict_model` removes the session whose own id is the given
  -- `model_id`, if it is the user's, and no other session.
  pub get-evict_model :
      {W : Type 0} (s : SamplingController S T) (model_id user_id id : String)
      → Keeps env.codec
      → Reach env W s
      → Dict.get (evict_model env model_id user_id s).sampling_sessions id ≡ (
          if str_eq id model_id && test_at (is_user user_id) (Dict.get s.sampling_sessions id)
          then none
          else Dict.get s.sampling_sessions id)
  unfolding evict_model
  get-evict_model s model_id user_id id k r =
      let v = Reach-IsConsistent env s k r in
      let ids = keys_where (is_of env model_id user_id) s.sampling_sessions in
      ap (λ d. Dict.get d id) (delete_each_sessions ids s)
      ∙ get-pop_all s.sampling_sessions ids id
      ∙ ap (λ b. if b then none else Dict.get s.sampling_sessions id)
          (elem-keys_where (is_of env model_id user_id) s.sampling_sessions id v.1.0
            ∙ owner_test s model_id user_id id v)
