-- ===== src/Sampling/Reached.antt =====
-- The states that the sampling controller reaches, restarts with any configuration included.
use tu_ft.Base.{
  ℕ, String, ◌≡◌, refl, sym, ◌∙◌, ap, subst, Bool, not, Option, none, some, [], arith, if-both,
  Option-both, Option-cases, inl, inr,
}
use tu_ft.Dict
use tu_ft.Dict.{Dict, pop_all, elem, get-pop_all, keys_where}
use tu_ft.Dict.Unique.{IsUnique, pop_all-IsUnique}
use tu_ft.Text.{is_empty}
use tu_ft.Errors.{Result, ok, Result-both}
use tu_ft.Checkpoints.{Directory}
use tu_ft.Persistence.Restore.{restore_all, get-restore_all, restore_all-IsUnique, IsOwn, load_at}
use tu_ft.Sampling.{
  Env, SamplingController, SamplingSessionRecord, SamplingHistoryEntry, add_entry,
  rebuild_history_index,
}
use tu_ft.Sampling.Requests.{
  new_session, register_session, add_and_register, checked_checkpoint, create_sampling_session,
  record_sequence, check_request, run_sample, evict_model, is_of,
}
use tu_ft.Sampling.Restart.{
  restored_session, invalid_sessions, restore_from_redis, rebuild_each, rebuild_sampling_backends,
}
use tu_ft.Sampling.History.{
  IsChronicle, add_entry-IsIndex, add_entry-IsChronicle, rebuild_history_index_lem,
}
use tu_ft.Sampling.Index.{get_at}
use tu_ft.Sampling.Valid.{
  IsOwned, IsSession, Keeps, AreSessions, AreTexts, IsConsistent, put_session-IsConsistent,
  delete_each-IsConsistent,
}

add_entry-IsSession :
    (e : SamplingHistoryEntry) (id : String) (r : SamplingSessionRecord)
    → IsSession id r
    → IsSession r.sampling_session_id (add_entry e r)
unfolding add_entry
add_entry-IsSession e id r x = (
  (refl, (x.0.1.0 ∙ sym x.0.0, add_entry-IsChronicle e r x.1 x.0.1.1)),
  add_entry-IsIndex e r x.1,
)

module _ {S T P Q A : Type 0} (env : Env S T P Q A) where
  pub data Reach (W : Type 0) : SamplingController S T → Type 0 where
    started :
        (backends : Dict S)
        → Reach W (record { sampling_sessions = []; base_backends = backends; redis = [] })
    create :
        (s : SamplingController S T) (disk : Dict (Directory W))
        (id session_id user_id base_model model_path : String) (session_seq_id : ℕ)
        → Reach W s
        → Reach W
            (create_sampling_session env disk id session_id user_id base_model model_path
              session_seq_id s).0
    sample :
        (s : SamplingController S T) (now : ℕ) (user_id id : String) (seq_id : Option ℕ)
        (prompt : P) (request : Q)
        → Reach W s
        → Reach W (run_sample env now user_id id seq_id prompt request s).0
    evict :
        (s : SamplingController S T) (model_id user_id : String)
        → Reach W s
        → Reach W (evict_model env model_id user_id s)
    rebuild :
        (s : SamplingController S T) (path_exists : String → Bool)
        → Reach W s
        → Reach W (rebuild_sampling_backends env path_exists s)
    restart :
        (s : SamplingController S T) (backends : Dict S)
        → Reach W s
        → Reach W (restore_from_redis env backends s.redis)

  abbrev Kept : {X : Type 0} → SamplingController S T × Result X → Type 0
  Kept o = IsConsistent env o.0

  new_session-IsSession :
      (id session_id user_id base_model : String) (model_path : Option String) (n : ℕ)
      → IsSession id (new_session env id session_id user_id base_model model_path n)
  unfolding new_session get_at
  new_session-IsSession id session_id user_id base_model model_path n =
      ((refl, (refl, (tt, λ k e. ground arith))), (tt, (tt, λ k. refl)))

  register_session-IsConsistent :
      (r : SamplingSessionRecord) (s : SamplingController S T)
      → Keeps env.codec
      → IsConsistent env s
      → IsSession r.sampling_session_id r
      → IsConsistent env (register_session env r s).0
  unfolding register_session
  register_session-IsConsistent r s k h x =
      put_session-IsConsistent env r.sampling_session_id r s k h x

  add_and_register-IsConsistent :
      (b : S) (r : SamplingSessionRecord) (path : String) (s : SamplingController S T)
      → Keeps env.codec
      → IsConsistent env s
      → IsSession r.sampling_session_id r
      → IsConsistent env (add_and_register env b r path s).0
  unfolding add_and_register
  add_and_register-IsConsistent b r path s k h x =
      let after = env.add_adapter r.sampling_session_id path b in
      let s' : SamplingController S T = record s {
        base_backends = Dict.put s.base_backends r.base_model after.0;
      } in
      Result-both {Y = SamplingController S T × Result String} Kept after.1 (λ e p. h)
        (λ u p. register_session-IsConsistent r s' k h x)

  record_sequence-IsConsistent :
      (now : ℕ) (id : String) (r : SamplingSessionRecord) (seq_id : ℕ) (prompt : P)
      (s : SamplingController S T)
      → Keeps env.codec
      → IsConsistent env s
      → IsSession id r
      → IsConsistent env (record_sequence env now r seq_id prompt s)
  unfolding record_sequence
  record_sequence-IsConsistent now id r seq_id prompt s k h x =
      let e : SamplingHistoryEntry = record {
        seq_id = seq_id;
        prompt_token_count = env.token_count prompt;
        prompt_hash = env.hash_prompt prompt;
        created_at = now;
      } in
      put_session-IsConsistent env r.sampling_session_id (add_entry e r) s k h
        (add_entry-IsSession e id r x)

  check_request-found :
      (user_id id : String) (seq_id : Option ℕ) (s : SamplingController S T)
      (found : SamplingSessionRecord × (ℕ × S))
      → check_request env user_id id seq_id s ≡ ok found
      → Dict.get s.sampling_sessions id ≡ some found.0
  unfolding check_request
  check_request-found user_id id seq_id s found e = ground arith

  run_sample-IsConsistent :
      (now : ℕ) (user_id id : String) (seq_id : Option ℕ) (prompt : P) (request : Q)
      (s : SamplingController S T)
      → Keeps env.codec
      → IsConsistent env s
      → IsConsistent env (run_sample env now user_id id seq_id prompt request s).0
  unfolding run_sample
  run_sample-IsConsistent now user_id id seq_id prompt request s k h =
      Result-both {Y = SamplingController S T × Result A} Kept
        (check_request env user_id id seq_id s) (λ e p. h)
        (λ found p.
          record_sequence-IsConsistent now id found.0 found.1.0 prompt s k h
            (h.0 id found.0 (check_request-found user_id id seq_id s found p)))

  create_sampling_session-IsConsistent :
      {W : Type 0} (disk : Dict (Directory W))
      (id session_id user_id base_model model_path : String) (n : ℕ) (s : SamplingController S T)
      → Keeps env.codec
      → IsConsistent env s
      → IsConsistent env
          (create_sampling_session env disk id session_id user_id base_model model_path n s).0
  unfolding create_sampling_session
  create_sampling_session-IsConsistent disk id session_id user_id base_model model_path n s k h =
      if-both {A = SamplingController S T × Result String} Kept (not (is_empty model_path))
        (Result-both {Y = SamplingController S T × Result String} Kept
          (checked_checkpoint env disk user_id model_path) (λ e p. h)
          (λ found p.
            Option-both {Y = SamplingController S T × Result String} Kept
              (Dict.get s.base_backends found.1) (λ e. h)
              (λ b e.
                let path = env.adapter_path (found.0).path in
                add_and_register-IsConsistent b
                  (new_session env id session_id user_id found.1 (some path) n) path s k h
                  (new_session-IsSession id session_id user_id found.1 (some path) n))))
        (if-both {A = SamplingController S T × Result String} Kept (is_empty base_model) h (
          if-both {A = SamplingController S T × Result String} Kept
            (Dict.has s.base_backends base_model)
            (register_session-IsConsistent (new_session env id session_id user_id base_model none n)
              s k h (new_session-IsSession id session_id user_id base_model none n))
            h))

  -- What is restored was loaded, and its index rebuilt.
  restored_session-loaded :
      (backends : Dict S) (t : T) (r : SamplingSessionRecord)
      → restored_session env backends t ≡ some r
      → (q : SamplingSessionRecord) × ((env.codec.loads t ≡ some q) × (rebuild_history_index q ≡ r))
  unfolding restored_session
  restored_session-loaded backends t r e = elim (Option-cases (env.codec.loads t)) [
    | inl n ↦ ground arith
    | inr (q, l) ↦ (q, (l, ground (arith, e)))
  ]

  rebuild-IsSession :
      (id : String) (q : SamplingSessionRecord)
      → IsOwned id q
      → IsSession id (rebuild_history_index q)
  unfolding rebuild_history_index
  rebuild-IsSession id q o =
      let l = rebuild_history_index_lem q o.1.1 in
      ((o.0, (o.1.0, subst (IsChronicle q.history) (sym l.1) o.1.1)), l.0)

  -- Under an id, a text loads a session of that id.
  restored-IsSession :
      (backends : Dict S) (redis : Dict T) (id : String) (t : T) (r : SamplingSessionRecord)
      → AreTexts env redis
      → Dict.get redis id ≡ some t
      → restored_session env backends t ≡ some r
      → IsSession id r
  restored-IsSession backends redis id t r h g e =
      let (q, (l, m)) = restored_session-loaded backends t r e in
      subst (IsSession id) m (rebuild-IsSession id q (h id t q g l))

  restart-AreSessions :
      (backends : Dict S) (redis : Dict T)
      → AreTexts env redis
      → IsUnique redis
      → AreSessions env
          (restore_all (restored_session env backends) (λ r. r.sampling_session_id) redis [])
  restart-AreSessions backends redis h u id r g =
      let load = restored_session env backends in
      let own : IsOwn load (λ r. r.sampling_session_id) redis =
        λ k t q f e. (restored-IsSession backends redis k t q h f e).0.0 in
      let e = sym (get-restore_all load (λ r. r.sampling_session_id) redis id u own) ∙ g in
      elim (Option-cases (Dict.get redis id)) [
        | inl n ↦ ground arith
        | inr (t, f) ↦
            restored-IsSession backends redis id t r h f
              (ap (load_at load (λ r. r.sampling_session_id)) (sym f) ∙ e)
      ]

  restore_from_redis-IsConsistent :
      (backends : Dict S) (redis : Dict T)
      → AreTexts env redis
      → IsUnique redis
      → IsConsistent env (restore_from_redis env backends redis)
  unfolding restore_from_redis Dict.get
  restore_from_redis-IsConsistent backends redis h u =
      if-both (IsConsistent env) env.codec.enabled
        (
          restart-AreSessions backends redis h u,
          (
            restore_all-IsUnique (restored_session env backends) (λ r. r.sampling_session_id) redis
                [] tt,
            (
              λ k t r g l.
                  h k t r
                    (ground (arith, get-pop_all redis (invalid_sessions env backends redis) k)) l,
              pop_all-IsUnique redis (invalid_sessions env backends redis) u,
            ),
          ),
        )
        ((λ k r g. ground arith), (tt, (h, u)))

  pub Reach-IsConsistent :
      {W : Type 0} (s : SamplingController S T) → Keeps env.codec → Reach W s → IsConsistent env s
  unfolding Dict.get evict_model rebuild_sampling_backends
  Reach-IsConsistent _ k (started backends) =
      ((λ id r g. ground arith), (tt, ((λ id t r g l. ground arith), tt)))
  Reach-IsConsistent _ k (create s disk id session_id user_id base_model model_path n r) =
      create_sampling_session-IsConsistent disk id session_id user_id base_model model_path n s k
        (Reach-IsConsistent s k r)
  Reach-IsConsistent _ k (sample s now user_id id seq_id prompt request r) =
      run_sample-IsConsistent now user_id id seq_id prompt request s k (Reach-IsConsistent s k r)
  Reach-IsConsistent _ k (evict s model_id user_id r) =
      delete_each-IsConsistent env (keys_where (is_of env model_id user_id) s.sampling_sessions) s
        (Reach-IsConsistent s k r)
  Reach-IsConsistent _ k (rebuild s path_exists r) =
      let rebuilt = rebuild_each env path_exists s.sampling_sessions s.base_backends in
      delete_each-IsConsistent env rebuilt.1 (record s { base_backends = rebuilt.0 })
        (Reach-IsConsistent s k r)
  Reach-IsConsistent _ k (restart s backends r) =
      let h = Reach-IsConsistent s k r in
      restore_from_redis-IsConsistent backends s.redis h.1.1.0 h.1.1.1
