-- ===== src/Futures/Mirror.antt =====
-- Durability: Redis holds, for each record of the registry, the text that a save of it writes, and
-- nothing else; so a restart brings the answers back.
use tu_ft.Base.{
  ℕ, ◌+◌, String, ◌≡◌, refl, ap, sym, subst, ◌∙◌, Bool, true, false, ◌&&◌, Option, none, some, List,
  [], ◌∷◌, str_eq, if◌then◌else◌, if-both, if_true, opt_eq, opt_map, is_some, arith, eq_iff,
  Option-cases, Bool-cases, inl, inr,
}
use tu_ft.Dict
use tu_ft.Dict.{Dict, get-put, get-put_self, get-pop}
use tu_ft.Errors.{Error, server_error}
use tu_ft.Futures.{
  FutureRecord, FutureStore, Env, ready, failed, returned, raised, crashed, is_pending, assign,
  enqueue, create_ready_future, finish, mark_ready, mark_failed, save_or_strip, save_future,
  cleanup, is_sample,
}
use tu_ft.Futures.Marking.{mark_one, mark_each, past_checkpoint}
use tu_ft.Futures.Effects.{records-save_future}
use tu_ft.Futures.Invariant.{IsValid, redis-save_future}
use tu_ft.Futures.Restore.{restore_from_redis}
use tu_ft.Futures.Restart.{loaded, revive, get-restore_from_redis, valid-IsOwn}
use tu_ft.Futures.Retrieve.{Wait, retrieve, await_result}
use tu_ft.Futures.Answers.{retrieve_owner}
use tu_ft.Futures.Reached.{marks}
use tu_ft.Futures.Steps.{
  Step, enqueued, made_ready, finished, retrieved, cleaned, failed_after, failed_pending,
  failed_model, failed_samples, expire, restart, perform,
}

module _ {V T : Type 0} (env : Env V T) where
  -- What a save of the record writes: the record, or the record without its payload if that cannot
  -- be dumped.
  abbrev pub or_stripped : Option T → Option T → Option T
  or_stripped (some t) stripped = some t
  or_stripped none stripped = stripped

  abbrev pub text_of : FutureRecord V → Option T
  text_of r =
      or_stripped (env.dumps (record r { event = false }))
        (env.dumps (record r { payload = none; event = false }))

  abbrev pub saved_text : Option (FutureRecord V) → Option T
  saved_text none = none
  saved_text (some r) = text_of r

  abbrev pub IsMirrored : FutureStore V T → Type 0
  IsMirrored s = (k : String) → Dict.get s.redis k ≡ saved_text (Dict.get s.records k)

  -- A record without a payload can always be dumped.
  abbrev pub DumpsStripped : Type 0
  DumpsStripped = (r : FutureRecord V) → is_some (env.dumps (record r { payload = none })) ≡ true

  module _ (on : env.enabled ≡ true) (dumps_stripped : DumpsStripped) where
    save_or_strip-some :
        (k : String) (r : FutureRecord V) (redis : Dict T) (t : T)
        → text_of r ≡ some t
        → save_or_strip env k r redis ≡ Dict.put redis k t
    unfolding save_or_strip
    save_or_strip-some k r redis t e = ground arith

    text_of-IsSome : (r : FutureRecord V) → (t : T) × (text_of r ≡ some t)
    text_of-IsSome r = elim (Option-cases (text_of r)) [
      | inr found ↦ found
      | inl e ↦ absurd (ground (arith, dumps_stripped (record r { event = false })))
    ]

    -- After a save of the record at `k`, the mirror holds there; elsewhere nothing has changed.
    get-redis-save_future :
        (k j : String) (s : FutureStore V T) (r : FutureRecord V)
        → Dict.get s.records k ≡ some r
        → Dict.get (save_future env k s).redis j
          ≡ (if str_eq k j then text_of r else Dict.get s.redis j)
    get-redis-save_future k j s r e =
        let (t, found) = text_of-IsSome r in
        ap (λ d. Dict.get d j)
          (redis-save_future env k s r e ∙ if_true _ _ on ∙ save_or_strip-some k r s.redis t found)
        ∙ get-put s.redis k j t
        ∙ ap (λ o. if str_eq k j then o else Dict.get s.redis j) (sym found)

    save_put-IsMirrored :
        (k : String) (r : FutureRecord V) (s : FutureStore V T)
        → IsMirrored s
        → IsMirrored (save_future env k (assign k r s))
    save_put-IsMirrored k r s m j =
        get-redis-save_future k j (assign k r s) r (get-put_self s.records k r)
        ∙ rw (records-save_future, get-put, m j) (split (str_eq k j))
      where
        split :
            (b : Bool)
            → (if b then text_of r else saved_text (Dict.get s.records j))
              ≡ saved_text (if b then some r else Dict.get s.records j)
        split true = refl
        split false = refl

    -- Setting the event changes no text.
    event-IsMirrored :
        (k : String) (r : FutureRecord V) (s : FutureStore V T)
        → IsMirrored s
        → Dict.get s.records k ≡ some r
        → IsMirrored (assign k (record r { event = true }) s)
    event-IsMirrored k r s m e j = m j ∙ elim (Bool-cases (str_eq k j)) [
      | inl same ↦
          ap saved_text (subst (λ i. Dict.get s.records i ≡ some r) ((eq_iff k j).0 same) e)
          ∙ ap saved_text {x = some (record r { event = true })}
              (sym (get-put s.records k j (record r { event = true }) ∙ if_true _ _ same))
      | inr other ↦ rw (get-put, other) refl
    ]

    mark_one-IsMirrored :
        (test : FutureRecord V → Bool) (reason : String) (o : Option (FutureRecord V))
        (s : FutureStore V T) (n : ℕ)
        → IsMirrored s
        → IsMirrored (mark_one env test reason o s n).0
    unfolding mark_one
    mark_one-IsMirrored test reason none s n m = m
    mark_one-IsMirrored test reason (some r) s n m =
        if-both (λ (x : FutureStore V T × ℕ). IsMirrored x.0) (test r)
          (save_put-IsMirrored r.request_id _ s m) m

    mark_each-IsMirrored :
        (test : FutureRecord V → Bool) (reason : String) (ks : List String) (s : FutureStore V T)
        (n : ℕ)
        → IsMirrored s
        → IsMirrored (mark_each env test reason ks s n).0
    unfolding mark_each
    mark_each-IsMirrored test reason [] s n m = m
    mark_each-IsMirrored test reason (k ∷ ks) s n m =
        mark_each-IsMirrored test reason ks _ _
          (mark_one-IsMirrored test reason (Dict.get s.records k) s n m)

    complete-IsMirrored :
        (k : String) (r : FutureRecord V) (s : FutureStore V T)
        → IsMirrored s
        → IsMirrored (assign k (record r { event = true }) (save_future env k (assign k r s)))
    complete-IsMirrored k r s m =
        event-IsMirrored k r (save_future env k (assign k r s)) (save_put-IsMirrored k r s m)
          (rw records-save_future (get-put_self s.records k r))

    mark_ready-IsMirrored :
        (k : String) (p : V) (s : FutureStore V T)
        → IsMirrored s
        → IsMirrored (mark_ready env k p s)
    unfolding mark_ready
    mark_ready-IsMirrored k p s m = elim (Option-cases (Dict.get s.records k)) [
      | inl e ↦ rw (e, mark_ready) m
      | inr (r, e) ↦
          rw (e, mark_ready)
            (complete-IsMirrored k (record r { payload = some p; status = ready; error = none }) s
              m)
    ]

    mark_failed-IsMirrored :
        (k : String) (failure : Error) (s : FutureStore V T)
        → IsMirrored s
        → IsMirrored (mark_failed env k failure s)
    unfolding mark_failed
    mark_failed-IsMirrored k failure s m = elim (Option-cases (Dict.get s.records k)) [
      | inl e ↦ rw (e, mark_failed) m
      | inr (r, e) ↦
          rw (e, mark_failed)
            (complete-IsMirrored k (record r { status = failed; error = some failure }) s m)
    ]

    cleanup-IsMirrored :
        (k : String) (s : FutureStore V T) → IsMirrored s → IsMirrored (cleanup env k s)
    unfolding cleanup
    cleanup-IsMirrored k s m j = ground (arith, get-pop s.redis k j, get-pop s.records k j, m j)

    -- A retrieval by the owner, and every step but the dropping of an expired key and a restart.
    abbrev pub IsQuiet : Step V → FutureStore V T → Type 0
    IsQuiet (retrieved wait id user) s =
        (r : FutureRecord V) → Dict.get s.records id ≡ some r → r.user_id ≡ some user
    IsQuiet (expire key) s = ⊥
    IsQuiet restart s = ⊥
    IsQuiet _ s = Unit

    retrieve-IsMirrored :
        (wait : Wait V) (k user : String) (s : FutureStore V T)
        → ((r : FutureRecord V) → Dict.get s.records k ≡ some r → r.user_id ≡ some user)
        → IsMirrored s
        → IsMirrored (retrieve wait k user s).0
    unfolding retrieve
    retrieve-IsMirrored wait k user s owns m = elim (Option-cases (Dict.get s.records k)) [
      | inl e ↦ rw (e, retrieve) m
      | inr (r, e) ↦ rw (retrieve_owner wait k user s r e (owns r e)) m
    ]

    -- With persistence enabled, and if a record without a payload can always be dumped: every step
    -- of the registry but a retrieval by a user who is not the owner, the dropping of an expired key
    -- and a restart leaves Redis holding, at every id, exactly the text that a save of the current
    -- record writes, and nothing at the ids without a record.
    pub perform-IsMirrored :
        (a : Step V) (s : FutureStore V T)
        → IsQuiet a s
        → IsMirrored s
        → IsMirrored (perform env a s)
    unfolding perform finish enqueue create_ready_future marks
    perform-IsMirrored (enqueued id user model queue op args) s q m =
        save_put-IsMirrored id _ (record s { next_future_id = s.next_future_id + 1 }) m
    perform-IsMirrored (made_ready id p user model) s q m =
        save_put-IsMirrored id _ (record s { next_future_id = s.next_future_id + 1 }) m
    perform-IsMirrored (finished id (returned p)) s q m = mark_ready-IsMirrored id p s m
    perform-IsMirrored (finished id (raised e)) s q m = mark_failed-IsMirrored id e s m
    perform-IsMirrored (finished id (crashed x)) s q m =
        mark_failed-IsMirrored id (server_error x) s m
    perform-IsMirrored (retrieved wait id user) s q m = retrieve-IsMirrored wait id user s q m
    perform-IsMirrored (cleaned id) s q m = cleanup-IsMirrored id s m
    perform-IsMirrored (failed_after model checkpoint x) s q m =
        mark_each-IsMirrored
          (λ r. opt_eq r.model_id model && past_checkpoint checkpoint r.future_id) x
          (Dict.keys s.records) s 0 m
    perform-IsMirrored (failed_pending x) s q m =
        mark_each-IsMirrored (λ r. is_pending r.status) x (Dict.keys s.records) s 0 m
    perform-IsMirrored (failed_model model x) s q m =
        mark_each-IsMirrored (λ r. opt_eq r.model_id model && is_pending r.status) x
          (Dict.keys s.records) s 0 m
    perform-IsMirrored (failed_samples x) s q m =
        mark_each-IsMirrored (λ r. is_pending r.status && is_sample r.operation_type) x
          (Dict.keys s.records) s 0 m
    perform-IsMirrored (expire key) s q m = absurd q
    perform-IsMirrored restart s q m = absurd q

  -- In a well-formed registry whose records are mirrored in Redis, with persistence enabled: if the
  -- text of a completed record was written with its payload, and pydantic reads from it a record
  -- with the same owner, status, payload and error, then after a crash and a restart its owner is
  -- answered as before.
  pub retrieve-restart :
      (wait : Wait V) (id owner : String) (s : FutureStore V T) (r r' : FutureRecord V) (t : T)
      → env.enabled ≡ true
      → IsValid env s
      → IsMirrored s
      → Dict.get s.records id ≡ some r
      → r.user_id ≡ some owner
      → is_pending r.status ≡ false
      → env.dumps (record r { event = false }) ≡ some t
      → env.loads t ≡ some r'
      → r'.user_id ≡ r.user_id
      → r'.status ≡ r.status
      → r'.payload ≡ r.payload
      → r'.error ≡ r.error
      → (retrieve wait id owner (restore_from_redis env s.redis)).1 ≡ (retrieve wait id owner s).1
  unfolding await_result loaded
  retrieve-restart wait id owner s r r' t on v m e own completed dumped read user status pay error =
      ap (λ a. a.1)
        (retrieve_owner wait id owner _ (revive r') restored (revived_user ∙ user ∙ own))
      ∙ same_answer
      ∙ sym (ap (λ a. a.1) (retrieve_owner wait id owner s r e own))
    where
      in_redis : Dict.get s.redis id ≡ some t
      in_redis =
          m id
          ∙ ap saved_text e
          ∙ ap (λ o. or_stripped o (env.dumps (record r { payload = none; event = false }))) dumped

      restored : Dict.get (restore_from_redis env s.redis).records id ≡ some (revive r')
      restored =
          get-restore_from_redis env s.redis id v.saved_once (valid-IsOwn env s v)
          ∙ if_true (loaded env (Dict.get s.redis id)) none on
          ∙ ap (loaded env) in_redis
          ∙ ap (opt_map revive) read

      revived_user : (revive r').user_id ≡ r'.user_id
      revived_user = ground arith

      same_answer : await_result wait (revive r') ≡ await_result wait r
      same_answer = ground arith
