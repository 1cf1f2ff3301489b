-- ===== src/Futures/Reached.antt =====
-- The invariant of every state that a registry of src/tuft/futures.py can reach.
use tu_ft.Base.{
  ℕ, ◌+◌, String, ◌≡◌, refl, sym, subst, ◌∙◌, Bool, true, ◌&&◌, Option, none, some, List, [], ◌∷◌,
  if-both, opt_eq, arith, Option-cases, inl, inr,
}
use tu_ft.Dict
use tu_ft.Dict.{Dict, get-put, get-put_self, get-pop}
use tu_ft.Dict.Unique.{IsUnique, pop-IsUnique}
use tu_ft.Errors.{Error, Result, server_error, future_cancelled}
use tu_ft.Futures.{
  FutureRecord, FutureStore, Env, ready, failed, Answer, returned, raised, crashed, is_pending,
  is_completed, assign, enqueue, create_ready_future, finish, mark_ready, mark_failed, cleanup,
  save_future, is_sample,
}
use tu_ft.Futures.Retrieve.{Wait, retrieve}
use tu_ft.Futures.Marking.{
  mark_one, mark_each, past_checkpoint, mark_futures_failed_after_checkpoint,
  mark_all_pending_failed, mark_model_pending_futures_failed, mark_pending_sample_futures_failed,
}
use tu_ft.Futures.Effects.{records-save_future}
use tu_ft.Futures.Invariant.{IsValid, CanPut, KeepsIds, put-IsValid, save_future-IsValid}
use tu_ft.Futures.Restart.{restore_from_redis-IsValid}
use tu_ft.Futures.Steps.{
  Step, enqueued, made_ready, finished, retrieved, cleaned, failed_after, failed_pending,
  failed_model, failed_samples, expire, restart, perform, IsFresh, initial, Reach, start, next,
}

module _ {V T : Type 0} (env : Env V T) where
  initial-IsValid : IsValid env (initial env)
  unfolding Dict.get
  initial-IsValid = record {
    keyed = λ k r h. cc;
    positive = omega arith;
    below = λ k r h. cc;
    woken = λ k r h e. cc;
    distinct = λ k j r r' h h' e. cc;
    stored = λ on k t r' h l. cc;
    saved_once = tt;
  }

  module _ (s : FutureStore V T) (v : IsValid env s) where
    -- A record of the registry may be put back with another state.
    update-CanPut :
        (k : String) (r0 r : FutureRecord V)
        → Dict.get s.records k ≡ some r0
        → r.request_id ≡ r0.request_id
        → r.future_id ≡ r0.future_id
        → (r.event ≡ true → is_completed r.status ≡ true)
        → CanPut env r s
    update-CanPut k r0 r h same_request same_future w = record {
      below = omega (arith, v.below k r0 h);
      woken = w;
      distinct = λ j r' h' e.
          v.distinct j k r' r0 h' h (e ∙ same_future) ∙ sym (v.keyed k r0 h) ∙ sym same_request;
      same = λ r' h'. ground (arith, v.keyed k r0 h);
    }

    -- A record that takes the next id.
    bump-IsValid : IsValid env (record s { next_future_id = s.next_future_id + 1 })
    bump-IsValid = record {
      keyed = v.keyed;
      positive = omega (arith, v.positive);
      below = λ k r h. omega (arith, v.below k r h);
      woken = v.woken;
      distinct = v.distinct;
      stored = v.stored;
      saved_once = v.saved_once;
    }

    new-CanPut :
        (r : FutureRecord V)
        → Dict.get s.records r.request_id ≡ none
        → r.future_id ≡ s.next_future_id
        → (r.event ≡ true → is_completed r.status ≡ true)
        → CanPut env r (record s { next_future_id = s.next_future_id + 1 })
    new-CanPut r absent e w = record {
      below = omega arith;
      woken = w;
      distinct = λ j r' h' e'. absurd (omega (arith, v.below j r' h'));
      same = λ r' h'. cc;
    }

  module _ (keeps : KeepsIds env) where
    -- The record at a key is put back in another state, and saved.
    save_update-IsValid :
        (k : String) (r0 r : FutureRecord V) (s : FutureStore V T)
        → IsValid env s
        → Dict.get s.records k ≡ some r0
        → r.request_id ≡ r0.request_id
        → r.future_id ≡ r0.future_id
        → (r.event ≡ true → is_completed r.status ≡ true)
        → IsValid env (save_future env r.request_id (assign r.request_id r s))
    save_update-IsValid k r0 r s v h same_request same_future w =
        save_future-IsValid env keeps r.request_id _
          (put-IsValid env r s v (update-CanPut s v k r0 r h same_request same_future w))

    -- The same, and then the event is set.
    complete-IsValid :
        (k : String) (r0 r : FutureRecord V) (s : FutureStore V T)
        → IsValid env s
        → Dict.get s.records k ≡ some r0
        → r.request_id ≡ k
        → r.future_id ≡ r0.future_id
        → is_completed r.status ≡ true
        → IsValid env (assign k (record r { event = true }) (save_future env k (assign k r s)))
    complete-IsValid k r0 r s v h e same_future w =
        subst
          (λ i.
            IsValid env (assign i (record r { event = true }) (save_future env i (assign i r s))))
          e
          (put-IsValid env (record r { event = true }) saved saved-valid
            (update-CanPut saved saved-valid r.request_id r (record r { event = true }) here refl
              refl (λ _. w)))
      where
        saved : FutureStore V T
        saved = save_future env r.request_id (assign r.request_id r s)

        saved-valid : IsValid env saved
        saved-valid =
            save_update-IsValid k r0 r s v h (e ∙ sym (v.keyed k r0 h)) same_future (λ _. w)

        here : Dict.get saved.records r.request_id ≡ some r
        here = rw records-save_future (get-put_self s.records r.request_id r)

    mark_one-IsValid :
        (test : FutureRecord V → Bool) (reason k : String) (o : Option (FutureRecord V))
        (s : FutureStore V T) (n : ℕ)
        → IsValid env s
        → Dict.get s.records k ≡ o
        → IsValid env (mark_one env test reason o s n).0
    unfolding mark_one
    mark_one-IsValid test reason k none s n v e = v
    mark_one-IsValid test reason k (some r) s n v e =
        if-both (λ (x : FutureStore V T × ℕ). IsValid env x.0) (test r)
          (save_update-IsValid k r
            (record r {
              status = failed;
              error = some (future_cancelled r.request_id reason);
              event = true;
            })
            s v e refl refl (λ _. refl))
          v

    mark_each-IsValid :
        (test : FutureRecord V → Bool) (reason : String) (ks : List String) (s : FutureStore V T)
        (n : ℕ)
        → IsValid env s
        → IsValid env (mark_each env test reason ks s n).0
    unfolding mark_each
    mark_each-IsValid test reason [] s n v = v
    mark_each-IsValid test reason (k ∷ ks) s n v =
        let o = Dict.get s.records k in
        mark_each-IsValid test reason ks _ _ (mark_one-IsValid test reason k o s n v refl)

    mark_ready-IsValid :
        (k : String) (p : V) (s : FutureStore V T)
        → IsValid env s
        → IsValid env (mark_ready env k p s)
    unfolding mark_ready
    mark_ready-IsValid k p s v = elim (Option-cases (Dict.get s.records k)) [
      | inl e ↦ rw (e, mark_ready) v
      | inr (r, e) ↦
          rw (e, mark_ready)
            (complete-IsValid k r (record r { payload = some p; status = ready; error = none }) s v
              e (v.keyed k r e) refl refl)
    ]

    mark_failed-IsValid :
        (k : String) (failure : Error) (s : FutureStore V T)
        → IsValid env s
        → IsValid env (mark_failed env k failure s)
    unfolding mark_failed
    mark_failed-IsValid k failure s v = elim (Option-cases (Dict.get s.records k)) [
      | inl e ↦ rw (e, mark_failed) v
      | inr (r, e) ↦
          rw (e, mark_failed)
            (complete-IsValid k r (record r { status = failed; error = some failure }) s v e
              (v.keyed k r e) refl refl)
    ]

    retrieve-IsValid :
        (wait : Wait V) (k user : String) (s : FutureStore V T)
        → IsValid env s
        → IsValid env (retrieve wait k user s).0
    unfolding retrieve
    retrieve-IsValid wait k user s v = elim (Option-cases (Dict.get s.records k)) [
      | inl e ↦ rw (e, retrieve) v
      | inr (r, e) ↦
          rw (e, retrieve)
            (if-both (λ (x : FutureStore V T × Result (Answer V)). IsValid env x.0)
              (opt_eq r.user_id (some user)) v
              (subst (λ i. IsValid env (assign i (record r { status = failed }) s)) (v.keyed k r e)
                (put-IsValid env (record r { status = failed }) s v
                  (update-CanPut s v k r (record r { status = failed }) e refl refl (λ _. refl)))))
    ]

    cleanup-IsValid :
        (k : String) (s : FutureStore V T) → IsValid env s → IsValid env (cleanup env k s)
    unfolding cleanup
    cleanup-IsValid k s v = record {
      keyed = λ j r h. v.keyed j r (kept j r h);
      positive = rw next v.positive;
      below = λ j r h. rw next (v.below j r (kept j r h));
      woken = λ j r h. v.woken j r (kept j r h);
      distinct = λ j i r r' h h'. v.distinct j i r r' (kept j r h) (kept i r' h');
      stored = λ on j t r' h l.
          let (r0, g, same_request, same_future) =
            v.stored on j t r' (ground (arith, get-pop s.redis k j)) l in
          (
            r0,
            ground (arith, get-pop s.redis k j, get-pop s.records k j),
            same_request,
            same_future,
          );
      saved_once = if-both IsUnique env.enabled (pop-IsUnique s.redis k v.saved_once) v.saved_once;
    }
      where
        kept :
            (j : String) (r : FutureRecord V)
            → Dict.get (cleanup env k s).records j ≡ some r
            → Dict.get s.records j ≡ some r
        kept j r h = ground (arith, get-pop s.records k j)

        next : (cleanup env k s).next_future_id ≡ s.next_future_id
        next = ground arith

    expire-IsValid :
        (k : String) (s : FutureStore V T)
        → IsValid env s
        → IsValid env (record s { redis = Dict.pop s.redis k })
    expire-IsValid k s v = record {
      keyed = v.keyed;
      positive = v.positive;
      below = v.below;
      woken = v.woken;
      distinct = v.distinct;
      stored = λ on j t r' h l. v.stored on j t r' (ground (arith, get-pop s.redis k j)) l;
      saved_once = pop-IsUnique s.redis k v.saved_once;
    }

    unfoldable pub marks : Unit {0}
    unfolding mark_futures_failed_after_checkpoint mark_all_pending_failed
        mark_model_pending_futures_failed mark_pending_sample_futures_failed
    marks = tt

    perform-IsValid :
        (a : Step V) (s : FutureStore V T)
        → IsValid env s
        → IsFresh env a s
        → IsValid env (perform env a s)
    unfolding perform finish enqueue create_ready_future marks
    perform-IsValid (enqueued id user model queue op args) s v fresh =
        save_future-IsValid env keeps id _ (
          put-IsValid env _ (record s { next_future_id = s.next_future_id + 1 }) (bump-IsValid s v)
            (new-CanPut s v _ fresh refl (λ e. cc)))
    perform-IsValid (made_ready id p user model) s v fresh = save_future-IsValid env keeps id _ (
        put-IsValid env _ (record s { next_future_id = s.next_future_id + 1 }) (bump-IsValid s v)
          (new-CanPut s v _ fresh refl (λ e. refl)))
    perform-IsValid (finished id (returned p)) s v fresh = mark_ready-IsValid id p s v
    perform-IsValid (finished id (raised e)) s v fresh = mark_failed-IsValid id e s v
    perform-IsValid (finished id (crashed m)) s v fresh =
        mark_failed-IsValid id (server_error m) s v
    perform-IsValid (retrieved wait id user) s v fresh = retrieve-IsValid wait id user s v
    perform-IsValid (cleaned id) s v fresh = cleanup-IsValid id s v
    perform-IsValid (failed_after model checkpoint m) s v fresh =
        mark_each-IsValid (λ r. opt_eq r.model_id model && past_checkpoint checkpoint r.future_id) m
          (Dict.keys s.records) s 0 v
    perform-IsValid (failed_pending m) s v fresh =
        mark_each-IsValid (λ r. is_pending r.status) m (Dict.keys s.records) s 0 v
    perform-IsValid (failed_model model m) s v fresh =
        mark_each-IsValid (λ r. opt_eq r.model_id model && is_pending r.status) m
          (Dict.keys s.records) s 0 v
    perform-IsValid (failed_samples m) s v fresh =
        mark_each-IsValid (λ r. is_pending r.status && is_sample r.operation_type) m
          (Dict.keys s.records) s 0 v
    perform-IsValid (expire k) s v fresh = expire-IsValid k s v
    perform-IsValid restart s v fresh = restore_from_redis-IsValid env s v

-- If pydantic keeps the request id and the future id of what it writes and reads back, then in
-- every state that a registry reaches by any steps, restarts after a crash at any point, expiring
-- keys and retrievals by any user included: each record stands under its own request id, the
-- future ids are pairwise distinct and below the next one, a set event means that the record is
-- completed, and each readable text in Redis is of a record of the registry with the same ids.
pub Reach-IsValid :
    {V T : Type 0} (env : Env V T)
    → KeepsIds env
    → {s : FutureStore V T} → Reach env s
    → IsValid env s
Reach-IsValid env keeps start = initial-IsValid env
Reach-IsValid env keeps (next r a fresh) =
    perform-IsValid env keeps a _ (Reach-IsValid env keeps r) fresh
