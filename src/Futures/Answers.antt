-- ===== src/Futures/Answers.antt =====
-- What `retrieve` answers.
use tu_ft.Base.{
  String, ◌≡◌, ◌≢◌, refl, ap, sym, subst, ◌∙◌, true, false, none, some, str_eq, if◌then◌else◌,
  opt_eq, if-if, arith, eq_iff, str_eq_self, str_eq_ne,
}
use tu_ft.Dict
use tu_ft.Dict.{Dict, get-put, get-put_self}
use tu_ft.Errors.{server_error, future_not_found, user_mismatch, Result, ok, err}
use tu_ft.Futures.{
  FutureRecord, FutureStore, Env, pending, ready, failed, Answer, payload, Outcome, returned,
  raised, crashed, assign, finish, mark_ready, mark_failed,
}
use tu_ft.Futures.Effects.{records-save_future}
use tu_ft.Futures.Retrieve.{Wait, retrieve, await_result}

-- The answer that the end of an operation should lead to.
abbrev pub answer_of : {V : Type 0} → Outcome V → Result (Answer V)
answer_of (returned v) = ok (payload (some v))
answer_of (raised e) = err e
answer_of (crashed message) = err (server_error message)

-- The record after its operation has ended.
abbrev done : {V : Type 0} → Outcome V → FutureRecord V → FutureRecord V
done (returned v) r = record r { payload = some v; status = ready; error = none; event = true }
done (raised e) r = record r { status = failed; error = some e; event = true }
done (crashed message) r = record r {
  status = failed;
  error = some (server_error message);
  event = true;
}

module _ {V T : Type 0} where
  pub retrieve_owner :
      (wait : Wait V) (k user : String) (s : FutureStore V T) (r : FutureRecord V)
      → Dict.get s.records k ≡ some r
      → r.user_id ≡ some user
      → retrieve wait k user s ≡ (s, await_result wait r)
  unfolding retrieve
  retrieve_owner wait k user s r e o =
      let same : opt_eq r.user_id (some user) ≡ true =
        subst (λ u. opt_eq u (some user) ≡ true) (sym o) (str_eq_self user) in
      rw (e, retrieve) (rw same)

  pub retrieve_other :
      (wait : Wait V) (k owner user : String) (s : FutureStore V T) (r : FutureRecord V)
      → Dict.get s.records k ≡ some r
      → r.user_id ≡ some owner
      → user ≢ owner
      → retrieve wait k user s ≡ (assign k (record r { status = failed }) s, err user_mismatch)
  unfolding retrieve
  retrieve_other wait k owner user s r e o ne =
      let differs : opt_eq r.user_id (some user) ≡ false =
        subst (λ u. opt_eq u (some user) ≡ false) (sym o)
          (str_eq_ne owner user (λ q. ne (sym q))) in
      rw (e, retrieve) (rw differs)

  retrieve_absent :
      (wait : Wait V) (k user : String) (s : FutureStore V T)
      → Dict.get s.records k ≡ none
      → (retrieve wait k user s).1 ≡ err (future_not_found k)
  unfolding retrieve
  retrieve_absent wait k user s e = ground arith

  get-finish :
      (env : Env V T) (k j : String) (outcome : Outcome V) (s : FutureStore V T)
      (r : FutureRecord V)
      → Dict.get s.records k ≡ some r
      → Dict.get (finish env k outcome s).records j
        ≡ (if str_eq k j then some (done outcome r) else Dict.get s.records j)
  unfolding finish
  get-finish env k j (returned v) s r e =
      rw (e, mark_ready, get-put, records-save_future, get-put) (if-if (str_eq k j) _ _ _)
  get-finish env k j (raised x) s r e =
      rw (e, mark_failed, get-put, records-save_future, get-put) (if-if (str_eq k j) _ _ _)
  get-finish env k j (crashed m) s r e =
      rw (e, mark_failed, get-put, records-save_future, get-put) (if-if (str_eq k j) _ _ _)

module _ {V T : Type 0} (env : Env V T) where
  -- Once the operation of a registered future has ended, its owner is answered at once, whatever a
  -- wait would see: with the payload that it returned, or by the error that it raised, an exception
  -- that is none of TuFT's own as a server error; and the retrieval leaves the store as it was, so
  -- that it can be repeated. Any other user is refused, and an id that is not registered is not
  -- found.
  pub retrieve-finish :
      (wait : Wait V) (id other owner user : String) (outcome : Outcome V) (s : FutureStore V T)
      (r : FutureRecord V)
      → Dict.get s.records id ≡ some r
      → r.user_id ≡ some owner
      → user ≢ owner
      → Dict.get s.records other ≡ none
      → (retrieve wait id owner (finish env id outcome s)
          ≡ (finish env id outcome s, answer_of outcome))
        × ((retrieve wait id user (finish env id outcome s)).1 ≡ err user_mismatch)
        × ((retrieve wait other user (finish env id outcome s)).1 ≡ err (future_not_found other))
  unfolding await_result
  retrieve-finish wait id other owner user outcome s r e o ne absent = (
    retrieve_owner wait id owner after (done outcome r) here (kept_owner outcome ∙ o)
        ∙ ap (λ a. (after, a)) (answer outcome),
    ap (λ p. p.1)
        (retrieve_other wait id owner user after (done outcome r) here (kept_owner outcome ∙ o) ne),
    retrieve_absent wait other user after
        (ground (arith, get-finish env id other outcome s r e, eq_iff id other)),
  )
    where
      after : FutureStore V T
      after = finish env id outcome s

      here : Dict.get after.records id ≡ some (done outcome r)
      here = get-finish env id id outcome s r e ∙ simp str_eq_self

      kept_owner : (x : Outcome V) → (done x r).user_id ≡ r.user_id
      kept_owner (returned v) = refl
      kept_owner (raised x) = refl
      kept_owner (crashed m) = refl

      answer : (x : Outcome V) → await_result wait (done x r) ≡ answer_of x
      answer (returned v) = refl
      answer (raised x) = refl
      answer (crashed m) = refl

-- While a future is pending and has no error, a retrieval by a user who is not its owner is refused,
-- yet it marks the record as failed, keeps all else of it, and touches no other: after it the owner is answered at once, without a wait, with
-- whatever payload the pending record has.
pub retrieve_after_other :
    {V T : Type 0} (wait wait' : Wait V) (id owner user : String) (s : FutureStore V T)
    (r : FutureRecord V)
    → Dict.get s.records id ≡ some r
    → r.user_id ≡ some owner
    → user ≢ owner
    → r.status ≡ pending
    → r.error ≡ none
    → ((retrieve wait id user s).1 ≡ err user_mismatch)
      × (Dict.get (retrieve wait id user s).0.records id ≡ some (record r { status = failed }))
      × ((k : String)
          → k ≢ id
          → Dict.get (retrieve wait id user s).0.records k ≡ Dict.get s.records k)
      × ((retrieve wait' id owner (retrieve wait id user s).0).1 ≡ ok (payload r.payload))
unfolding await_result
retrieve_after_other wait wait' id owner user s r e o ne p no_error =
    simp (retrieve_other wait id owner user s r e o ne) (
      refl,
      get-put_self s.records id (record r { status = failed }),
      (λ k other.
          ground (arith, get-put s.records id k (record r { status = failed }), eq_iff id k)),
      ap (λ a. a.1)
            (retrieve_owner wait' id owner _ (record r { status = failed })
              (get-put_self s.records id (record r { status = failed })) o)
          ∙ simp no_error,
    )
