-- ===== src/Futures/Restart.antt =====
-- What a restart makes of the texts in Redis, record by record.
use tu_ft.Base.{
  ◌<◌, ◌≤◌, String, ◌≡◌, refl, sym, subst, ◌∙◌, Bool, true, false, Option, none, some, [], ◌∷◌,
  str_eq, if◌then◌else◌, if-both, opt_map, arith, eq_iff, Bool-cases, inl, inr,
}
use tu_ft.Dict
use tu_ft.Dict.{Dict, get-put, get-pop}
use tu_ft.Dict.Unique.{IsUnique}
use tu_ft.Futures.{FutureRecord, FutureStore, Env, is_completed, set_event_if_completed}
use tu_ft.Futures.Restore.{restore_record, restore_all, restore_from_redis}
use tu_ft.Futures.Invariant.{IsValid, IsStored}

-- A record as it stands after loading: its event is set exactly when it is completed.
unfoldable pub revive : {V : Type 0} → FutureRecord V → FutureRecord V
unfolding set_event_if_completed
revive r = set_event_if_completed (record r { event = false })

revive_ids :
    {V : Type 0} (r : FutureRecord V)
    → ((revive r).request_id ≡ r.request_id)
      × ((revive r).future_id ≡ r.future_id)
      × ((revive r).event ≡ is_completed (revive r).status)
unfolding revive
revive_ids r = ground arith

module _ {V T : Type 0} (env : Env V T) where
  unfoldable pub loaded : Option T → Option (FutureRecord V)
  unfolding revive
  loaded none = none
  loaded (some t) = opt_map revive (env.loads t)

  abbrev or_old : Option (FutureRecord V) → Option (FutureRecord V) → Option (FutureRecord V)
  or_old none old = old
  or_old (some r) old = some r

  -- Each text that loads is the text of a record with the key as its request id.
  abbrev pub IsOwn : Dict T → Type 0
  IsOwn d =
      (k : String) (t : T) (r : FutureRecord V)
      → Dict.get d k ≡ some t
      → env.loads t ≡ some r
      → r.request_id ≡ k

  tail-IsOwn :
      (k : String) (t : T) (d : Dict T) → Dict.get d k ≡ none → IsOwn ((k, t) ∷ d) → IsOwn d
  unfolding Dict.get
  tail-IsOwn k t d u own j t' r h l = own j t' r (ground (arith, eq_iff k j)) l

  get-restore_record :
      (k : String) (o : Option (FutureRecord V)) (j : String) (s : FutureStore V T)
      → ((r : FutureRecord V) → o ≡ some r → r.request_id ≡ k)
      → Dict.get (restore_record o s).records j ≡ (
          if str_eq k j
          then or_old (opt_map revive o) (Dict.get s.records j)
          else Dict.get s.records j)
  unfolding restore_record revive
  get-restore_record k none j s own = ground arith
  get-restore_record k (some r) j s own =
      let r' = set_event_if_completed (record r { event = false }) in
      ground (arith, own r refl, get-put s.records r'.request_id j r')

  get-restore_all :
      (d : Dict T) (s : FutureStore V T) (j : String)
      → IsUnique d
      → IsOwn d
      → Dict.get (restore_all env d s).records j
        ≡ or_old (loaded (Dict.get d j)) (Dict.get s.records j)
  unfolding restore_all loaded Dict.get
  get-restore_all [] s j u own = refl
  get-restore_all ((k, t) ∷ d) s j u own =
      get-restore_all d (restore_record (env.loads t) s) j u.1 (tail-IsOwn k t d u.0 own)
      ∙ rw
          (get-restore_record k (env.loads t) j s (λ r e. own k t r (ground (arith, eq_iff k k)) e))
          (elim (Bool-cases (str_eq k j)) [
            | inl same ↦ rw (same, subst (λ i. Dict.get d i ≡ none) ((eq_iff k j).0 same) u.0) refl
            | inr other ↦ rw other refl
          ])

  IsBounded : FutureStore V T → Type 0
  IsBounded s =
      (1 ≤ s.next_future_id)
      × ((k : String) (r : FutureRecord V)
          → Dict.get s.records k ≡ some r
          → r.future_id < s.next_future_id)

  restore_record-IsBounded :
      (o : Option (FutureRecord V)) (s : FutureStore V T)
      → IsBounded s
      → IsBounded (restore_record o s)
  unfolding restore_record IsBounded
  restore_record-IsBounded none s b = b
  restore_record-IsBounded (some r) s b =
      let r' = set_event_if_completed (record r { event = false }) in
      (ground arith, λ k r1 h. ground (arith, b.1 k r1, get-put s.records r'.request_id k r'))

  restore_all-IsBounded :
      (d : Dict T) (s : FutureStore V T) → IsBounded s → IsBounded (restore_all env d s)
  unfolding restore_all
  restore_all-IsBounded [] s b = b
  restore_all-IsBounded ((k, t) ∷ d) s b =
      restore_all-IsBounded d _ (restore_record-IsBounded (env.loads t) s b)

  -- After a restart the registry holds, at each id, what the text in Redis at that id loads to.
  pub get-restore_from_redis :
      (redis : Dict T) (j : String)
      → IsUnique redis
      → (env.enabled ≡ true → IsOwn redis)
      → Dict.get (restore_from_redis env redis).records j
        ≡ (if env.enabled then loaded (Dict.get redis j) else none)
  unfolding restore_from_redis Dict.get
  get-restore_from_redis redis j u own = elim (Bool-cases env.enabled) [
    | inl on ↦ simp on (get-restore_all redis _ j u (own on) ∙ or_none (loaded (Dict.get redis j)))
    | inr off ↦ simp off
  ]
    where
      or_none : (o : Option (FutureRecord V)) → or_old o none ≡ o
      or_none none = refl
      or_none (some r) = refl

  redis-restore_all : (d : Dict T) (s : FutureStore V T) → (restore_all env d s).redis ≡ s.redis
  unfolding restore_all restore_record
  redis-restore_all [] s = refl
  redis-restore_all ((k, t) ∷ d) s =
      redis-restore_all d (restore_record (env.loads t) s) ∙ kept (env.loads t)
    where
      kept : (o : Option (FutureRecord V)) → (restore_record o s).redis ≡ s.redis
      kept none = refl
      kept (some r) = refl

  module _ (s : FutureStore V T) (v : IsValid env s) where
    pub valid-IsOwn : env.enabled ≡ true → IsOwn s.redis
    valid-IsOwn on k t r h l =
        let (r0, g, same_request, same_future) = v.stored on k t r h l in
        ground (arith, v.keyed k r0 g)

    -- Where a restored record comes from.
    record Origin (k : String) (r : FutureRecord V) : Type 0 where
      text : T
      read : FutureRecord V
      before : FutureRecord V
      at_text : Dict.get s.redis k ≡ some text
      at_read : env.loads text ≡ some read
      revived : r ≡ revive read
      at_before : Dict.get s.records k ≡ some before
      same_request : r.request_id ≡ before.request_id
      same_future : r.future_id ≡ before.future_id
      event_set : r.event ≡ is_completed r.status

    origin :
        (k : String) (r : FutureRecord V)
        → Dict.get (restore_from_redis env s.redis).records k ≡ some r
        → Origin k r
    unfolding loaded
    origin k r h =
        from_if env.enabled refl
          (sym (get-restore_from_redis s.redis k v.saved_once valid-IsOwn) ∙ h)
      where
        from_read :
            env.enabled ≡ true
            → (t : T) (o : Option (FutureRecord V)) → Dict.get s.redis k ≡ some t
            → env.loads t ≡ o
            → opt_map revive o ≡ some r
            → Origin k r
        from_read on t none at_text at_read e = cc
        from_read on t (some read) at_text at_read e =
            let (before, at_before, same_request, same_future) =
              v.stored on k t read at_text at_read in
            record {
              text = t;
              read = read;
              before = before;
              at_text = at_text;
              at_read = at_read;
              revived = ground arith;
              at_before = at_before;
              same_request = ground (arith, revive_ids read);
              same_future = ground (arith, revive_ids read);
              event_set = ground (arith, revive_ids read);
            }

        from_text :
            env.enabled ≡ true
            → (o : Option T) → Dict.get s.redis k ≡ o
            → loaded o ≡ some r
            → Origin k r
        from_text on none at_text e = cc
        from_text on (some t) at_text e = from_read on t (env.loads t) at_text refl e

        from_if :
            (b : Bool)
            → env.enabled ≡ b
            → (if b then loaded (Dict.get s.redis k) else none) ≡ some r
            → Origin k r
        from_if true on e = from_text on (Dict.get s.redis k) refl e
        from_if false off e = cc

    restored-IsStored :
        env.enabled ≡ true → IsStored env (restore_from_redis env s.redis).records s.redis
    unfolding loaded
    restored-IsStored on k t read at_text at_read = (
      revive read,
      get-restore_from_redis s.redis k v.saved_once valid-IsOwn
          ∙ simp on (simp at_text (simp at_read)),
      sym (revive_ids read).0,
      sym (revive_ids read).1,
    )

    redis-restore_from_redis : (restore_from_redis env s.redis).redis ≡ s.redis
    unfolding restore_from_redis
    redis-restore_from_redis =
        if-both (λ (x : FutureStore V T). x.redis ≡ s.redis) env.enabled
          (redis-restore_all s.redis _) refl

    restored-IsBounded : IsBounded (restore_from_redis env s.redis)
    unfolding restore_from_redis IsBounded Dict.get
    restored-IsBounded =
        if-both IsBounded env.enabled (restore_all-IsBounded s.redis _ (omega arith, λ k r h. cc))
          (omega arith, λ k r h. cc)

    -- A restart, after a crash at any point, leaves a well-formed registry.
    pub restore_from_redis-IsValid : IsValid env (restore_from_redis env s.redis)
    unfolding IsBounded
    restore_from_redis-IsValid = record {
      keyed = λ k r h. let o = origin k r h in o.same_request ∙ v.keyed k o.before o.at_before;
      positive = restored-IsBounded.0;
      below = restored-IsBounded.1;
      woken = λ k r h e. sym (origin k r h).event_set ∙ e;
      distinct = λ k j r r' h h' e.
          let o = origin k r h in
          let o' = origin j r' h' in
          v.distinct k j o.before o'.before o.at_before o'.at_before
            (sym o.same_future ∙ e ∙ o'.same_future);
      stored = λ on. rw redis-restore_from_redis (restored-IsStored on);
      saved_once = rw redis-restore_from_redis v.saved_once;
    }
