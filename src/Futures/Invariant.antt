-- ===== src/Futures/Invariant.antt =====
-- The well-formed registry, and what keeps it so: single assignments, saves and the loading of one
-- record.
use tu_ft.Base.{
  ◌<◌, ◌≤◌, String, ◌≡◌, refl, true, false, none, some, str_eq, if◌then◌else◌, arith, eq_iff,
  if-both, Bool-cases, Option-cases, inl, inr,
}
use tu_ft.Dict
use tu_ft.Dict.{Dict, get-put, get-pop}
use tu_ft.Dict.Unique.{IsUnique}
use tu_ft.Persistence.{save_record, save_record_ind, save_record-IsUnique}
use tu_ft.Futures.{FutureRecord, FutureStore, Env, is_completed, assign, save_or_strip, save_future}
use tu_ft.Futures.Effects.{IsKeyed, records-save_future, next-save_future}

module _ {V T : Type 0} (env : Env V T) where
  -- What pydantic keeps of a record that it writes and reads back, whatever else becomes of it.
  abbrev pub KeepsIds : Type 0
  KeepsIds =
      (r : FutureRecord V) (t : T) (r' : FutureRecord V)
      → env.dumps r ≡ some t
      → env.loads t ≡ some r'
      → (r'.request_id ≡ r.request_id) × (r'.future_id ≡ r.future_id)

  -- Each text in Redis that can be read stands for the record of the same ids in the registry.
  abbrev pub IsStored : Dict (FutureRecord V) → Dict T → Type 0
  IsStored records redis =
      (k : String) (t : T) (r' : FutureRecord V)
      → Dict.get redis k ≡ some t
      → env.loads t ≡ some r'
      → (r : FutureRecord V) × (Dict.get records k ≡ some r)
        × (r'.request_id ≡ r.request_id)
        × (r'.future_id ≡ r.future_id)

  pub record IsValid (s : FutureStore V T) : Type 0 where
    pub keyed : IsKeyed s.records
    pub positive : 1 ≤ s.next_future_id
    pub below :
        (k : String) (r : FutureRecord V)
        → Dict.get s.records k ≡ some r
        → r.future_id < s.next_future_id
    pub woken :
        (k : String) (r : FutureRecord V)
        → Dict.get s.records k ≡ some r
        → r.event ≡ true
        → is_completed r.status ≡ true
    pub distinct :
        (k j : String) (r r' : FutureRecord V)
        → Dict.get s.records k ≡ some r
        → Dict.get s.records j ≡ some r'
        → r.future_id ≡ r'.future_id
        → k ≡ j
    pub stored : env.enabled ≡ true → IsStored s.records s.redis
    pub saved_once : IsUnique s.redis

  -- What a record must satisfy to be put under its request id.
  pub record CanPut (r : FutureRecord V) (s : FutureStore V T) : Type 0 where
    pub below : r.future_id < s.next_future_id
    pub woken : r.event ≡ true → is_completed r.status ≡ true
    pub distinct :
        (j : String) (r' : FutureRecord V)
        → Dict.get s.records j ≡ some r'
        → r'.future_id ≡ r.future_id
        → j ≡ r.request_id
    pub same :
        (r' : FutureRecord V)
        → Dict.get s.records r.request_id ≡ some r'
        → r'.future_id ≡ r.future_id

  module _ (r : FutureRecord V) (s : FutureStore V T) (v : IsValid s) (c : CanPut r s) where
    put-keyed : IsKeyed (Dict.put s.records r.request_id r)
    put-keyed k r' h =
        ground (arith, get-put s.records r.request_id k r, v.keyed k r', eq_iff r.request_id k)

    put-IsStored : env.enabled ≡ true → IsStored (Dict.put s.records r.request_id r) s.redis
    put-IsStored on k t r' h l =
        let (r0, g, same_request, same_future) = v.stored on k t r' h l in
        elim (Bool-cases (str_eq r.request_id k)) [
          | inl e ↦ (
            r,
            ground (arith, get-put s.records r.request_id k r),
            ground (arith, eq_iff r.request_id k, v.keyed k r0 g),
            ground (arith, eq_iff r.request_id k, c.same r0),
          )
          | inr e ↦
              (r0, ground (arith, get-put s.records r.request_id k r), same_request, same_future)
        ]

    pub put-IsValid : IsValid (assign r.request_id r s)
    put-IsValid = record {
      keyed = put-keyed;
      positive = v.positive;
      below = λ k r' h. ground (arith, get-put s.records r.request_id k r, v.below k r', c.below);
      woken = λ k r' h e. ground (arith, get-put s.records r.request_id k r, v.woken k r', c.woken);
      distinct = λ k j r1 r2 h1 h2 e. ground (
        arith,
        get-put s.records r.request_id k r,
        get-put s.records r.request_id j r,
        v.distinct k j r1 r2,
        eq_iff r.request_id k,
        eq_iff r.request_id j,
        c.distinct k r1,
        c.distinct j r2,
      );
      stored = put-IsStored;
      saved_once = v.saved_once;
    }

  pub redis-save_future :
      (k : String) (s : FutureStore V T) (r : FutureRecord V)
      → Dict.get s.records k ≡ some r
      → (save_future env k s).redis
        ≡ (if env.enabled then save_or_strip env k r s.redis else s.redis)
  unfolding save_future
  redis-save_future k s r e = rw e (ground arith)

  redis-save_future_absent :
      (k : String) (s : FutureStore V T)
      → Dict.get s.records k ≡ none
      → (save_future env k s).redis ≡ s.redis
  unfolding save_future
  redis-save_future_absent k s e = rw e (ground arith)

  save_future-IsUnique :
      (k : String) (s : FutureStore V T) → IsUnique s.redis → IsUnique (save_future env k s).redis
  unfolding save_or_strip
  save_future-IsUnique k s u = elim (Option-cases (Dict.get s.records k)) [
    | inl e ↦ rw (redis-save_future_absent k s e) u
    | inr (r, e) ↦
        let saved = save_record-IsUnique env k (record r { event = false }) s.redis u in
        rw (redis-save_future k s r e) (
          if-both IsUnique env.enabled
            (if-both IsUnique (save_record env k (record r { event = false }) s.redis).1 saved
              (save_record-IsUnique env k (record r { payload = none; event = false }) _ saved))
            u)
  ]

  module _ (keeps : KeepsIds) where
    save_record-IsStored :
        (k : String) (r r0 : FutureRecord V) (records : Dict (FutureRecord V)) (redis : Dict T)
        → Dict.get records k ≡ some r0
        → r.request_id ≡ r0.request_id
        → r.future_id ≡ r0.future_id
        → IsStored records redis
        → IsStored records (save_record env k r redis).0
    save_record-IsStored k r r0 records redis g same_request same_future st =
        save_record_ind env (λ d. IsStored records d) k r redis st
          λ t1 e j t r' h l. elim (Bool-cases (str_eq k j)) [
            | inl same ↦
                let ids = keeps r t1 r' e (ground (arith, get-put redis k j t1)) in
                (r0, ground (arith, eq_iff k j), ground (arith, ids.0), ground (arith, ids.1))
            | inr other ↦ st j t r' (ground (arith, get-put redis k j t1)) l
          ]

    save_or_strip-IsStored :
        (k : String) (r : FutureRecord V) (records : Dict (FutureRecord V)) (redis : Dict T)
        → Dict.get records k ≡ some r
        → IsStored records redis
        → IsStored records (save_or_strip env k r redis)
    unfolding save_or_strip
    save_or_strip-IsStored k r records redis g st =
        let kept =
          save_record-IsStored k (record r { event = false }) r records redis g refl refl st in
        if-both (IsStored records) (save_record env k (record r { event = false }) redis).1 kept (
          save_record-IsStored k (record r { payload = none; event = false }) r records _ g refl
            refl kept)

    save_future-IsStored :
        (k : String) (s : FutureStore V T)
        → IsStored s.records s.redis
        → IsStored s.records (save_future env k s).redis
    save_future-IsStored k s st = elim (Option-cases (Dict.get s.records k)) [
      | inl e ↦ rw (redis-save_future_absent k s e) st
      | inr (r, e) ↦ rw (redis-save_future k s r e) (
          if-both (IsStored s.records) env.enabled
            (save_or_strip-IsStored k r s.records s.redis e st) st)
    ]

    pub save_future-IsValid :
        (k : String) (s : FutureStore V T) → IsValid s → IsValid (save_future env k s)
    save_future-IsValid k s v = record {
      keyed = rw records-save_future v.keyed;
      positive = rw next-save_future v.positive;
      below = rw (records-save_future, next-save_future) v.below;
      woken = rw records-save_future v.woken;
      distinct = rw records-save_future v.distinct;
      stored = λ on. rw records-save_future (save_future-IsStored k s (v.stored on));
      saved_once = save_future-IsUnique k s v.saved_once;
    }
