-- ===== src/Sampling/Valid.antt =====
-- What holds of the sampling sessions and of their texts in Redis, and is kept by every operation.
use tu_ft.Base.{
  String, ◌≡◌, sym, ◌∙◌, ap, subst, true, some, List, [], ◌∷◌, arith, str_eq, eq_iff, if-both,
  Option-both, Bool-cases, inl, inr,
}
use tu_ft.Dict
use tu_ft.Dict.{Dict, get-put, get-pop, pop_all, elem, get-pop_all}
use tu_ft.Dict.Unique.{IsUnique, put-IsUnique, pop-IsUnique}
use tu_ft.Persistence.{Codec, save_record_ind, delete_record}
use tu_ft.Sampling.{Env, SamplingController, SamplingSessionRecord, save_session, delete_session}
use tu_ft.Sampling.Requests.{delete_each}
use tu_ft.Sampling.History.{IsChronicle, IsIndex}

-- A session stands under its own id, which is also its `model_id`.
abbrev pub IsOwned : String → SamplingSessionRecord → Type 0
IsOwned id r =
    (r.sampling_session_id ≡ id) × ((r.model_id ≡ id) × IsChronicle r.history r.last_seq_id)

abbrev pub IsSession : String → SamplingSessionRecord → Type 0
IsSession id r = IsOwned id r × IsIndex r.history_by_seq_id r.history

-- pydantic reads back the ids, the history and the last number of what it writes.
abbrev pub Keeps : {T : Type 0} → Codec SamplingSessionRecord T → Type 0
Keeps {T} codec =
    (r : SamplingSessionRecord) (t : T) (q : SamplingSessionRecord)
    → codec.dumps r ≡ some t
    → codec.loads t ≡ some q
    → (q.sampling_session_id ≡ r.sampling_session_id)
      × ((q.model_id ≡ r.model_id) × ((q.history ≡ r.history) × (q.last_seq_id ≡ r.last_seq_id)))

put-found :
    {V : Type 0} (d : Dict V) (k j : String) (v w : V)
    → Dict.get (Dict.put d k v) j ≡ some w
    → str_eq k j ≡ true
    → (k ≡ j) × (v ≡ w)
put-found d k j v w g e = (ground (arith, eq_iff k j), ground (arith, get-put d k j v))

module _ {S T P Q A : Type 0} (env : Env S T P Q A) where
  abbrev pub AreSessions : Dict SamplingSessionRecord → Type 0
  AreSessions sessions =
      (id : String) (r : SamplingSessionRecord) → Dict.get sessions id ≡ some r → IsSession id r

  abbrev pub AreTexts : Dict T → Type 0
  AreTexts redis =
      (id : String) (t : T) (r : SamplingSessionRecord)
      → Dict.get redis id ≡ some t
      → env.codec.loads t ≡ some r
      → IsOwned id r

  abbrev pub IsConsistent : SamplingController S T → Type 0
  IsConsistent s =
      AreSessions s.sampling_sessions
      × (IsUnique s.sampling_sessions × (AreTexts s.redis × IsUnique s.redis))

  put-AreSessions :
      (sessions : Dict SamplingSessionRecord) (id : String) (r : SamplingSessionRecord)
      → AreSessions sessions
      → IsSession id r
      → AreSessions (Dict.put sessions id r)
  put-AreSessions sessions id r h x j q g = elim (Bool-cases (str_eq id j)) [
    | inl e ↦
        let p = put-found sessions id j r q g e in
        subst (λ i. IsSession i q) p.0 (subst (IsSession id) p.1 x)
    | inr e ↦ h j q (ground (arith, get-put sessions id j r))
  ]

  put-AreTexts :
      (redis : Dict T) (id : String) (r : SamplingSessionRecord) (t : T)
      → Keeps env.codec
      → AreTexts redis
      → IsOwned id r
      → env.codec.dumps r ≡ some t
      → AreTexts (Dict.put redis id t)
  put-AreTexts redis id r t k h x d j u q g l = elim (Bool-cases (str_eq id j)) [
    | inl e ↦
        let p = put-found redis id j t u g e in
        let o = k r t q d (ap env.codec.loads p.1 ∙ l) in
        (
          o.0 ∙ x.0 ∙ p.0,
          (
            o.1.0 ∙ x.1.0 ∙ p.0,
            subst (λ h. IsChronicle h q.last_seq_id) (sym o.1.1.0)
                (subst (IsChronicle r.history) (sym o.1.1.1) x.1.1),
          ),
        )
    | inr e ↦ h j u q (ground (arith, get-put redis id j t)) l
  ]

  save_session-IsConsistent :
      (id : String) (s : SamplingController S T)
      → Keeps env.codec
      → IsConsistent s
      → IsConsistent (save_session env id s)
  unfolding save_session
  save_session-IsConsistent id s k h =
      Option-both IsConsistent (Dict.get s.sampling_sessions id) (λ e. h)
        (λ r e. (
          h.0,
          (
            h.1.0,
            save_record_ind env.codec (λ d. AreTexts d × IsUnique d) id r s.redis h.1.1
                (λ t d. (
                  put-AreTexts s.redis id r t k h.1.1.0 (h.0 id r e).0 d,
                  put-IsUnique s.redis id t h.1.1.1,
                )),
          ),
        ))

  -- A session is put into the controller, and saved.
  pub put_session-IsConsistent :
      (id : String) (r : SamplingSessionRecord) (s : SamplingController S T)
      → Keeps env.codec
      → IsConsistent s
      → IsSession id r
      → IsConsistent
          (save_session env id (record s { sampling_sessions = Dict.put s.sampling_sessions id r }))
  put_session-IsConsistent id r s k h x =
      save_session-IsConsistent id
        (record s { sampling_sessions = Dict.put s.sampling_sessions id r }) k
        (
          put-AreSessions s.sampling_sessions id r h.0 x,
          (put-IsUnique s.sampling_sessions id r h.1.0, h.1.1),
        )

  pop-AreTexts : (redis : Dict T) (id : String) → AreTexts redis → AreTexts (Dict.pop redis id)
  pop-AreTexts redis id h j t q g l = h j t q (ground (arith, get-pop redis id j)) l

  pop_session-IsConsistent :
      (id : String) (s : SamplingController S T)
      → IsConsistent s
      → IsConsistent
          (delete_session env id (record s { sampling_sessions = Dict.pop s.sampling_sessions id }))
  unfolding delete_session delete_record
  pop_session-IsConsistent id s h = (
    λ j q g. h.0 j q (ground (arith, get-pop s.sampling_sessions id j)),
    (
      pop-IsUnique s.sampling_sessions id h.1.0,
      if-both (λ d. AreTexts d × IsUnique d) env.codec.enabled
          (pop-AreTexts s.redis id h.1.1.0, pop-IsUnique s.redis id h.1.1.1) h.1.1,
    ),
  )

  pub delete_each-IsConsistent :
      (ids : List String) (s : SamplingController S T)
      → IsConsistent s
      → IsConsistent (delete_each env ids s)
  unfolding delete_each
  delete_each-IsConsistent [] s h = h
  delete_each-IsConsistent (id ∷ ids) s h =
      delete_each-IsConsistent ids
        (delete_session env id (record s { sampling_sessions = Dict.pop s.sampling_sessions id }))
        (pop_session-IsConsistent id s h)
