-- ===== src/Sampling/History.antt =====
-- The history of a sampling session: in the order of the numbers, each number once, and none above
-- `last_seq_id`.
use tu_ft.Base.{
  ℕ, ◌≤◌, ◌≡◌, refl, sym, ◌∙◌, ap, subst, true, Option, none, some, List, [], ◌∷◌, map, arith, ◌==◌,
  if◌then◌else◌, is_some,
}
use tu_ft.Sampling.{
  SamplingHistoryEntry, SamplingSessionRecord, snd, opt_max, index_entries, rebuild_history_index,
  add_entry,
}
use tu_ft.Sampling.Index.{
  get_at, put_at, max_key, insert_pair, sort_pairs, get-put_at, get-sort_pairs, IsUniqueAt,
  IsAscending, put_at-IsUniqueAt, sort_pairs-IsAscending, IsAbove-get_at,
}

-- The entries under their numbers.
abbrev pub by_id : List SamplingHistoryEntry → List (ℕ × SamplingHistoryEntry)
by_id [] = []
by_id (e ∷ es) = (e.seq_id, e) ∷ by_id es

abbrev pub AtMost : ℕ → Option ℕ → Type 0
AtMost k none = ⊥
AtMost k (some m) = k ≤ m

-- What is persisted of the history: ascending, and bounded.
abbrev pub IsChronicle : List SamplingHistoryEntry → Option ℕ → Type 0
IsChronicle history last =
    IsAscending (by_id history)
    × ((k : ℕ) → is_some (get_at (by_id history) k) ≡ true → AtMost k last)

abbrev IsKeyed : List (ℕ × SamplingHistoryEntry) → Type 0
IsKeyed [] = Unit
IsKeyed ((k, e) ∷ d) = (e.seq_id ≡ k) × IsKeyed d

-- The index has the entries of the history.
abbrev pub IsIndex : List (ℕ × SamplingHistoryEntry) → List SamplingHistoryEntry → Type 0
IsIndex by history =
    IsUniqueAt by × (IsKeyed by × ((k : ℕ) → get_at by k ≡ get_at (by_id history) k))

put_at-IsKeyed :
    (d : List (ℕ × SamplingHistoryEntry)) (e : SamplingHistoryEntry)
    → IsKeyed d
    → IsKeyed (put_at d e.seq_id e)
unfolding put_at
put_at-IsKeyed [] e h = (refl, tt)
put_at-IsKeyed ((k, f) ∷ d) e h = ground (arith, put_at-IsKeyed d e h.1)

insert_pair-IsKeyed :
    (k : ℕ) (e : SamplingHistoryEntry) (d : List (ℕ × SamplingHistoryEntry))
    → e.seq_id ≡ k
    → IsKeyed d
    → IsKeyed (insert_pair k e d)
unfolding insert_pair
insert_pair-IsKeyed k e [] s h = (s, tt)
insert_pair-IsKeyed k e ((j, f) ∷ d) s h = ground (arith, insert_pair-IsKeyed k e d s h.1)

sort_pairs-IsKeyed : (d : List (ℕ × SamplingHistoryEntry)) → IsKeyed d → IsKeyed (sort_pairs d)
unfolding sort_pairs
sort_pairs-IsKeyed [] h = tt
sort_pairs-IsKeyed ((k, e) ∷ d) h =
    insert_pair-IsKeyed k e (sort_pairs d) h.0 (sort_pairs-IsKeyed d h.1)

by_id-map : (d : List (ℕ × SamplingHistoryEntry)) → IsKeyed d → by_id (map snd d) ≡ d
by_id-map [] h = refl
by_id-map ((k, e) ∷ d) h = ground (arith, by_id-map d h.1)

AtMost-max : (k : ℕ) (a b : Option ℕ) → AtMost k a → AtMost k (opt_max a b)
unfolding opt_max
AtMost-max k none b h = elim h [ ]
AtMost-max k (some m) none h = h
AtMost-max k (some m) (some n) h = omega arith

AtMost-self : (k : ℕ) (a : Option ℕ) → AtMost k (opt_max a (some k))
unfolding opt_max
AtMost-self k none = omega arith
AtMost-self k (some m) = omega arith

-- A recorded request has its entry under its number, and the other entries are as they were.
pub get-add_entry :
    (e : SamplingHistoryEntry) (r : SamplingSessionRecord) (k : ℕ)
    → IsIndex r.history_by_seq_id r.history
    → get_at (by_id (add_entry e r).history) k
      ≡ (if e.seq_id == k then some e else get_at (by_id r.history) k)
unfolding add_entry
get-add_entry e r k x =
    let by = put_at r.history_by_seq_id e.seq_id e in
    let keyed = sort_pairs-IsKeyed by (put_at-IsKeyed r.history_by_seq_id e x.1.0) in
    ap (λ d. get_at d k) (by_id-map (sort_pairs by) keyed)
    ∙ ground (arith, get-sort_pairs by k, get-put_at r.history_by_seq_id e.seq_id k e, x.1.1 k)

pub add_entry-IsIndex :
    (e : SamplingHistoryEntry) (r : SamplingSessionRecord)
    → IsIndex r.history_by_seq_id r.history
    → IsIndex (add_entry e r).history_by_seq_id (add_entry e r).history
unfolding add_entry
add_entry-IsIndex e r x = (
  put_at-IsUniqueAt r.history_by_seq_id e.seq_id e x.0,
  (
    put_at-IsKeyed r.history_by_seq_id e x.1.0,
    λ k.
        get-put_at r.history_by_seq_id e.seq_id k e
        ∙ ap (λ o. if e.seq_id == k then some e else o) (x.1.1 k)
        ∙ sym (get-add_entry e r k x),
  ),
)

pub add_entry-IsChronicle :
    (e : SamplingHistoryEntry) (r : SamplingSessionRecord)
    → IsIndex r.history_by_seq_id r.history
    → IsChronicle r.history r.last_seq_id
    → IsChronicle (add_entry e r).history (add_entry e r).last_seq_id
unfolding add_entry
add_entry-IsChronicle e r x h =
    let by = put_at r.history_by_seq_id e.seq_id e in
    let keyed = sort_pairs-IsKeyed by (put_at-IsKeyed r.history_by_seq_id e x.1.0) in
    (
      subst IsAscending (sym (by_id-map (sort_pairs by) keyed))
          (sort_pairs-IsAscending by (put_at-IsUniqueAt r.history_by_seq_id e.seq_id e x.0)),
      λ k p. ground (
        arith,
        get-add_entry e r k x,
        AtMost-self k r.last_seq_id,
        h.1 k,
        AtMost-max k r.last_seq_id (some e.seq_id),
      ),
    )

abbrev or_else :
    Option SamplingHistoryEntry → Option SamplingHistoryEntry → Option SamplingHistoryEntry
or_else none o = o
or_else (some e) o = some e

get-index_entries :
    (es : List SamplingHistoryEntry) (by : List (ℕ × SamplingHistoryEntry)) (k : ℕ)
    → IsAscending (by_id es)
    → get_at (index_entries es by) k ≡ or_else (get_at (by_id es) k) (get_at by k)
unfolding index_entries get_at
get-index_entries [] by k a = refl
get-index_entries (e ∷ es) by k a = ground (
  arith,
  get-index_entries es (put_at by e.seq_id e) k a.1,
  get-put_at by e.seq_id k e,
  IsAbove-get_at e.seq_id (by_id es) a.0,
)

index_entries-IsIndexed :
    (es : List SamplingHistoryEntry) (by : List (ℕ × SamplingHistoryEntry))
    → IsUniqueAt by × IsKeyed by
    → IsUniqueAt (index_entries es by) × IsKeyed (index_entries es by)
unfolding index_entries
index_entries-IsIndexed [] by h = h
index_entries-IsIndexed (e ∷ es) by h =
    index_entries-IsIndexed es (put_at by e.seq_id e)
      (put_at-IsUniqueAt by e.seq_id e h.0, put_at-IsKeyed by e h.1)

max_key-found :
    (d : List (ℕ × SamplingHistoryEntry)) (m : ℕ) → max_key d ≡ some m → is_some (get_at d m) ≡ true
unfolding max_key get_at
max_key-found [] m h = ground arith
max_key-found ((k, e) ∷ d) m h = ground (arith, max_key-found d m)

opt_max_bounded :
    (last o : Option ℕ) → ((m : ℕ) → o ≡ some m → AtMost m last) → opt_max last o ≡ last
unfolding opt_max
opt_max_bounded none none h = refl
opt_max_bounded none (some m) h = elim (h m refl) [ ]
opt_max_bounded (some n) none h = refl
opt_max_bounded (some n) (some m) h = ap some (omega (arith, h m refl))

or_else-none : (o : Option SamplingHistoryEntry) → or_else o none ≡ o
or_else-none none = refl
or_else-none (some e) = refl

-- The index of a restored session is that of its history, and its last number stays.
pub rebuild_history_index_lem :
    (r : SamplingSessionRecord)
    → IsChronicle r.history r.last_seq_id
    → IsIndex (rebuild_history_index r).history_by_seq_id r.history
      × ((rebuild_history_index r).last_seq_id ≡ r.last_seq_id)
unfolding rebuild_history_index get_at
rebuild_history_index_lem r h =
    let by = index_entries r.history [] in
    let same : (k : ℕ) → get_at by k ≡ get_at (by_id r.history) k =
      λ k. get-index_entries r.history [] k h.0 ∙ or_else-none (get_at (by_id r.history) k) in
    let x = index_entries-IsIndexed r.history [] (tt, tt) in
    (
      (x.0, (x.1, same)),
      opt_max_bounded r.last_seq_id (max_key by)
          (λ m e. h.1 m (ap is_some (sym (same m)) ∙ max_key-found by m e)),
    )
