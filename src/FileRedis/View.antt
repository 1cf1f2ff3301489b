-- ===== src/FileRedis/View.antt =====
-- What a client can see of the store: the value of a key at a time, when it has not expired.
use tu_ft.Base.{
  ℕ, ◌≤◌, String, ◌≡◌, refl, true, Option, none, some, arith, if◌then◌else◌, opt_map, is_some,
}
use tu_ft.Dict
use tu_ft.Dict.{Dict, test_at, get-put, get-pop_all}
use tu_ft.Dict.Unique.{IsUnique, pop_all-IsUnique, elem-keys_where}
use tu_ft.FileRedis.{FileRedis, Value, is_expired, purge_expired, get, exists}

abbrev pub live : ℕ → Option Value → Option String
live now none = none
live now (some v) = if is_expired now v then none else some v.value

-- The specification of a store with expiry: what key `k` shows at time `now`.
unfoldable pub view : ℕ → String → FileRedis → Option String
view now k s = live now (Dict.get s.entries k)

-- The list of expired keys is popped whole, the empty list included.
entries-purge_expired :
    (now : ℕ) (s : FileRedis)
    → (purge_expired now s).entries
      ≡ Dict.pop_all s.entries (Dict.keys_where (is_expired now) s.entries)
unfolding purge_expired Dict.pop_all
entries-purge_expired now s = ground arith

-- Purging hides exactly the expired entries.
pub get-purge_expired :
    (now : ℕ) (s : FileRedis) (k : String)
    → IsUnique s.entries
    → Dict.get (purge_expired now s).entries k
      ≡ (if test_at (is_expired now) (Dict.get s.entries k) then none else Dict.get s.entries k)
get-purge_expired now s k u = rw (entries-purge_expired, get-pop_all, elem-keys_where _ _ _ u)

pub purge_expired-IsUnique :
    (now : ℕ) (s : FileRedis) → IsUnique s.entries → IsUnique (purge_expired now s).entries
purge_expired-IsUnique now s u = rw entries-purge_expired (pop_all-IsUnique _ _ u)

-- What has expired stays expired.
is_expired_mono :
    (now later : ℕ) (v : Value) → now ≤ later → is_expired now v ≡ true → is_expired later v ≡ true
unfolding is_expired
is_expired_mono now later v h e = ground arith

pub view-purge_expired :
    (now later : ℕ) (k : String) (s : FileRedis)
    → IsUnique s.entries
    → now ≤ later
    → view later k (purge_expired now s) ≡ view later k s
unfolding view
view-purge_expired now later k s u h =
    rw (get-purge_expired now s k u) (live_purged (Dict.get s.entries k))
  where
    live_purged :
        (o : Option Value)
        → live later (if test_at (is_expired now) o then none else o) ≡ live later o
    live_purged none = refl
    live_purged (some v) = ground (arith, is_expired_mono now later v h)

live-purged_now :
    (now : ℕ) (o : Option Value)
    → opt_map (λ v. v.value) (if test_at (is_expired now) o then none else o) ≡ live now o
live-purged_now now none = refl
live-purged_now now (some v) = ground arith

-- At any time, with each key held once, `get` answers with the view of its key, and `exists`
-- answers 1 where `get` would find a value and 0 where it would not; neither changes what any key
-- shows at that time or later.
pub get-exists-eq-view :
    (now later : ℕ) (k j : String) (s : FileRedis)
    → IsUnique s.entries
    → now ≤ later
    → ((get now k s).1 ≡ view now k s)
      × ((exists now k s).1 ≡ (if is_some (view now k s) then 1 else 0))
      × (view later j (get now k s).0 ≡ view later j s)
      × (view later j (exists now k s).0 ≡ view later j s)
unfolding get exists view
get-exists-eq-view now later k j s u h = (
  rw (get-purge_expired now s k u) (live-purged_now now (Dict.get s.entries k)),
  rw (Dict.has-eq-is_some, get-purge_expired now s k u) (present (Dict.get s.entries k)),
  unfold view in view-purge_expired now later j s u h,
  unfold view in view-purge_expired now later j s u h,
)
  where
    present :
        (o : Option Value)
        → ◌≡◌ {A = ℕ}
            (if is_some (if test_at (is_expired now) o then none else o) then 1 else 0)
            (if is_some (live now o) then 1 else 0)
    present none = refl
    present (some v) = ground arith
