-- ===== src/Fsdp/Shards.antt =====
-- src/tuft/backends/fsdp_training_backend.py: a batch in contiguous shards, one for each worker.
use tu_ft.Base.{
  ℕ, zero, suc, ◌+◌, ◌-◌, ◌*◌, ◌≤◌, min, ◌≡◌, refl, sym, ap, ◌∙◌, List, [], ◌∷◌, ◌++◌, length, All,
  arith, ltb, if◌then◌else◌,
}
use Prim.Native.Nat.{◌/◌, ◌%◌}
use native.Mathlib.Nat.{div-add-mod, mod-lt, zero-lt-suc}
use mathlib.Core.List.{append_assoc, append-nil}
use tu_ft.Errors.{Result, ok, err, value_error}
use tu_ft.Paging.{take, drop, slice, length-take, length-drop, take-append-drop}

-- The size of the shard at `i`.
unfoldable pub shard_size : (base rem i : ℕ) → ℕ
shard_size base rem i = base + (if ltb i rem then 1 else 0)

module _ {ℓ} {A : Type ℓ} where
  -- The rounds of the loop from `i` on, of which `left` are left.
  unfoldable pub shards_from : (base rem : ℕ) → List A → (left i start : ℕ) → List (List A)
  unfolding slice shard_size
  shards_from base rem xs zero i start = []
  shards_from base rem xs (suc left) i start =
      let size = shard_size base rem i in
      slice xs start (start + size) ∷ shards_from base rem xs left (suc i) (start + size)

  -- _shard_list, for a number of shards that is not negative
  unfoldable pub shard_list : List A → (n_shards : ℕ) → Result (List (List A))
  unfolding shards_from
  shard_list xs zero = err (value_error "n_shards must be > 0")
  shard_list xs (suc n) = ok (shards_from (length xs / suc n) (length xs % suc n) xs (suc n) 0 0)

  abbrev pub join : List (List A) → List A
  join [] = []
  join (s ∷ ss) = s ++ join ss

  pub length-slice : (s k : ℕ) (xs : List A) → length (slice xs s (s + k)) ≡ min k (length xs - s)
  unfolding slice
  length-slice s k xs = omega (arith, length-take (s + k - s) (drop s xs), length-drop s xs)

  slice-append-drop : (s k : ℕ) (xs : List A) → slice xs s (s + k) ++ drop (s + k) xs ≡ drop s xs
  unfolding slice
  slice-append-drop s k xs =
      ap (λ n. take n (drop s xs) ++ drop (s + k) xs) (omega arith) ∙ take-append-drop s k xs

-- Where the last of the rounds stops.
unfoldable stop : (base rem : ℕ) → (left i start : ℕ) → ℕ
stop base rem zero i start = start
stop base rem (suc left) i start = stop base rem left (suc i) (start + shard_size base rem i)

stop_lem :
    (base rem left i start : ℕ)
    → stop base rem left i start + min rem i ≡ start + left * base + min rem (left + i)
unfolding stop shard_size
stop_lem base rem zero i start = omega arith
stop_lem base rem (suc left) i start =
    ground (arith, stop_lem base rem left (suc i) (start + shard_size base rem i))

module _ {ℓ} {A : Type ℓ} where
  join-shards_from :
      (base rem : ℕ) (xs : List A) (left i start : ℕ)
      → join (shards_from base rem xs left i start) ++ drop (stop base rem left i start) xs
        ≡ drop start xs
  unfolding shards_from stop
  join-shards_from base rem xs zero i start = refl
  join-shards_from base rem xs (suc left) i start =
      let next = start + shard_size base rem i in
      append_assoc (slice xs start next) (join (shards_from base rem xs left (suc i) next))
        (drop (stop base rem left (suc i) next) xs)
      ∙ ap (◌++◌ (slice xs start next)) (join-shards_from base rem xs left (suc i) next)
      ∙ slice-append-drop start (shard_size base rem i) xs

  length-shards_from :
      (base rem : ℕ) (xs : List A) (left i start : ℕ)
      → length (shards_from base rem xs left i start) ≡ left
  unfolding shards_from
  length-shards_from base rem xs zero i start = refl
  length-shards_from base rem xs (suc left) i start =
      omega (arith, length-shards_from base rem xs left (suc i) (start + shard_size base rem i))

  -- The size of a shard is the quotient, or one more.
  abbrev pub IsEven : ℕ → List A → Type 0
  IsEven base s = (base ≤ length s) × (length s ≤ suc base)

  slice-IsEven :
      (base rem : ℕ) (xs : List A) (i start : ℕ)
      → start + shard_size base rem i ≤ length xs
      → IsEven base (slice xs start (start + shard_size base rem i))
  unfolding shard_size
  slice-IsEven base rem xs i start h = ground (arith, length-slice start (shard_size base rem i) xs)

  -- The rounds stop at the end of the list.
  stop-length :
      (xs : List A) (n : ℕ) → stop (length xs / suc n) (length xs % suc n) (suc n) 0 0 ≡ length xs
  stop-length xs n = omega (
    arith,
    stop_lem (length xs / suc n) (length xs % suc n) (suc n) 0 0,
    div-add-mod (length xs) (suc n),
    mod-lt (length xs) (zero-lt-suc n),
  )

  drop-length : (xs : List A) → drop (length xs) xs ≡ []
  unfolding drop
  drop-length [] = refl
  drop-length (x ∷ xs) = drop-length xs

  whole :
      (base rem : ℕ) (xs : List A) (n : ℕ)
      → stop base rem (suc n) 0 0 ≡ length xs
      → join (shards_from base rem xs (suc n) 0 0) ≡ xs
  unfolding drop
  whole base rem xs n e =
      let ss = shards_from base rem xs (suc n) 0 0 in
      sym (append-nil (join ss))
      ∙ ap (◌++◌ (join ss)) (sym (ap (λ k. drop k xs) e ∙ drop-length xs))
      ∙ join-shards_from base rem xs (suc n) 0 0

  shards_from-IsEven :
      (base rem : ℕ) (xs : List A) (left i start : ℕ)
      → stop base rem left i start ≤ length xs
      → All (IsEven base) (shards_from base rem xs left i start)
  unfolding shards_from stop
  shards_from-IsEven base rem xs zero i start h = tt
  shards_from-IsEven base rem xs (suc left) i start h =
      let next = start + shard_size base rem i in
      (
        slice-IsEven base rem xs i start (omega (arith, h, stop_lem base rem left (suc i) next)),
        shards_from-IsEven base rem xs left (suc i) next h,
      )

  -- For every list and positive number of shards: there are that many shards, they are the list when
  -- they are put together in their order, and the size of each is the quotient or one more. For the
  -- number 0 the split is refused.
  pub join-shard_list :
      (xs : List A) (n : ℕ)
      → (shard_list xs 0 ≡ err (value_error "n_shards must be > 0"))
        × ((shards : List (List A)) × ((shard_list xs (suc n) ≡ ok shards)
              × ((length shards ≡ suc n)
                  × ((join shards ≡ xs) × All (IsEven (length xs / suc n)) shards))))
  unfolding shard_list
  join-shard_list xs n =
      let base = length xs / suc n in
      let rem = length xs % suc n in
      let e = stop-length xs n in
      (
        refl,
        (
          shards_from base rem xs (suc n) 0 0,
          (
            refl,
            (
              length-shards_from base rem xs (suc n) 0 0,
              (
                whole base rem xs n e,
                shards_from-IsEven base rem xs (suc n) 0 0 (omega (arith, e)),
              ),
            ),
          ),
        ),
      )
