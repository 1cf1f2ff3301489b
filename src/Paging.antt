-- ===== src/Paging.antt =====
-- The `limit` and `offset` of the list endpoints: src/tuft/state.py, src/tuft/server.py and
-- src/tuft/training_controller.py slice a list in the same way.
use tu_ft.Base.{
  ℕ, zero, suc, ◌+◌, ◌-◌, min, ◌≡◌, refl, ap, ◌∙◌, Option, none, some, List, [], ◌∷◌, ◌++◌, length,
  arith,
}
use Prim.Native.Nat.add
use native.Mathlib.Nat.{zero-add}

abbrev pub end_of : Option ℕ → ℕ → ℕ → ℕ
end_of none start total = total
end_of (some limit) start total = min (start + limit) total

module _ {ℓ} {A : Type ℓ} where
  unfoldable pub take : ℕ → List A → List A
  take zero xs = []
  take (suc n) [] = []
  take (suc n) (x ∷ xs) = x ∷ take n xs

  unfoldable pub drop : ℕ → List A → List A
  drop zero xs = xs
  drop (suc n) [] = []
  drop (suc n) (x ∷ xs) = drop n xs

  -- Python's `xs[start:end]`, for bounds that are not negative
  unfoldable pub slice : List A → ℕ → ℕ → List A
  unfolding take drop
  slice xs start end = take (end - start) (drop start xs)

  -- `start = min(offset, total)`, `end = total if limit is None else min(start + limit, total)`
  unfoldable pub page : Option ℕ → ℕ → List A → List A
  unfolding slice
  page limit offset xs =
      let total = length xs in
      let start = min offset total in slice xs start (end_of limit start total)

  pub length-drop : (n : ℕ) (xs : List A) → length (drop n xs) ≡ length xs - n
  unfolding drop
  length-drop zero xs = omega arith
  length-drop (suc n) [] = omega arith
  length-drop (suc n) (x ∷ xs) = omega (arith, length-drop n xs)

  -- Counts past the end are all the same.
  take-min : (n m : ℕ) (xs : List A) → min n (length xs) ≡ min m (length xs) → take n xs ≡ take m xs
  unfolding take
  take-min zero zero xs h = refl
  take-min zero (suc m) [] h = refl
  take-min zero (suc m) (x ∷ xs) h = absurd (omega arith)
  take-min (suc n) zero [] h = refl
  take-min (suc n) zero (x ∷ xs) h = absurd (omega arith)
  take-min (suc n) (suc m) [] h = refl
  take-min (suc n) (suc m) (x ∷ xs) h = ap (◌∷◌ x) (take-min n m xs (omega arith))

  drop-min : (n m : ℕ) (xs : List A) → min n (length xs) ≡ min m (length xs) → drop n xs ≡ drop m xs
  unfolding drop
  drop-min zero zero xs h = refl
  drop-min zero (suc m) [] h = refl
  drop-min zero (suc m) (x ∷ xs) h = absurd (omega arith)
  drop-min (suc n) zero [] h = refl
  drop-min (suc n) zero (x ∷ xs) h = absurd (omega arith)
  drop-min (suc n) (suc m) [] h = refl
  drop-min (suc n) (suc m) (x ∷ xs) h = drop-min n m xs (omega arith)

  take-length : (xs : List A) → take (length xs) xs ≡ xs
  unfolding take
  take-length [] = refl
  take-length (x ∷ xs) = ap (◌∷◌ x) (take-length xs)

  page-some :
      (limit offset : ℕ) (xs : List A) → page (some limit) offset xs ≡ take limit (drop offset xs)
  unfolding page
  page-some limit offset xs =
      rw (drop-min (min offset (length xs)) offset xs (omega arith))
        (take-min _ limit (drop offset xs) (omega (arith, length-drop offset xs)))

  page-none : (offset : ℕ) (xs : List A) → page none offset xs ≡ drop offset xs
  unfolding page
  page-none offset xs = rw (drop-min (min offset (length xs)) offset xs (omega arith)) (
      take-min _ (length (drop offset xs)) (drop offset xs) (omega (arith, length-drop offset xs))
      ∙ take-length (drop offset xs))

  pub take-append-drop : (n m : ℕ) (xs : List A) → take m (drop n xs) ++ drop (n + m) xs ≡ drop n xs
  unfolding take drop
  take-append-drop zero m xs = rw zero-add (rest m xs)
    where
      rest : (m : ℕ) (xs : List A) → take m xs ++ drop m xs ≡ xs
      rest zero xs = refl
      rest (suc m) [] = refl
      rest (suc m) (x ∷ xs) = ap (◌∷◌ x) (rest m xs)
  take-append-drop (suc n) zero [] = rw add.suc refl
  take-append-drop (suc n) (suc m) [] = rw add.suc refl
  take-append-drop (suc n) m (x ∷ xs) = rw add.suc (take-append-drop n m xs)

  pub length-take : (n : ℕ) (xs : List A) → length (take n xs) ≡ min n (length xs)
  unfolding take
  length-take zero xs = omega arith
  length-take (suc n) [] = omega arith
  length-take (suc n) (x ∷ xs) = omega (arith, length-take n xs)

  -- For every list, limit and offset: a page with a limit has that many entries, or as many as are
  -- left from the offset on; and the page followed by the unlimited page that starts where it ends
  -- is the unlimited page from its own offset, so paging with a fixed limit shows each entry once.
  pub page-append :
      (limit offset : ℕ) (xs : List A)
      → (length (page (some limit) offset xs) ≡ min limit (length xs - offset))
        × (page (some limit) offset xs ++ page none (offset + limit) xs ≡ page none offset xs)
        × (page none 0 xs ≡ xs)
  unfolding drop
  page-append limit offset xs = (
    rw page-some (omega (arith, length-take limit (drop offset xs), length-drop offset xs)),
    rw (page-some, page-none, page-none) (take-append-drop offset limit xs),
    page-none 0 xs,
  )
