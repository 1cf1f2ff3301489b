-- ===== src/Sampling/Executor.antt =====
-- src/tuft/sequence_executor.py: the tasks that wait, and the loop that runs them, where the numbers
-- of the waiting tasks are distinct: heapq may compare the functions of two tasks with the same
-- number, which raises TypeError and is not modelled. The heap is a list of which the least is
-- taken. `X` is a task.
use tu_ft.Base.{
  ℕ, zero, suc, ◌+◌, ◌≤◌, ◌≡◌, refl, sym, ◌∙◌, ap, Bool, Option, none, some, List, [], ◌∷◌, length,
  arith, leb, ◌==◌, if◌then◌else◌, Bool-cases, Option-cases, subst, inl, inr,
}

module _ {X : Type 0} where
  abbrev lesser : ℕ × X → List (ℕ × X) → Option ((ℕ × X) × List (ℕ × X)) → (ℕ × X) × List (ℕ × X)
  lesser x xs none = (x, [])
  lesser x xs (some (m, rest)) = if leb x.0 m.0 then (x, xs) else (m, x ∷ rest)

  -- What `heappop` takes, and what it leaves.
  unfoldable pub heappop : List (ℕ × X) → Option ((ℕ × X) × List (ℕ × X))
  heappop [] = none
  heappop (x ∷ xs) = some (lesser x xs (heappop xs))

  -- _process_tasks: the tasks in the order in which they run, and what is left without fuel
  unfoldable pub process_tasks : (fuel : ℕ) → List (ℕ × X) → List (ℕ × X) × List (ℕ × X)
  unfolding heappop
  process_tasks zero pending = ([], pending)
  process_tasks (suc fuel) pending = elim (heappop pending) [
    | none ↦ ([], [])
    | some (m, rest) ↦ let later = process_tasks fuel rest in (m ∷ later.0, later.1)
  ]

  abbrev pub AtLeast : ℕ → List (ℕ × X) → Type 0
  AtLeast n [] = Unit
  AtLeast n (x ∷ xs) = (n ≤ x.0) × AtLeast n xs

  -- How many of the tasks a test holds of.
  unfoldable pub count : (ℕ × X → Bool) → List (ℕ × X) → ℕ
  count test [] = 0
  count test (x ∷ xs) = (if test x then 1 else 0) + count test xs

  abbrev is_at : ℕ → ℕ × X → Bool
  is_at n x = x.0 == n

  -- No two tasks have the same number.
  abbrev pub AreDistinct : List (ℕ × X) → Type 0
  AreDistinct [] = Unit
  AreDistinct (x ∷ xs) = (count (is_at x.0) xs ≡ 0) × AreDistinct xs

  -- Each number is below those that follow it.
  abbrev pub IsAscending : List (ℕ × X) → Type 0
  IsAscending [] = Unit
  IsAscending (x ∷ xs) = AtLeast (suc x.0) xs × IsAscending xs

  abbrev IsInOrder : List (ℕ × X) → Type 0
  IsInOrder [] = Unit
  IsInOrder (x ∷ xs) = AtLeast x.0 xs × IsInOrder xs

  AtLeast-trans : (n m : ℕ) (xs : List (ℕ × X)) → n ≤ m → AtLeast m xs → AtLeast n xs
  AtLeast-trans n m [] h a = tt
  AtLeast-trans n m (x ∷ xs) h a = (omega arith, AtLeast-trans n m xs h a.1)

  -- What is taken is a least task, and the others are left.
  abbrev IsPopped : List (ℕ × X) → (ℕ × X) × List (ℕ × X) → Type 0
  IsPopped xs (m, rest) =
      (length xs ≡ suc (length rest))
      × (AtLeast m.0 rest
          × (((n : ℕ)
                → (AtLeast n xs → (n ≤ m.0) × AtLeast n rest)
                  × ((n ≤ m.0) × AtLeast n rest → AtLeast n xs))
              × ((k : ℕ × X → Bool) → count k xs ≡ (if k m then 1 else 0) + count k rest)))

  abbrev IsPoppedFrom : List (ℕ × X) → Option ((ℕ × X) × List (ℕ × X)) → Type 0
  IsPoppedFrom xs none = xs ≡ []
  IsPoppedFrom xs (some p) = IsPopped xs p

  lesser-IsPopped :
      (x : ℕ × X) (xs : List (ℕ × X)) (o : Option ((ℕ × X) × List (ℕ × X)))
      → IsPoppedFrom xs o
      → IsPopped (x ∷ xs) (lesser x xs o)
  unfolding count
  lesser-IsPopped x xs none h =
      rw h (refl, (tt, ((λ n. (λ a. (a.0, tt), λ a. (a.0, tt))), (λ k. refl))))
  lesser-IsPopped x xs (some (m, rest)) h = elim (Bool-cases (leb x.0 m.0)) [
    | inl e ↦ rw e (
      refl,
      (
        (h.1.1.0 x.0).1 (ground (arith, e), AtLeast-trans x.0 m.0 rest (ground (arith, e)) h.1.0),
        ((λ n. (λ a. a, λ a. a)), (λ k. refl)),
      ),
    )
    | inr e ↦ rw e (
      ap suc h.0,
      (
        (ground (arith, e), h.1.0),
        (
          λ n. (
            λ a. (((h.1.1.0 n).0 a.1).0, (a.0, ((h.1.1.0 n).0 a.1).1)),
            λ a. (a.1.0, (h.1.1.0 n).1 (a.0, a.1.1)),
          ),
          λ k. omega (arith, h.1.1.1 k),
        ),
      ),
    )
  ]

  heappop-IsPopped : (xs : List (ℕ × X)) → IsPoppedFrom xs (heappop xs)
  unfolding heappop
  heappop-IsPopped [] = refl
  heappop-IsPopped (x ∷ xs) = lesser-IsPopped x xs (heappop xs) (heappop-IsPopped xs)

  -- With fuel for every task, all run, each once, and in ascending order of their numbers; a lower
  -- bound of the waiting tasks is one of the tasks that run.
  abbrev IsRun : List (ℕ × X) → List (ℕ × X) × List (ℕ × X) → Type 0
  IsRun pending (executed, left) =
      (left ≡ [])
      × (IsInOrder executed
          × (((n : ℕ) → AtLeast n pending → AtLeast n executed)
              × ((k : ℕ × X → Bool) → count k executed ≡ count k pending)))

  process_tasks-IsRun :
      (fuel : ℕ) (pending : List (ℕ × X))
      → length pending ≤ fuel
      → IsRun pending (process_tasks fuel pending)
  unfolding process_tasks count
  process_tasks-IsRun zero [] h = (refl, (tt, ((λ n a. tt), (λ k. refl))))
  process_tasks-IsRun zero (x ∷ xs) h = absurd (omega arith)
  process_tasks-IsRun (suc fuel) pending h = elim (Option-cases (heappop pending)) [
    | inl e ↦
        let p : pending ≡ [] = subst (IsPoppedFrom pending) e (heappop-IsPopped pending) in
        rw (e, process_tasks) (refl, (tt, ((λ n a. tt), (λ k. ap (count k) (sym p)))))
    | inr ((m, rest), e) ↦
        let p : IsPopped pending (m, rest) =
          subst (IsPoppedFrom pending) e (heappop-IsPopped pending) in
        let r = process_tasks-IsRun fuel rest (omega (arith, p.0)) in
        rw (e, process_tasks)
          (
            r.0,
            (
              (r.1.1.0 m.0 p.1.0, r.1.0),
              (
                λ n a. (((p.1.1.0 n).0 a).0, r.1.1.0 n ((p.1.1.0 n).0 a).1),
                λ k. ap (λ c. (if k m then 1 else 0) + c) (r.1.1.1 k) ∙ sym (p.1.1.1 k),
              ),
            ),
          )
  ]

  -- Numbers that are distinct and in order ascend.
  AtLeast-suc :
      (n : ℕ) (xs : List (ℕ × X)) → count (is_at n) xs ≡ 0 → AtLeast n xs → AtLeast (suc n) xs
  unfolding count
  AtLeast-suc n [] c a = tt
  AtLeast-suc n (x ∷ xs) c a = (ground arith, AtLeast-suc n xs (ground arith) a.1)

  AtMostOne : List (ℕ × X) → Type 0
  AtMostOne xs = (n : ℕ) → count (is_at n) xs ≤ 1

  distinct-AtMostOne : (xs : List (ℕ × X)) → AreDistinct xs → AtMostOne xs
  unfolding AtMostOne count
  distinct-AtMostOne [] d n = omega arith
  distinct-AtMostOne (x ∷ xs) d n = elim (Bool-cases (x.0 == n)) [
    | inl e ↦
        let same : x.0 ≡ n = ground (arith, e) in
        let none_left : count (is_at n) xs ≡ 0 = subst (λ k. count (is_at k) xs ≡ 0) same d.0 in
        ground (arith, none_left)
    | inr e ↦ ground (arith, e, distinct-AtMostOne xs d.1 n)
  ]

  once-IsAscending : (xs : List (ℕ × X)) → AtMostOne xs → IsInOrder xs → IsAscending xs
  unfolding AtMostOne count
  once-IsAscending [] o h = tt
  once-IsAscending (x ∷ xs) o h = (
    AtLeast-suc x.0 xs (ground (arith, o x.0)) h.0,
    once-IsAscending xs (λ n. ground (arith, o n)) h.1,
  )

  -- For waiting tasks with distinct numbers: the loop ends with none left, and has run each of them
  -- once, in ascending order of their numbers; as many rounds as there are tasks are enough. A test
  -- of tasks holds of as many tasks that run as it does of waiting ones, whatever the test.
  pub process_tasks-IsAscending :
      (pending : List (ℕ × X))
      → AreDistinct pending
      → let run = process_tasks (length pending) pending in
        (run.1 ≡ [])
        × (IsAscending run.0 × ((test : ℕ × X → Bool) → count test run.0 ≡ count test pending))
  unfolding AtMostOne
  process_tasks-IsAscending pending d =
      let run = process_tasks (length pending) pending in
      let r = process_tasks-IsRun (length pending) pending (omega arith) in
      let once : AtMostOne run.0 =
        λ n. subst (λ c. c ≤ 1) (sym (r.1.1.1 (is_at n))) (distinct-AtMostOne pending d n) in
      (r.0, (once-IsAscending run.0 once r.1.0, r.1.1.1))
