-- ===== src/Training/Listed.antt =====
-- Which runs `list_training_runs` shows to a user, and in which order.
use tu_ft.Base.{
  ℕ, ◌≤◌, String, ◌≡◌, refl, ◌∙◌, ap, Bool, true, none, List, [], ◌∷◌, map, arith, str_eq, eq_iff,
  if◌then◌else◌,
}
use tu_ft.Dict
use tu_ft.Dict.{Dict, elem, test_at}
use tu_ft.Dict.Unique.{IsUnique}
use tu_ft.Paging.{page-append}
use tu_ft.Training.{TrainingController, TrainingRunRecord}
use tu_ft.Training.Views.{
  TrainingRun, to_training_run, insert, sort, later_request, runs_of, list_training_runs,
}

abbrev pub ids : List TrainingRun → List String
ids [] = []
ids (v ∷ vs) = v.training_run_id ∷ ids vs

abbrev pub is_owner : String → TrainingRunRecord → Bool
is_owner user_id r = str_eq r.model_owner user_id

-- Each run stands under its own id.
abbrev pub AreOwn : Dict TrainingRunRecord → Type 0
AreOwn [] = Unit
AreOwn ((id, r) ∷ runs) = (r.training_run_id ≡ id) × AreOwn runs

-- The latest request first.
abbrev IsNotAfter : ℕ → List TrainingRun → Type 0
IsNotAfter n [] = Unit
IsNotAfter n (v ∷ vs) = (v.last_request_time ≤ n) × IsNotAfter n vs

abbrev pub IsDescending : List TrainingRun → Type 0
IsDescending [] = Unit
IsDescending (v ∷ vs) = IsNotAfter v.last_request_time vs × IsDescending vs

elem-insert :
    (x : TrainingRun) (ys : List TrainingRun) (t : String)
    → elem (ids (insert later_request x ys)) t
      ≡ (if str_eq x.training_run_id t then true else elem (ids ys) t)
unfolding insert elem
elem-insert x [] t = refl
elem-insert x (y ∷ ys) t = ground (arith, elem-insert x ys t)

elem-sort :
    (xs : List TrainingRun) (t : String) → elem (ids (sort later_request xs)) t ≡ elem (ids xs) t
unfolding sort elem
elem-sort [] t = refl
elem-sort (x ∷ xs) t = ground (arith, elem-insert x (sort later_request xs) t, elem-sort xs t)

IsNotAfter-trans : (m n : ℕ) (vs : List TrainingRun) → m ≤ n → IsNotAfter m vs → IsNotAfter n vs
IsNotAfter-trans m n [] h a = tt
IsNotAfter-trans m n (v ∷ vs) h a = (omega arith, IsNotAfter-trans m n vs h a.1)

insert-IsNotAfter :
    (n : ℕ) (x : TrainingRun) (ys : List TrainingRun)
    → x.last_request_time ≤ n
    → IsNotAfter n ys
    → IsNotAfter n (insert later_request x ys)
unfolding insert
insert-IsNotAfter n x [] h a = (h, tt)
insert-IsNotAfter n x (y ∷ ys) h a = ground (arith, insert-IsNotAfter n x ys h a.1)

insert-IsDescending :
    (x : TrainingRun) (ys : List TrainingRun)
    → IsDescending ys
    → IsDescending (insert later_request x ys)
unfolding insert
insert-IsDescending x [] d = (tt, tt)
insert-IsDescending x (y ∷ ys) d = ground (
  arith,
  insert-IsDescending x ys d.1,
  IsNotAfter-trans y.last_request_time x.last_request_time ys,
  insert-IsNotAfter y.last_request_time x ys,
)

sort-IsDescending : (xs : List TrainingRun) → IsDescending (sort later_request xs)
unfolding sort
sort-IsDescending [] = tt
sort-IsDescending (x ∷ xs) = insert-IsDescending x (sort later_request xs) (sort-IsDescending xs)

elem-runs_of :
    (user_id : String) (runs : Dict TrainingRunRecord) (id : String)
    → IsUnique runs
    → AreOwn runs
    → elem (ids (map to_training_run (runs_of user_id runs))) id
      ≡ test_at (is_owner user_id) (Dict.get runs id)
unfolding runs_of to_training_run elem Dict.get
elem-runs_of user_id [] id u o = refl
elem-runs_of user_id ((k, r) ∷ runs) id u o = ground (
  arith,
  eq_iff k id,
  eq_iff r.training_run_id id,
  elem-runs_of user_id runs id u.1 o.1,
  ap (test_at (is_owner user_id)) u.0,
)

-- Where the ids of the runs are distinct and each run has its own id as `training_run_id`, the list
-- that a user gets with neither limit nor offset shows an id exactly if there is a run under it that
-- the user owns, and the runs with the latest requests come first.
pub elem-list_training_runs :
    {B W T C : Type 0} (user_id id : String) (s : TrainingController B W T C)
    → IsUnique s.training_runs
    → AreOwn s.training_runs
    → (elem (ids (list_training_runs user_id none 0 s).0) id
        ≡ test_at (is_owner user_id) (Dict.get s.training_runs id))
      × IsDescending (list_training_runs user_id none 0 s).0
unfolding list_training_runs
elem-list_training_runs user_id id s u o =
    let runs = map to_training_run (runs_of user_id s.training_runs) in
    let e = (page-append 0 0 (sort later_request runs)).2 in
    rw (e, list_training_runs)
      (elem-sort runs id ∙ elem-runs_of user_id s.training_runs id u o, sort-IsDescending runs)
