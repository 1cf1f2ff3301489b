-- ===== src/Tests/Listed.antt =====
-- The listing of the runs of a user, on a concrete controller.
use tu_ft.Base.{◌≡◌, refl, none}
use tu_ft.Dict
use tu_ft.Dict.{elem, test_at}
use tu_ft.Training.Views.{list_training_runs}
use tu_ft.Training.Listed.{ids, is_owner, IsDescending, elem-list_training_runs}
use tu_ft.Tests.Bench.{ann, controller}

elem-list_training_runs_example :
    (elem (ids (list_training_runs ann none 0 controller).0) "m"
      ≡ test_at (is_owner ann) (Dict.get controller.training_runs "m"))
    × IsDescending (list_training_runs ann none 0 controller).0
unfolding Dict.get
elem-list_training_runs_example = elem-list_training_runs ann "m" controller (refl, tt) (refl, tt)
