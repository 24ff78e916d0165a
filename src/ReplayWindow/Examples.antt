-- ===== src/ReplayWindow/Examples.antt =====
-- Runs of the window of src/transport/replay.rs.
use bolina_rs.Prelude.{◌≡◌, refl, true, false, [], ◌∷◌}
use bolina_rs.ReplayWindow.{new, check}
use bolina_rs.ReplayWindow.Spec.{check_all, answers}
use bolina_rs.ReplayWindow.Refinement.{check-refines, check_once}

check-refines_example :
    (check_all check (2000 ∷ 1990 ∷ 2000 ∷ 7 ∷ []) new).1
    ≡ answers 1024 [] (2000 ∷ 1990 ∷ 2000 ∷ 7 ∷ [])
check-refines_example = check-refines (2000 ∷ 1990 ∷ 2000 ∷ 7 ∷ [])

first_accepted : (check 5 new).1 ≡ true
unfolding check new
first_accepted = refl

check_five_again : (check 5 (check 6 (check 5 new).0).0).1 ≡ false
check_five_again = check_once 5 [] (6 ∷ []) first_accepted
