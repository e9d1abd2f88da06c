-- ===== src/Engine/Owner/Moves/Scenarios.antt =====
-- A queue of three jobs, the last of which moves to the top.
use nzbd.Prelude.{ℕ, ◌≡◌, refl, true, [], ◌∷◌}
use nzbd.Types.Job.{Job, downloading}
use nzbd.Engine.Queue.Totals.{no_totals}
use nzbd.Engine.Owner.{Owner}
use nzbd.Engine.Owner.Scenarios.{a_job, holding, owner_of}
use nzbd.Engine.Owner.Moves.{top, down, bottom, position, target, move_job}

abbrev numbered : ℕ → Job
numbered n = record (a_job [] no_totals downloading) { id = n }

abbrev three : Owner
three =
    owner_of (record (holding (numbered 1)) { jobs = numbered 1 ∷ numbered 2 ∷ numbered 3 ∷ [] })

moves_to_the_top : (move_job 3 top three).0.state.jobs ≡ numbered 3 ∷ numbered 1 ∷ numbered 2 ∷ []
unfolding move_job position target
moves_to_the_top = refl

last_stays_down : move_job 3 down three ≡ (three, true)
unfolding move_job position target
last_stays_down = refl

moves_to_the_bottom :
    (move_job 1 bottom three).0.state.jobs ≡ numbered 2 ∷ numbered 3 ∷ numbered 1 ∷ []
unfolding move_job position target
moves_to_the_bottom = refl
