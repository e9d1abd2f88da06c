-- ===== src/Engine/Pool/Scenarios.antt =====
-- A pipeline of depth 8 that breaks once, and two connections that take up a budget.
use nzbd.Prelude.{ℕ, ◌*◌, ◌≤◌, ◌≡◌, refl, max, true, List, [], ◌∷◌, All, In, length}
use nzbd.Prelude.Maps.{Distinct}
use nzbd.Engine.Pool.{
  DepthEvent, completed, broke, new_depth, get, on_events, Connection, new_tracker, is_ready,
  acknowledge,
}
use nzbd.Engine.Pool.Depth.{articles, regains_ceiling}
use nzbd.Engine.Pool.Budget.{acknowledge_all, ready_when_taken_up}

abbrev bad_day : List DepthEvent
bad_day = completed 16 ∷ broke ∷ completed 3 ∷ broke ∷ []

one_deep : get (on_events bad_day (new_depth 8)) ≡ 1
unfolding on_events new_depth
one_deep = refl

regains_ceiling_example :
    get (on_events (articles (4 * max 8 1 * max 8 1)) (on_events bad_day (new_depth 8))) ≡ max 8 1
regains_ceiling_example = regains_ceiling 8 bad_day

-- The second connection acknowledges twice, and an older generation once.
abbrev acks : List (ℕ × Connection)
acks = (4, (1, 1)) ∷ (5, (1, 0)) ∷ (5, (1, 1)) ∷ (5, (1, 1)) ∷ []

taken_up : is_ready 5 (acknowledge_all acks (new_tracker 2)) ≡ true
unfolding is_ready acknowledge_all acknowledge
taken_up = refl

ready_when_taken_up_example :
    (l : List Connection) × Distinct l
    × All (λ c. In {A = ℕ × Connection} (5, c) acks) l
    × (2 ≤ length l)
ready_when_taken_up_example = ready_when_taken_up 2 5 acks taken_up
