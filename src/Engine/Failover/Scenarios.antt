-- ===== src/Engine/Failover/Scenarios.antt =====
-- The failover ladder on two main servers of one group, a backup and a fill server.
use nzbd.Prelude.{
  suc, ◌-◌, ℕ, ◌≤◌, ◌≡◌, ◌≢◌, ◌↔◌, inl, inr, refl, Bool, true, false, List, [], ◌∷◌, none, arith,
  In,
}
use nzbd.Types.Server.{ServerDef, TlsMode, CertLevel}
use nzbd.Engine.Failover.{
  Candidates, Ladder, SegmentAttempt, article_missing, other, servers, wait_for_blocked, exhausted,
  new_ladder, new_attempt, current_candidates, climb, round, offer, offer_usable, is_candidate,
  is_group_failed, is_retention_exceeded, on_outcome, never_blocked, insert,
}
use nzbd.Engine.Failover.Offers.{Serves, offered_exactly}
use nzbd.Engine.Failover.Tiers.{Looped, loop_terminates, Hope, exhausted_exactly}
use nzbd.Engine.Failover.Outcomes.{Reach, failed_never-Serves, Ordeal, Ordeal-le-budget, budget}

abbrev server_with : ℕ → ℕ → ℕ → Bool → ServerDef
server_with id tier group fill = record {
  id = id;
  name = 115 ∷ [];
  host = 110 ∷ [];
  port = 563;
  tls = TlsMode.tls;
  username = none;
  password = none;
  active = true;
  tier = tier;
  group = group;
  fill = fill;
  max_connections = 8;
  pipeline_depth = 2;
  retention_days = 0;
  cert_verification = CertLevel.strict;
}

abbrev main_a : ServerDef
main_a = server_with 1 0 1 false

abbrev main_b : ServerDef
main_b = server_with 2 0 1 false

abbrev backup : ServerDef
backup = server_with 3 1 0 false

abbrev configured : List ServerDef
configured = main_a ∷ main_b ∷ backup ∷ []

abbrev ladder : Ladder
ladder = record { servers = configured; max_tier = 1 }

abbrev start : SegmentAttempt
start = record { tier = 0; failed = []; retries_left = 3; initial_retries = 3 }

abbrev all_blocked : ℕ → Bool
all_blocked s = true

-- Opens the ladder for the runs below.
runs : Unit {0}
unfolding current_candidates climb round offer offer_usable is_candidate is_group_failed
    is_retention_exceeded on_outcome insert
runs = tt

starts : new_attempt 3 ≡ start
unfolding new_attempt
starts = refl

builds : new_ladder configured ≡ ladder
unfolding new_ladder
builds = refl

first_answer : (current_candidates ladder start never_blocked none).1 ≡ servers (1 ∷ 2 ∷ [])
unfolding runs
first_answer = refl

group_fails_together :
    (current_candidates ladder (on_outcome start 1 article_missing).0 never_blocked none).1
    ≡ servers (3 ∷ [])
unfolding runs
group_fails_together = refl

offered_exactly_example :
    (◌≢◌ {A = List ℕ} (1 ∷ 2 ∷ []) [])
    × (In {A = ℕ} 2 (1 ∷ 2 ∷ []) ↔ (
        (s : ServerDef) × Serves ladder
          (current_candidates ladder start never_blocked none).0
          none
          s
        × (s.id ≡ 2)
        × (never_blocked 2 ≡ false)))
offered_exactly_example =
    offered_exactly ladder start never_blocked none (1 ∷ 2 ∷ []) 2 first_answer

waits : (current_candidates ladder start all_blocked none).1 ≡ wait_for_blocked
unfolding runs
waits = refl

loop_terminates_example :
    ((n : ℕ) × Looped ladder all_blocked none start
        (current_candidates ladder start all_blocked none)
        n
      × (n ≤ suc (ladder.max_tier - start.tier)))
    × ((r : SegmentAttempt × Candidates) (n : ℕ)
        → Looped ladder all_blocked none start r n
        → r ≡ current_candidates ladder start all_blocked none)
loop_terminates_example = loop_terminates ladder all_blocked none start

exhausted_exactly_example :
    ((current_candidates (new_ladder configured) start all_blocked none).1 ≡ exhausted)
    ↔ (¬ Hope (new_ladder configured) start all_blocked none)
exhausted_exactly_example = exhausted_exactly configured start all_blocked none

failed_never-Serves_example :
    ¬ Serves ladder
      (current_candidates ladder (on_outcome start 1 article_missing).0 never_blocked none).0
      none
      main_b
unfolding on_outcome
failed_never-Serves_example =
    failed_never-Serves ladder start (on_outcome start 1 article_missing).0 main_a main_b
      article_missing never_blocked none (inl refl) (inr (refl, refl, λ e. omega arith)) refl
      Reach.here

Ordeal-le-budget_example : 2 ≤ budget ladder start
unfolding runs
Ordeal-le-budget_example = Ordeal-le-budget ladder {att = start} (
    Ordeal.reports main_a other (inl refl) refl (λ e. cc) (λ e. cc)
      (Ordeal.asks never_blocked none
        (Ordeal.reports main_a article_missing (inl refl) refl (λ e. cc) (λ e. cc) Ordeal.stop)))
