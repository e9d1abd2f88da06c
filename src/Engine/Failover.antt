-- ===== src/Engine/Failover.antt =====
-- crates/nzbd-engine/src/failover.rs: the per-article server failover ladder.
-- `failed` is the source's `BTreeSet`, as a list with no repetitions; `is_blocked` is the pool's view.
pub mod Offers
pub mod Tiers
pub mod Outcomes
mod Scenarios
use nzbd.Prelude.{
  ℕ, zero, suc, ◌+◌, ◌-◌, max, Bool, true, false, not, ◌&&◌, ◌||◌, List, [], ◌∷◌, map, Option, none,
  some, ltb, leb, ◌==◌, if◌then◌else◌, any, all, select, member,
}
use nzbd.Types.Job.{ServerId}
use nzbd.Types.Server.{ServerDef}

pub data AttemptOutcome : Type 0 where
  success connection_failed article_missing crc_error retention_exceeded other : AttemptOutcome

pub data Selection : Type 0 where
  server : ServerId → Selection
  wait_for_blocked exhausted : Selection

pub data Verdict : Type 0 where
  finished : Verdict
  retry_same : Bool → Verdict
  next_server failed : Verdict

pub data Candidates : Type 0 where
  servers : List ServerId → Candidates
  wait_for_blocked exhausted : Candidates

pub record SegmentAttempt : Type 0 where
  pub tier : ℕ
  pub failed : List ServerId
  pub retries_left : ℕ
  pub initial_retries : ℕ

unfoldable pub new_attempt : ℕ → SegmentAttempt
new_attempt retries = record {
  tier = 0;
  failed = [];
  retries_left = retries;
  initial_retries = retries;
}

-- `BTreeSet::insert`.
unfoldable pub insert : ServerId → List ServerId → List ServerId
insert s l = if member s l then l else s ∷ l

pub record Ladder : Type 0 where
  pub servers : List ServerDef
  pub max_tier : ℕ

-- The highest tier of an active server, or 0.
abbrev pub top_tier : List ServerDef → ℕ
top_tier [] = 0
top_tier (s ∷ l) = if s.active then max s.tier (top_tier l) else top_tier l

unfoldable pub new_ladder : List ServerDef → Ladder
new_ladder l = record { servers = l; max_tier = top_tier l }

unfoldable pub is_group_failed : Ladder → SegmentAttempt → ServerDef → Bool
is_group_failed l att s =
    member s.id att.failed
    || (not (s.group == 0)
        && any (λ o. o.tier == s.tier && o.group == s.group && member o.id att.failed) l.servers)

unfoldable pub is_retention_exceeded : ServerDef → Option ℕ → Bool
is_retention_exceeded s none = false
is_retention_exceeded s (some age) = ltb 0 s.retention_days && ltb s.retention_days age

-- The filter of the loop in `current_candidates`.
unfoldable pub is_candidate : Ladder → SegmentAttempt → Option ℕ → ServerDef → Bool
is_candidate l att age s =
    s.active
    && s.tier == att.tier
    && not (is_group_failed l att s)
    && not (is_retention_exceeded s age)

abbrev pub escalated : SegmentAttempt → SegmentAttempt
escalated att = record att { tier = att.tier + 1 }

-- The candidates, and those of them that are not blocked. `none` is the `continue` that escalates.
unfoldable pub offer_usable : List ServerDef → List ServerDef → Option Candidates
offer_usable candidates (u ∷ us) = some (servers (map (λ s. s.id) (u ∷ us)))
offer_usable candidates [] = if all (λ s. s.fill) candidates then none else some wait_for_blocked

-- What one round of the loop does with the candidates of the current tier.
unfoldable pub offer : List ServerDef → (ServerId → Bool) → Option Candidates
offer [] is_blocked = none
offer (c ∷ cs) is_blocked = offer_usable (c ∷ cs) (select (λ s. not (is_blocked s.id)) (c ∷ cs))

unfoldable pub round : Ladder → SegmentAttempt → (ServerId → Bool) → Option ℕ → Option Candidates
round l att is_blocked age = offer (select (is_candidate l att age) l.servers) is_blocked

-- The loop, on fuel: one unit for each tier from the current one to the last.
unfoldable pub climb :
    ℕ → Ladder → SegmentAttempt → (ServerId → Bool) → Option ℕ → SegmentAttempt × Candidates
climb zero l att is_blocked age = (att, exhausted)
climb (suc fuel) l att is_blocked age = elim (round l att is_blocked age) [
  | some c ↦ (att, c)
  | none ↦
      let rest = climb fuel l (escalated att) is_blocked age in
      if leb l.max_tier att.tier then (att, exhausted) else rest
]

unfoldable pub current_candidates :
    Ladder → SegmentAttempt → (ServerId → Bool) → Option ℕ → SegmentAttempt × Candidates
current_candidates l att is_blocked age = climb (suc (l.max_tier - att.tier)) l att is_blocked age

-- `v[0]` of an empty vector would panic; `none` stands for that.
abbrev pub first_of : Candidates → Option Selection
first_of (servers []) = none
first_of (servers (s ∷ l)) = some (server s)
first_of wait_for_blocked = some wait_for_blocked
first_of exhausted = some exhausted

unfoldable pub select_server :
    Ladder → SegmentAttempt → (ServerId → Bool) → SegmentAttempt × Option Selection
select_server l att is_blocked =
    let (att', c) = current_candidates l att is_blocked none in (att', first_of c)

abbrev pub never_blocked : ServerId → Bool
never_blocked s = false

abbrev pub is_exhausted_answer : Candidates → Bool
is_exhausted_answer (servers l) = false
is_exhausted_answer wait_for_blocked = false
is_exhausted_answer exhausted = true

unfoldable pub is_exhausted : Ladder → SegmentAttempt → Option ℕ → SegmentAttempt × Bool
is_exhausted l att age =
    let (att', c) = current_candidates l att never_blocked age in (att', is_exhausted_answer c)

abbrev fail_server : SegmentAttempt → ServerId → SegmentAttempt
fail_server att s = record att { failed = insert s att.failed }

unfoldable pub on_outcome : SegmentAttempt → ServerId → AttemptOutcome → SegmentAttempt × Verdict
on_outcome att s success = (att, finished)
on_outcome att s connection_failed = (att, retry_same true)
on_outcome att s article_missing = (fail_server att s, next_server)
on_outcome att s crc_error = (fail_server att s, next_server)
on_outcome att s retention_exceeded = (fail_server att s, next_server)
on_outcome att s other =
    if ltb 1 att.retries_left
    then (record att { retries_left = att.retries_left - 1 }, retry_same false)
    else (record (fail_server att s) { retries_left = att.initial_retries }, next_server)
