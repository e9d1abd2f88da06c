-- ===== src/Types/Health.antt =====
-- crates/nzbd-types/src/lib.rs: per-mille health, on the job's totals. A health is its `u16`.
pub mod Bounds
use nzbd.Prelude.{ℕ, ◌-◌, ◌*◌, ◌/◌, ◌%◌, ◌^◌, min, Bool, ◌&&◌, ◌||◌, ◌==◌, leb, if◌then◌else◌}
use nzbd.Types.Job.{JobTotals}

-- `u64::saturating_mul`. On unsigned numbers `saturating_sub` is `◌-◌`, which stops at 0.
abbrev pub saturating_mul : ℕ → ℕ → ℕ
saturating_mul a b = min (a * b) (2 ^ 64 - 1)

abbrev pub as_u16 : ℕ → ℕ
as_u16 n = n % 65536

abbrev pub perfect : ℕ
perfect = 1000

unfoldable pub calc : JobTotals → ℕ
calc t =
    let non_par_failed = t.failed_size - t.failed_par_size in
    let denom = t.size - t.par_size in
    if non_par_failed == 0
    then perfect
    else if denom == 0
    then 0
    else as_u16 (min (saturating_mul (denom - non_par_failed) 1000 / denom) 999)

unfoldable pub calc_critical : JobTotals → Bool → ℕ
calc_critical t allow_estimation =
    let good_par = t.par_size - t.failed_par_size in
    let denom = t.size - good_par in
    let raw = as_u16 (min (saturating_mul (t.size - 2 * good_par) 1000 / denom) 1000) in
    if t.size == 0 || leb t.size (saturating_mul good_par 2)
    then 0
    else if raw == 1000 && allow_estimation
    then 850
    else raw
