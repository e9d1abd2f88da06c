-- ===== src/Types/Health/Bounds.antt =====
-- crates/nzbd-types/src/lib.rs: what the two health figures promise.
use nzbd.Prelude.{◌≤◌, ◌≡◌, ◌↔◌, Bool, arith}
use nzbd.Types.Job.{JobTotals}
use nzbd.Types.Health.{calc, calc_critical}

-- Both health figures are per mille, and the health is the full 1000 exactly when every failed byte is
-- a par2 byte: one failed payload byte, however large the job, keeps it below.
health_bounds :
    (t : JobTotals) (allow_estimation : Bool)
    → (calc t ≤ 1000)
      × ((calc t ≡ 1000) ↔ (t.failed_size ≤ t.failed_par_size))
      × (calc_critical t allow_estimation ≤ 1000)
unfolding calc calc_critical
health_bounds t allow_estimation = ground arith
