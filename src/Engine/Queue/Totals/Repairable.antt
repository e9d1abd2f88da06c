-- ===== src/Engine/Queue/Totals/Repairable.antt =====
-- crates/nzbd-engine/src/queue.rs and crates/nzbd-types/src/lib.rs: the final verdict and repair.
use nzbd.Prelude.{ℕ, ◌-◌, ◌*◌, ◌/◌, ◌^◌, ◌≤◌, ◌<◌, ◌≡◌, true, arith, min}
use native.Mathlib.Nat.{div-lt_iff_lt-mul}
use nzbd.Types.Job.{Job, JobTotals, completed}
use nzbd.Types.Health.{calc, calc_critical}
use nzbd.Engine.Queue.Totals.{final_status}

div_mono : (a b n : ℕ) → a ≤ b → 0 < n → a / n ≤ b / n
div_mono a b n h k = grind arith

-- The two quotients of the verdict: of the health for `f` failed payload bytes, and of the critical
-- health for `p` good par2 bytes, out of `n` payload bytes.
abbrev health_ratio : ℕ → ℕ → ℕ
health_ratio n f = min ((n - f) * 1000) (2 ^ 64 - 1) / n

abbrev critical_ratio : ℕ → ℕ → ℕ
critical_ratio size p = min ((size - 2 * p) * 1000) (2 ^ 64 - 1) / (size - p)

critical-le-health :
    (size p f : ℕ) → f ≤ p → p < size → critical_ratio size p ≤ health_ratio (size - p) f
critical-le-health size p f h k = div_mono _ _ (size - p) (omega arith) (omega arith)

critical-lt : (size p : ℕ) → 0 < p → 2 * p < size → critical_ratio size p < 1000
critical-lt size p h k = (div-lt_iff_lt-mul (omega arith)).1 (omega arith)

-- With no par2 byte failed and no more payload failed than the par2 bytes can stand for.
repairable_health :
    (t : JobTotals)
    → t.failed_par_size ≡ 0
    → t.failed_size ≤ t.par_size
    → t.par_size < t.size
    → calc_critical t true ≤ calc t
unfolding calc calc_critical
repairable_health t z h k = rw z (
    ground (
      arith,
      critical-le-health t.size t.par_size t.failed_size h k,
      critical-lt t.size t.par_size,
    ))

-- Repair can finish what it can rebuild: a job none of whose par2 bytes failed, with at most as many
-- failed payload bytes as it has par2 bytes, and some payload, ends completed.
repairable_completes :
    (j : Job)
    → j.totals.failed_par_size ≡ 0
    → j.totals.failed_size ≤ j.totals.par_size
    → j.totals.par_size < j.totals.size
    → (final_status j).0 ≡ completed
unfolding final_status
repairable_completes j z h k = ground (arith, repairable_health j.totals z h k)
