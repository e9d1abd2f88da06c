-- ===== src/Engine/Owner/Scenarios/Abort.antt =====
-- crates/nzbd-engine/src/owner.rs: a lease of a segment that the same request has given up.
use nzbd.Prelude.{◌≡◌, refl, [], ◌∷◌, none, some, length}
use nzbd.Prelude.Int.{pos, ◌-ℤ◌, ◌+ℤ◌}
use nzbd.Types.Job.{Job, JobStatus, queued, Segment, pending, leased, force_priority}
use nzbd.Engine.Queue.{
  clamp_active_downloads, job_schedulable, has_backend_work, stalled_retry, ranks_before,
  is_eligible, active_jobs,
}
use nzbd.Engine.Queue.Scan.{
  SegRef, try_segment, scan_segments, scan_files, scan_jobs, scan_order, served_jobs, may_serve,
  next_for_server,
}
use nzbd.Engine.Queue.Totals.{no_totals}
use nzbd.Engine.Queue.Lookup.{job, segment}
use nzbd.Engine.Owner.Leases.{selection, hand_out, grant_one, grant_rounds, grant_work}
use nzbd.Engine.Owner.Scenarios.{calm, part, entry, a_job, holding, owner_of, runs}

-- A payload file older than the server's retention, and a small one that is not.
abbrev stale : Job
stale =
    a_job
      (entry 10 (some (pos 0)) (part 1 1000 pending ∷ [])
        ∷ entry 11 none (part 1 10 pending ∷ [])
        ∷ [])
      (record no_totals { size = 1010; total_articles = 2 }) queued

abbrev second_file : SegRef
second_file = record { job = 1; file = 11; seg_number = 1 }

grants : Unit {0}
unfolding runs grant_work grant_rounds grant_one selection hand_out next_for_server scan_order
    served_jobs may_serve scan_jobs scan_files scan_segments try_segment active_jobs
    clamp_active_downloads is_eligible job_schedulable has_backend_work ranks_before stalled_retry
    force_priority ◌-ℤ◌ ◌+ℤ◌
grants = tt

-- A single request for work: the scan gives up the old file's segment and finds the other file's, the
-- health abort that follows fails that one too and ends the job, and then it is leased all the same.
leased_after_the_end :
    let r = grant_work calm 1 1 (owner_of (holding stale)) in
    (length r.1 ≡ 1)
    × ((j : Job) × (job r.0.state 1 ≡ some j)
        × (j.status ≡ JobStatus.failed)
        × (j.totals.failed_articles ≡ 2))
    × ((s : Segment) × (segment r.0.state second_file ≡ some s) × (s.state ≡ leased 1))
unfolding grants
leased_after_the_end = (refl, (_, refl, refl, refl), (_, refl, refl))
