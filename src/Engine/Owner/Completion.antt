-- ===== src/Engine/Owner/Completion.antt =====
-- crates/nzbd-engine/src/owner.rs: what follows a change of a file, and when a job's download ends.
use nzbd.Prelude.{
  Bool, true, false, not, ◌&&◌, ◌||◌, List, Option, none, some, and_then, all, any, map, reverse,
  select, find, if◌then◌else◌, ltb, ◌==◌, member, is_empty, is_some, bytes_eq,
}
use nzbd.Prelude.Maps.{get, remove}
use nzbd.Types.Job.{
  JobId, FileId, Job, JobStatus, queued, downloading, paused, post, FileEntry, PostStage, StageSpan,
  is_terminal, has_any_done, pp_done_param,
}
use nzbd.Engine.Queue.Lookup.{job, file, with_job, with_file}
use nzbd.Engine.Queue.Totals.{final_status}
use nzbd.Engine.Owner.{
  Owner, World, emit, on_state, publish_now, save_snapshot, job_finished, file_finished,
}
use nzbd.Engine.Owner.Writers.{send_finalize}

abbrev pub last_span : List StageSpan → Option StageSpan
last_span stages = find (λ s. true) (reverse stages)

unfoldable pub open_post_stage : Job → Option PostStage
open_post_stage j =
    if any (λ p. bytes_eq p.0 pp_done_param) j.params
    then none
    else and_then (last_span j.stages) (λ s. if is_some s.ms then none else some s.stage)

-- `Queued`, `Downloading` or `Paused`.
abbrev pub is_active : JobStatus → Bool
is_active queued = true
is_active downloading = true
is_active paused = true
is_active _ = false

abbrev pub inspection_pending : JobId → Owner → Bool
inspection_pending id o = elim (get id o.pending_name_inspections) [
  | none ↦ false
  | some n ↦ ltb 0 n
]

abbrev pub file_is_over : FileEntry → Bool
file_is_over f = f.paused || (is_terminal f && (not (has_any_done f) || f.finalized))

abbrev pub is_complete : Job → Bool
is_complete j = not (is_empty j.files) && all file_is_over j.files

-- The status that the job takes: a write that failed overrides the health, and a job that was
-- fetching for a repair goes back to it.
unfoldable pub status_at_end : Bool → Job → JobStatus
status_at_end write_failed j = elim (open_post_stage j) [
  | some stage ↦ post stage
  | none ↦ if write_failed then JobStatus.failed else (final_status j).0
]

-- The early returns of `check_job_complete`: the job, when its download has ended.
unfoldable pub ended_job : JobId → Owner → Option Job
ended_job id o =
    if member id o.delegated
    then none
    else if inspection_pending id o
    then none
    else and_then (job o.state id)
        (λ j. if is_active j.status && is_complete j then some j else none)

abbrev pub forget_job : Job → Owner → Owner
forget_job j o = record o {
  attempts = select (λ e. not (e.0.job == j.id)) o.attempts;
  post_fetch_files = remove j.id o.post_fetch_files;
  writers = select (λ f. not (member f (map (λ (x : FileEntry). x.id) j.files))) o.writers;
  file_sizes = select (λ e. not (member e.0 (map (λ (x : FileEntry). x.id) j.files))) o.file_sizes;
  write_failures = remove j.id o.write_failures;
}

unfoldable pub end_job : World → JobId → Job → Owner → Owner
end_job w id j o =
    let status = status_at_end (is_some (get id o.write_failures)) j in
    let marked = on_state (with_job id (λ x. record x { status = status })) o in
    let shown = publish_now (save_snapshot w (forget_job j marked)) in
    if is_some (open_post_stage j)
    then shown
    else emit (job_finished id j.name status (final_status j).1) shown

unfoldable pub check_job_complete : World → JobId → Owner → Owner
check_job_complete w id o = elim (ended_job id o) [ none ↦ o | some j ↦ end_job w id j o ]

abbrev pub finalize_trivially : JobId → FileEntry → Owner → Owner
finalize_trivially j f o =
    let marked = on_state (with_file j f.id (λ x. record x { finalized = true })) o in
    record (emit (file_finished j f.id f.filename false) marked) { dirty = true }

unfoldable pub after_file_change : World → JobId → FileId → Owner → Owner
after_file_change w j f o = elim (file o.state j f) [
  | none ↦ o
  | some x ↦
      if not (is_terminal x) || x.finalized
      then check_job_complete w j o
      else if has_any_done x
      then if member f o.finalize_sent then o else send_finalize w j f o
      else check_job_complete w j (finalize_trivially j x o)
]
