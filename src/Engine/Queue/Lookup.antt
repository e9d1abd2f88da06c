-- ===== src/Engine/Queue/Lookup.antt =====
-- crates/nzbd-engine/src/queue.rs: the look-ups by job, file and segment, and the changes made
-- through the references that they return. Each finds the first entry of its number.
use nzbd.Prelude.{ℕ, map, Option, find, and_then, ◌==◌}
use nzbd.Prelude.Maps.{update_first}
use nzbd.Types.Job.{JobId, FileId, Job, FileEntry, Segment}
use nzbd.Engine.Queue.{QueueState}
use nzbd.Engine.Queue.Scan.{SegRef}

abbrev pub job : QueueState → JobId → Option Job
job q id = find (λ j. j.id == id) q.jobs

abbrev pub file_in : Job → FileId → Option FileEntry
file_in j id = find (λ f. f.id == id) j.files

abbrev pub segment_in : FileEntry → ℕ → Option Segment
segment_in f n = find (λ s. s.number == n) f.segments

-- What `file_mut` and `segment_mut` find.
abbrev pub file : QueueState → JobId → FileId → Option FileEntry
file q j f = and_then (job q j) (λ x. file_in x f)

abbrev pub segment : QueueState → SegRef → Option Segment
segment q r = and_then (file q r.job r.file) (λ f. segment_in f r.seg_number)

-- The queue after a change through `job_mut`, `file_mut` or `segment_mut`.
abbrev pub with_job : JobId → (Job → Job) → QueueState → QueueState
with_job id g q = record q { jobs = update_first (λ j. j.id == id) g q.jobs }

abbrev pub in_file : FileId → (FileEntry → FileEntry) → Job → Job
in_file id g j = record j { files = update_first (λ f. f.id == id) g j.files }

abbrev pub in_segment : ℕ → (Segment → Segment) → FileEntry → FileEntry
in_segment n g f = record f { segments = update_first (λ s. s.number == n) g f.segments }

abbrev pub with_file : JobId → FileId → (FileEntry → FileEntry) → QueueState → QueueState
with_file j f g q = with_job j (in_file f g) q

abbrev pub with_segment : SegRef → (Segment → Segment) → QueueState → QueueState
with_segment r g q = with_file r.job r.file (in_segment r.seg_number g) q

abbrev pub each_job : (Job → Job) → QueueState → QueueState
each_job g q = record q { jobs = map g q.jobs }
