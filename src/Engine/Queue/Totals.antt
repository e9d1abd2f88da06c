-- ===== src/Engine/Queue/Totals.antt =====
-- crates/nzbd-engine/src/queue.rs: a job's totals, the bytes still to fetch and the final verdict.
-- The sums are of `u32` sizes in `u64` counters, which no queue of fewer than 2^32 segments fills.
pub mod Balance
pub mod Repairable
use nzbd.Prelude.{ℕ, suc, ◌+◌, Bool, true, false, not, List, [], ◌∷◌, if◌then◌else◌, ltb}
use nzbd.Types.Job.{
  Job, JobTotals, FileEntry, Segment, SegmentState, pending, leased, done, JobStatus, queued,
  downloading, paused, completed,
}
use nzbd.Types.Job
use nzbd.Types.Health.{calc, calc_critical}

abbrev pub no_totals : JobTotals
no_totals = record {
  size = 0;
  par_size = 0;
  failed_size = 0;
  failed_par_size = 0;
  success_size = 0;
  total_articles = 0;
  success_articles = 0;
  failed_articles = 0;
}

abbrev settle : SegmentState → Bool → ℕ → JobTotals → JobTotals
settle (done offset len crc) par size t = record t {
  success_size = t.success_size + size;
  success_articles = suc t.success_articles;
}
settle SegmentState.failed par size t = record t {
  failed_size = t.failed_size + size;
  failed_articles = suc t.failed_articles;
  failed_par_size = if par then t.failed_par_size + size else t.failed_par_size;
}
settle pending par size t = t
settle (leased server) par size t = t

-- One round of the inner loop of `recompute_job_totals`.
unfoldable pub add_segment : Bool → JobTotals → Segment → JobTotals
add_segment par t s = settle s.state par s.size (record t {
  size = t.size + s.size;
  total_articles = suc t.total_articles;
  par_size = if par then t.par_size + s.size else t.par_size;
})

unfoldable pub add_segments : Bool → JobTotals → List Segment → JobTotals
add_segments par t [] = t
add_segments par t (s ∷ rest) = add_segments par (add_segment par t s) rest

unfoldable pub add_files : JobTotals → List FileEntry → JobTotals
add_files t [] = t
add_files t (f ∷ rest) = add_files (add_segments f.is_par2 t f.segments) rest

unfoldable pub recompute_job_totals : Job → Job
recompute_job_totals j = record j { totals = add_files no_totals j.files }

abbrev pub is_open : SegmentState → Bool
is_open pending = true
is_open (leased server) = true
is_open (done offset len crc) = false
is_open SegmentState.failed = false

abbrev pub counts_remaining : JobStatus → Bool
counts_remaining queued = true
counts_remaining downloading = true
counts_remaining paused = true
counts_remaining _ = false

unfoldable pub open_bytes : List Segment → ℕ
open_bytes [] = 0
open_bytes (s ∷ rest) = (if is_open s.state then s.size else 0) + open_bytes rest

unfoldable pub unpaused_open_bytes : List FileEntry → ℕ
unfolding open_bytes
unpaused_open_bytes [] = 0
unpaused_open_bytes (f ∷ rest) =
    (if f.paused then 0 else open_bytes f.segments) + unpaused_open_bytes rest

unfoldable pub remaining_bytes : List Job → ℕ
unfolding unpaused_open_bytes
remaining_bytes [] = 0
remaining_bytes (j ∷ rest) =
    (if counts_remaining j.status then unpaused_open_bytes j.files else 0) + remaining_bytes rest

unfoldable pub final_status : Job → JobStatus × ℕ
final_status j =
    let health = calc j.totals in
    (if ltb health (calc_critical j.totals true) then JobStatus.failed else completed, health)
