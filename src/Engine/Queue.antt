-- ===== src/Engine/Queue.antt =====
-- crates/nzbd-engine/src/queue.rs: the queue's state and the choice of the next segment. Hash maps
-- and sets are association lists and lists; a clock reading is an argument.
pub mod Scan
pub mod Lookup
pub mod Eligible
pub mod Active
pub mod Attempts
pub mod Grants
pub mod Totals
pub mod Recovery
pub mod Admission
mod Scenarios
use nzbd.Prelude.{
  ℕ, suc, ◌+◌, ◌-◌, ◌/◌, ◌%◌, ◌^◌, ◌<◌, max, min, Bool, true, false, not, ◌&&◌, ◌||◌, List, [], ◌∷◌,
  map, Option, none, some, if◌then◌else◌, leb, ltb, ◌==◌, any, all, select, find, member, length,
  take, is_some,
}
use nzbd.Prelude.Int.{ℤ, pos, pos_part, ltb_ℤ, leb_ℤ, ◌+ℤ◌, ◌-ℤ◌, saturating_sub}
use nzbd.Prelude.Sort.{stable_sort, rotate_left}
use nzbd.Types.Torrent.{TorrentRecord}
use nzbd.Types.Job.{
  JobId, FileId, ServerId, Job, JobKind, nzb, url, torrent, JobStatus, queued, downloading, paused,
  fetching, post_queued, post, completed, failed, deleted, FileEntry, Segment, is_pending,
  is_leased, is_terminal, force_priority,
}
use nzbd.Types.Server.{ServerDef}
use nzbd.State.{PendingAdmission}
use nzbd.Engine.Backend.{torrent_wants_download_slot, is_queued_phase, stalled_slot_yield_secs}

pub record QueueState : Type 0 where
  pub jobs : List Job
  pub pending_admissions : List PendingAdmission
  pub next_job_id : ℕ
  pub next_file_id : ℕ
  pub download_paused : Bool
  pub speed_limit_bps : Option ℕ
  pub max_active_downloads : ℕ

abbrev pub min_active_downloads : ℕ
min_active_downloads = 1

abbrev pub highest_active_downloads : ℕ
highest_active_downloads = 100

unfoldable pub clamp_active_downloads : ℕ → ℕ
clamp_active_downloads n = min (max n min_active_downloads) highest_active_downloads

-- The files that the verifier authorised for a recovery job.
abbrev pub PostFetch : Type 0
PostFetch = List (JobId × List FileId)

abbrev pub allowed_files : PostFetch → JobId → Option (List FileId)
allowed_files [] j = none
allowed_files ((k, files) ∷ m) j =
    let rest = allowed_files m j in if k == j then some files else rest

abbrev schedulable_status : JobStatus → Bool → Bool → Bool
schedulable_status queued force paused_now = force || not paused_now
schedulable_status downloading force paused_now = force || not paused_now
schedulable_status paused force paused_now = force
schedulable_status _ force paused_now = false

unfoldable pub job_schedulable : Job → Bool → Bool
job_schedulable j download_paused = schedulable_status j.status (force_priority j) download_paused

-- `allowed_files.is_none_or(|allowed| allowed.contains(&f.id))`.
abbrev pub allows : Option (List FileId) → FileId → Bool
allows none f = true
allows (some l) f = member f l

abbrev pub torrent_has_work : Option TorrentRecord → Job → ℤ → Bool
torrent_has_work none j now_unix = false
torrent_has_work (some t) j now_unix = torrent_wants_download_slot t j.queued_at_unix now_unix

abbrev pub files_have_work : List FileEntry → Option (List FileId) → Bool
files_have_work files allowed =
    any
      (λ f.
        not f.paused
        && not (is_terminal f)
        && allows allowed f.id
        && any (λ s. is_pending s.state) f.segments)
      files

abbrev pub work_by_kind : JobKind → Job → ℤ → Option (List FileId) → Bool
work_by_kind torrent j now_unix allowed = torrent_has_work j.torrent_record j now_unix
work_by_kind nzb j now_unix allowed = files_have_work j.files allowed
work_by_kind url j now_unix allowed = files_have_work j.files allowed

unfoldable pub has_backend_work : Job → ℤ → Option (List FileId) → Bool
has_backend_work j now_unix allowed = work_by_kind j.kind j now_unix allowed

unfoldable pub has_leased : Job → Bool
has_leased j = any (λ f. any (λ s. is_leased s.state) f.segments) j.files

abbrev idle_since : Option ℤ → ℤ → Bool
idle_since none now_unix = false
idle_since (some last) now_unix = leb_ℤ stalled_slot_yield_secs (saturating_sub now_unix last)

abbrev stalled_torrent : Option TorrentRecord → ℤ → Bool
stalled_torrent none now_unix = false
stalled_torrent (some t) now_unix =
    is_queued_phase t.phase && idle_since t.last_activity_unix now_unix

-- The key `(stalled_retry, Reverse(priority))`.
unfoldable pub stalled_retry : Job → ℤ → Bool
stalled_retry j now_unix = stalled_torrent j.torrent_record now_unix

-- Does the first job's key come no later than the second's?
unfoldable pub ranks_before : ℤ → Job → Job → Bool
ranks_before now_unix a b =
    if stalled_retry a now_unix
    then stalled_retry b now_unix && leb_ℤ b.priority a.priority
    else if stalled_retry b now_unix
    then true
    else leb_ℤ b.priority a.priority

-- The filters of `active_set_with_recovery`.
unfoldable pub is_eligible : QueueState → List JobId → PostFetch → Bool → Bool → ℤ → Job → Bool
is_eligible state delegated post_fetch_files regular_downloads soft_hold now_unix j =
    (not (member j.id delegated) || is_some (allowed_files post_fetch_files j.id))
    && (regular_downloads || is_some (allowed_files post_fetch_files j.id))
    && job_schedulable j (state.download_paused || soft_hold)
    && has_backend_work j now_unix (allowed_files post_fetch_files j.id)

-- The eligible jobs in order of rank, cut to the cap.
unfoldable pub active_jobs : QueueState → List JobId → PostFetch → Bool → Bool → ℤ → List Job
active_jobs state delegated post_fetch_files regular_downloads soft_hold now_unix =
    take (clamp_active_downloads state.max_active_downloads) (
      stable_sort (ranks_before now_unix) (
        select (is_eligible state delegated post_fetch_files regular_downloads soft_hold now_unix)
          state.jobs))

unfoldable pub active_set_with_recovery :
    QueueState → List JobId → PostFetch → Bool → Bool → ℤ → List JobId
active_set_with_recovery state delegated post_fetch_files regular_downloads soft_hold now_unix =
    map (λ j. j.id)
      (active_jobs state delegated post_fetch_files regular_downloads soft_hold now_unix)

unfoldable pub active_set : QueueState → List JobId → Bool → ℤ → List JobId
active_set state delegated soft_hold now_unix =
    active_set_with_recovery state delegated [] true soft_hold now_unix

abbrev pub is_downloading : JobStatus → Bool
is_downloading downloading = true
is_downloading _ = false

unfoldable pub jobs_to_requeue_with_recovery :
    QueueState → List JobId → PostFetch → Bool → Bool → ℤ → List JobId
jobs_to_requeue_with_recovery state delegated post_fetch_files regular_downloads soft_hold
      now_unix =
    let active =
      active_set_with_recovery state delegated post_fetch_files regular_downloads soft_hold
        now_unix in
    map (λ j. j.id)
      (select (λ j. is_downloading j.status && not (member j.id active) && not (has_leased j))
        state.jobs)

unfoldable pub jobs_to_requeue : QueueState → List JobId → Bool → ℤ → List JobId
jobs_to_requeue state delegated soft_hold now_unix =
    jobs_to_requeue_with_recovery state delegated [] true soft_hold now_unix
