-- ===== src/Engine/Queue/Scan.antt =====
-- crates/nzbd-engine/src/queue.rs: `next_for_server`, the scan for the next segment.
use nzbd.Prelude.{
  ℕ, ◌/◌, ◌%◌, ◌^◌, Bool, false, not, ◌&&◌, ◌||◌, List, [], ◌∷◌, ◌++◌, Option, none, some,
  if◌then◌else◌, ltb, ◌==◌, member, length, is_some, take, select,
}
use nzbd.Prelude.Int.{ℤ, pos, pos_part, ltb_ℤ, ◌+ℤ◌, ◌-ℤ◌}
use nzbd.Prelude.Sort.{rotate_left, stable_sort}
use nzbd.Types.Job.{JobId, FileId, ServerId, Job, FileEntry, Segment, is_pending, is_terminal}
use nzbd.Types.Server.{ServerDef}
use nzbd.Engine.Failover.{
  Ladder, SegmentAttempt, Candidates, servers, wait_for_blocked, exhausted, new_attempt,
  current_candidates,
}
use nzbd.Engine.Queue.{
  QueueState, PostFetch, allowed_files, allows, clamp_active_downloads, job_schedulable,
  has_backend_work, ranks_before,
}

pub record SegRef : Type 0 where
  pub job : JobId
  pub file : FileId
  pub seg_number : ℕ

abbrev pub same_ref : SegRef → SegRef → Bool
same_ref a b = a.job == b.job && a.file == b.file && a.seg_number == b.seg_number

abbrev pub Attempts : Type 0
Attempts = List (SegRef × SegmentAttempt)

-- `entry(r).or_insert_with(..)`.
unfoldable pub attempt_of : SegRef → SegmentAttempt → Attempts → SegmentAttempt
attempt_of r fresh [] = fresh
attempt_of r fresh ((k, a) ∷ m) = if same_ref k r then a else attempt_of r fresh m

unfoldable pub put_attempt : SegRef → SegmentAttempt → Attempts → Attempts
put_attempt r a [] = (r, a) ∷ []
put_attempt r a ((k, b) ∷ m) =
    let rest = put_attempt r a m in if same_ref k r then (k, a) ∷ m else (k, b) ∷ rest

pub record SelectionCtx : Type 0 where
  pub ladder : Ladder
  pub is_blocked : ServerId → Bool
  pub delegated : List JobId
  pub post_fetch_files : PostFetch
  pub regular_downloads : Bool
  pub article_retries : ℕ
  pub now_unix : ℤ
  pub propagation_delay_secs : ℤ
  pub soft_hold : Bool
  pub rotate : ℕ

-- The scan of `next_for_server`: the attempts, the segments found exhausted, and the lease once found.
pub record Scan : Type 0 where
  pub attempts : Attempts
  pub gone : List SegRef
  pub lease : Option SegRef

-- What the answer of the ladder makes of a segment.
abbrev pub answered : ServerId → SegRef → Candidates → Scan → Scan
answered server r (servers ids) sc = if member server ids then record sc { lease = some r } else sc
answered server r wait_for_blocked sc = sc
answered server r exhausted sc = record sc { gone = sc.gone ++ r ∷ [] }

unfoldable pub try_segment : SelectionCtx → ServerId → Option ℕ → SegRef → Scan → Scan
try_segment ctx server age r sc =
    let att = attempt_of r (new_attempt ctx.article_retries) sc.attempts in
    let (att', c) = current_candidates ctx.ladder att ctx.is_blocked age in
    answered server r c (record sc { attempts = put_attempt r att' sc.attempts })

-- The early return once a lease is found.
abbrev pub unless_leased : Scan → Scan → Scan
unless_leased sc later = elim sc.lease [ some r ↦ sc | none ↦ later ]

unfoldable pub scan_segments :
    SelectionCtx → ServerId → JobId → FileId → Option ℕ → List Segment → Scan → Scan
scan_segments ctx server j f age [] sc = sc
scan_segments ctx server j f age (s ∷ rest) sc =
    let r : SegRef = record { job = j; file = f; seg_number = s.number } in
    let sc' = if is_pending s.state then try_segment ctx server age r sc else sc in
    unless_leased sc' (scan_segments ctx server j f age rest sc')

abbrev pub too_young : SelectionCtx → Option ℤ → Bool
too_young ctx none = false
too_young ctx (some date) =
    ltb_ℤ (pos 0) ctx.propagation_delay_secs
    && ltb_ℤ ctx.now_unix (date +ℤ ctx.propagation_delay_secs)

-- `((now_unix - d).max(0) / 86_400) as u32`.
abbrev pub age_days : ℤ → Option ℤ → Option ℕ
age_days now_unix none = none
age_days now_unix (some d) = some (pos_part (now_unix -ℤ d) / 86400 % 2 ^ 32)

abbrev pub skips_file : SelectionCtx → JobId → FileEntry → Bool
skips_file ctx j f =
    f.paused
    || is_terminal f
    || not (allows (allowed_files ctx.post_fetch_files j) f.id)
    || too_young ctx f.date

unfoldable pub scan_files : SelectionCtx → ServerId → JobId → List FileEntry → Scan → Scan
scan_files ctx server j [] sc = sc
scan_files ctx server j (f ∷ rest) sc =
    let sc' =
      if skips_file ctx j f
      then sc
      else scan_segments ctx server j f.id (age_days ctx.now_unix f.date) f.segments sc in
    unless_leased sc' (scan_files ctx server j rest sc')

unfoldable pub scan_jobs : SelectionCtx → ServerId → List Job → Scan → Scan
scan_jobs ctx server [] sc = sc
scan_jobs ctx server (j ∷ rest) sc =
    let sc' = scan_files ctx server j.id j.files sc in
    unless_leased sc' (scan_jobs ctx server rest sc')

abbrev pub rotated : ℕ → List Job → List Job
rotated rotate order =
    if ltb 1 (length order) then rotate_left (rotate % length order) order else order

-- The filters of `next_for_server`, and its own sort and truncation.
unfoldable pub may_serve : QueueState → SelectionCtx → Job → Bool
may_serve state ctx j =
    (not (member j.id ctx.delegated) || is_some (allowed_files ctx.post_fetch_files j.id))
    && (ctx.regular_downloads || is_some (allowed_files ctx.post_fetch_files j.id))
    && job_schedulable j (state.download_paused || ctx.soft_hold)
    && has_backend_work j ctx.now_unix (allowed_files ctx.post_fetch_files j.id)

unfoldable pub served_jobs : QueueState → SelectionCtx → List Job
served_jobs state ctx =
    take (clamp_active_downloads state.max_active_downloads)
      (stable_sort (ranks_before ctx.now_unix) (select (may_serve state ctx) state.jobs))

-- The order in which the jobs are scanned.
unfoldable pub scan_order : QueueState → SelectionCtx → List Job
scan_order state ctx = rotated ctx.rotate (served_jobs state ctx)

unfoldable pub next_for_server : QueueState → ServerDef → SelectionCtx → Attempts → Scan
next_for_server state server ctx attempts =
    scan_jobs ctx server.id (scan_order state ctx)
      (record { attempts = attempts; gone = []; lease = none })
