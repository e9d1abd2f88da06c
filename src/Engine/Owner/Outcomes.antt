-- ===== src/Engine/Owner/Outcomes.antt =====
-- crates/nzbd-engine/src/owner.rs: what becomes of a segment, and of a job that cannot be repaired.
use nzbd.Prelude.{
  ℕ, suc, ◌+◌, Bool, true, false, not, ◌&&◌, List, [], ◌∷◌, map, Option, none, some, and_then,
  select, if◌then◌else◌, ltb, leb, unwrap_or,
}
use nzbd.Prelude.Int.{ℤ}
use nzbd.Prelude.Maps.{get, put}
use nzbd.Types.Job.{
  JobId, FileId, ServerId, Job, FileEntry, Segment, SegmentState, pending, done, is_pending,
  is_done, is_leased, is_settled, is_terminal,
}
use nzbd.Types.Health.{calc, calc_critical}
use nzbd.Engine.Failover.{
  SegmentAttempt, AttemptOutcome, Verdict, finished, retry_same, next_server, new_attempt,
  new_ladder, on_outcome, is_exhausted,
}
use nzbd.Engine.Queue.Scan.{SegRef, same_ref, Attempts, attempt_of, put_attempt, age_days}
use nzbd.Engine.Queue.Lookup.{job, file, segment, with_job, with_segment}
use nzbd.Engine.Queue.Totals.{recompute_job_totals}
use nzbd.Engine.Owner.{
  Owner, World, note, emit, on_state, bump_epoch, volume_added, journaled, segment_exhausted,
  server_blocked,
}
use nzbd.Engine.Owner.Completion.{is_active, after_file_change}

abbrev pub drop_attempt : SegRef → Attempts → Attempts
drop_attempt r m = select (λ e. not (same_ref e.0 r)) m

abbrev pub set_segment : SegmentState → Segment → Segment
set_segment st s = record s { state = st }

abbrev pub retotal : JobId → Owner → Owner
retotal j o = on_state (with_job j recompute_job_totals) o

-- A segment takes its last state: its attempt is dropped.
abbrev pub settle_at : SegRef → SegmentState → Owner → Owner
settle_at r st o =
    let o' = on_state (with_segment r (set_segment st)) o in
    record o' { attempts = drop_attempt r o'.attempts }

unfoldable pub store_part : World → SegRef → ℕ → ℕ → ℕ → ℕ → Owner → Owner
store_part w r offset len crc file_size o =
    let settled = settle_at r (done offset len crc) o in
    let logged =
      note
        (journaled (record {
          job = r.job;
          file = r.file;
          segment_number = r.seg_number;
          offset = offset;
          len = len;
          crc32 = crc;
          file_size = file_size;
        }))
        settled in
    after_file_change w r.job r.file (retotal r.job logged)

abbrev learn_size : FileId → ℕ → Owner → Owner
learn_size f size o = record o {
  file_sizes = if ltb 0 size then put f size o.file_sizes else o.file_sizes;
}

unfoldable pub on_segment_written : World → SegRef → ℕ → ℕ → ℕ → ℕ → ServerId → Owner → Owner
on_segment_written w r offset len crc file_size server o =
    let o' = learn_size r.file file_size (note (volume_added server len) o) in
    elim (segment o'.state r) [
      | none ↦ o'
      | some s ↦ if is_done s.state then o' else store_part w r offset len crc file_size o'
    ]

-- The refs of the pending segments of the files that are not terminal, file by file.
abbrev pub pending_numbers : FileEntry → List ℕ
pending_numbers f = map (λ s. s.number) (select (λ s. is_pending s.state) f.segments)

abbrev pub pending_by_file : Job → List (FileId × List ℕ)
pending_by_file j =
    map {B = FileId × List ℕ} (λ f. (f.id, pending_numbers f))
      (select (λ f. not (is_terminal f)) j.files)

unfoldable pub fail_numbers : JobId → FileId → List ℕ → Owner → Owner
fail_numbers j f [] o = o
fail_numbers j f (n ∷ rest) o =
    fail_numbers j f rest
      (settle_at (record { job = j; file = f; seg_number = n }) SegmentState.failed o)

unfoldable pub fail_files : World → JobId → List (FileId × List ℕ) → Owner → Owner
fail_files w j [] o = o
fail_files w j ((f, ns) ∷ rest) o =
    fail_files w j rest (after_file_change w j f (retotal j (fail_numbers j f ns o)))

-- The early returns of `maybe_abort_unhealthy`.
unfoldable pub is_hopeless : Owner → Job → Bool
is_hopeless o j =
    o.tuning.health_abort && is_active j.status && ltb (calc j.totals) (calc_critical j.totals true)

unfoldable pub maybe_abort_unhealthy : World → JobId → Owner → Owner
maybe_abort_unhealthy w id o = elim (job o.state id) [
  | none ↦ o
  | some j ↦ if is_hopeless o j then bump_epoch (fail_files w id (pending_by_file j) o) else o
]

unfoldable pub give_up : World → SegRef → Owner → Owner
give_up w r o =
    let told =
      emit (segment_exhausted r.job r.file r.seg_number)
        (retotal r.job (settle_at r SegmentState.failed o)) in
    maybe_abort_unhealthy w r.job (after_file_change w r.job r.file told)

unfoldable pub fail_segment : World → SegRef → Owner → Owner
fail_segment w r o = elim (segment o.state r) [
  | none ↦ o
  | some s ↦ if is_settled s.state then o else give_up w r o
]

unfoldable pub fail_segments : World → List SegRef → Owner → Owner
fail_segments w [] o = o
fail_segments w (r ∷ rest) o = fail_segments w rest (fail_segment w r o)

unfoldable pub fail_whole_file : World → JobId → FileId → Owner → Owner
fail_whole_file w j f o = elim (file o.state j f) [
  | none ↦ o
  | some x ↦
      let refs : List SegRef =
        map (λ s. record { job = j; file = f; seg_number = s.number })
          (select (λ (s : Segment). not (is_done s.state)) x.segments) in
      fail_segments w refs o
]

abbrev newly_blocked : World → Option ℕ → Bool
newly_blocked w none = true
newly_blocked w (some prev) = leb prev w.now

unfoldable pub block_server : World → ServerId → Owner → Owner
block_server w s o =
    let blocked = record o { blocked = put s (w.now + o.tuning.retry_interval) o.blocked } in
    if newly_blocked w (get s o.blocked)
    then emit (server_blocked s o.tuning.retry_interval) blocked
    else blocked

unfoldable pub is_blocked : World → ServerId → Owner → Bool
is_blocked w s o = elim (get s o.blocked) [ none ↦ false | some until ↦ ltb w.now until ]

abbrev file_date : Owner → SegRef → Option ℤ
file_date o r = and_then (file o.state r.job r.file) (λ f. f.date)

-- The verdict's exhaustion; asking the ladder may move the attempt to a later tier.
abbrev judge : World → Owner → SegRef → SegmentAttempt → Verdict → SegmentAttempt × Bool
judge w o r att next_server =
    is_exhausted (new_ladder o.servers) att (age_days w.now_unix (file_date o r))
judge w o r att Verdict.failed = (att, true)
judge w o r att finished = (att, false)
judge w o r att (retry_same b) = (att, false)

abbrev pub release : Segment → Segment
release s = if is_leased s.state then set_segment pending s else s

abbrev pub blocks : Verdict → Bool
blocks (retry_same b) = b
blocks _ = false

-- What is done with the verdict once the lease is released.
unfoldable pub follow_verdict : World → SegRef → ServerId → Verdict → Bool → Owner → Owner
follow_verdict w r server verdict exhausted o =
    let o' = if blocks verdict then block_server w server o else o in
    bump_epoch (if exhausted then fail_segment w r o' else o')

unfoldable pub on_segment_failed : World → SegRef → ServerId → AttemptOutcome → Owner → Owner
on_segment_failed w r server outcome o =
    let (att, verdict) =
      on_outcome (attempt_of r (new_attempt o.tuning.article_retries) o.attempts) server outcome in
    let (att', exhausted) = judge w o r att verdict in
    let counted = record o {
      retry_counts = put r.job (suc (unwrap_or (get r.job o.retry_counts) 0)) o.retry_counts;
      attempts = put_attempt r att' o.attempts;
    } in
    let released = on_state (with_segment r release) counted in
    follow_verdict w r server verdict exhausted released
