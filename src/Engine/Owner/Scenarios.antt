-- ===== src/Engine/Owner/Scenarios.antt =====
-- The owner with one server, and a job of a payload file and a par2 file.
mod Abort
use nzbd.Prelude.{
  subst, sym, In, ℕ, ◌*◌, ◌-◌, ◌^◌, ◌≤◌, min, ◌≡◌, refl, inl, inr, ◌⊎◌, Bool, true, false, List, [],
  ◌∷◌, Option, none, some, arith, length,
}
use nzbd.Prelude.Int.{ℤ, pos, ◌-ℤ◌, ◌+ℤ◌}
use nzbd.Types.Server.{ServerDef, TlsMode, CertLevel}
use nzbd.Types.Job.{
  is_settled, Job, nzb, JobStatus, queued, downloading, completed, FileEntry, Segment, SegmentState,
  pending, leased, done, JobTotals, is_terminal, has_any_done, force_priority,
}
use nzbd.Types.Health.{calc, calc_critical}
use nzbd.Prelude.Sort.{stable_sort, insert_sorted}
use nzbd.Yenc.Combine.{times_from, combine_rounds, crc32_combine}
use nzbd.Engine.Failover.{
  article_missing, insert, new_ladder, new_attempt, current_candidates, climb, round, offer,
  offer_usable, is_candidate, is_group_failed, is_retention_exceeded, is_exhausted, on_outcome,
}
use nzbd.Engine.Queue.{
  QueueState, clamp_active_downloads, job_schedulable, has_backend_work, stalled_retry,
  ranks_before, is_eligible, active_jobs,
}
use nzbd.Engine.Queue.Scan.{
  SegRef, attempt_of, put_attempt, try_segment, scan_segments, scan_files, scan_jobs, scan_order,
  served_jobs, may_serve, next_for_server,
}
use nzbd.Engine.Queue.Totals.{
  no_totals, add_segment, add_segments, add_files, recompute_job_totals, final_status,
}
use nzbd.Engine.Queue.Lookup.{job, segment}
use nzbd.Engine.Owner.{
  Owner, World, sent, saved, save_snapshot, segment_written, segment_failed, writer_finalized,
}
use nzbd.Engine.Owner.Writers.{
  ensure_allocation, writer_for, combine_from, done_parts, combined_crc, try_finalize,
  send_finalize,
}
use nzbd.Engine.Owner.Completion.{
  open_post_stage, status_at_end, ended_job, end_job, check_job_complete, after_file_change,
}
use nzbd.Engine.Owner.Outcomes.{
  store_part, on_segment_written, fail_numbers, fail_files, is_hopeless, maybe_abort_unhealthy,
  give_up, fail_segment, fail_segments, block_server, is_blocked, follow_verdict, on_segment_failed,
}
use nzbd.Engine.Owner.Leases.{selection, hand_out, grant_one, grant_rounds, grant_work}
use nzbd.Engine.Owner.Messages.{on_writer_finalized, on_msg}
use nzbd.Engine.Owner.Guard.{DiskGuardReading, disk_guard_decision, hold_lifted_on_evidence}
use nzbd.Engine.Owner.Upkeep.{
  Turn, message, startup, take_turn, startup_pass, finalize_each, check_each, run,
}
use nzbd.Engine.Owner.Announce.{AnnouncedInOrder, MayEnd, ends_announced_after_shown}
use nzbd.Engine.Owner.Totals.{EveryCounted, totals_stay_counted}
use nzbd.Engine.Owner.Kept.{Numbered}
use nzbd.Engine.Owner.Kept.Runs.{written_part_is_kept}
use nzbd.Engine.Owner.Endings.{
  Finished, LastStatus, IsOver, ends_where_it_may, lost_write_completes_nothing,
}

abbrev pub calm : World
calm = record {
  now_unix = pos 1000000;
  now = 50;
  allocates = λ l j. true;
  is_closed = λ l f. false;
  sends = λ l f. sent;
  saves = λ l. saved;
  is_uninformative = λ name. false;
}

abbrev pub server : ServerDef
server = record {
  id = 1;
  name = 115 ∷ [];
  host = 110 ∷ [];
  port = 563;
  tls = TlsMode.tls;
  username = none;
  password = none;
  active = true;
  tier = 0;
  group = 0;
  fill = false;
  max_connections = 8;
  pipeline_depth = 2;
  retention_days = 10;
  cert_verification = CertLevel.strict;
}

abbrev pub part : ℕ → ℕ → SegmentState → Segment
part number size state = record {
  message_id = 109 ∷ [];
  number = number;
  size = size;
  state = state;
}

abbrev pub entry : ℕ → Option ℤ → List Segment → FileEntry
entry id date segments = record {
  id = id;
  subject = [];
  filename = 102 ∷ [];
  filename_confirmed = true;
  is_par2 = false;
  paused = false;
  groups = [];
  date = date;
  segments = segments;
  crc32 = none;
  finalized = false;
}

abbrev pub a_job : List FileEntry → JobTotals → JobStatus → Job
a_job files totals status = record {
  id = 1;
  kind = nzb;
  name = 106 ∷ [];
  dir_name = 106 ∷ [];
  name_provisional = false;
  queued_at_unix = pos 5;
  original_name = [];
  category = none;
  priority = pos 0;
  dupe = record { key = []; score = pos 0; mode = none };
  params = [];
  files = files;
  totals = totals;
  status = status;
  torrent_record = none;
  stages = [];
}

abbrev pub holding : Job → QueueState
holding j = record {
  jobs = j ∷ [];
  pending_admissions = [];
  next_job_id = 2;
  next_file_id = 20;
  download_paused = false;
  speed_limit_bps = none;
  max_active_downloads = 5;
}

abbrev pub owner_of : QueueState → Owner
owner_of q = record {
  state = q;
  attempts = [];
  blocked = [];
  writers = [];
  retiring_writers = [];
  allocated_jobs = [];
  finalize_sent = [];
  pending_finalize = [];
  pending_name_inspections = [];
  file_sizes = [];
  write_failures = [];
  delegated = [];
  post_fetch_files = [];
  retry_counts = [];
  persist = true;
  servers = server ∷ [];
  tuning = record {
    article_retries = 3;
    retry_interval = 10;
    propagation_delay = pos 0;
    min_free_disk_bytes = 100;
    health_abort = true;
  };
  download_enabled = true;
  dirty = false;
  quota_reached = false;
  disk_low = false;
  enospc_latched = false;
  enospc_observed = 0;
  enospc_where = none;
  rotate = 0;
  log = [];
}

-- One part of the file is on disk, the other is leased.
abbrev half_way : Job
half_way =
    a_job (entry 10 none (part 1 9 (done 0 4 7) ∷ part 2 9 (leased 1) ∷ []) ∷ [])
      (record no_totals { size = 18; success_size = 9; total_articles = 2; success_articles = 1 })
      downloading

abbrev opened : Owner
opened = owner_of (holding half_way)

abbrev second : SegRef
second = record { job = 1; file = 10; seg_number = 2 }

abbrev first : SegRef
first = record { job = 1; file = 10; seg_number = 1 }

-- The second part arrives, its copy fails, the file is finalized.
abbrev day : List (World × Turn)
day =
    (calm, startup)
    ∷ (calm, message (segment_written second 4 5 8 9 1))
    ∷ (calm, message (segment_failed second 1 article_missing))
    ∷ (calm, message (writer_finalized 1 10 true none (some 3)))
    ∷ []

ends_announced_after_shown_example : AnnouncedInOrder (run day opened).log
ends_announced_after_shown_example = ends_announced_after_shown day opened tt

opened-EveryCounted : EveryCounted opened.state
unfolding add_files add_segments add_segment
opened-EveryCounted = (refl, tt)

totals_stay_counted_example : EveryCounted (run day opened).state
totals_stay_counted_example =
    totals_stay_counted day opened (refl, (refl, (refl, (refl, tt)))) opened-EveryCounted

opened-Numbered : Numbered opened.state
opened-Numbered = (((λ m. m), tt), ((((λ m. m), tt), ((apart, ((λ n. n), tt)), tt)), tt))
  where
    apart : ¬ (◌≡◌ {A = ℕ} 1 2 ⊎ ⊥)
    apart (inl e) = absurd (ground (arith, e))
    apart (inr m) = m

written_part_is_kept_example :
    (s : Segment) × (segment (run day opened).state first ≡ some s) × (s.state ≡ done 0 4 7)
written_part_is_kept_example =
    written_part_is_kept day opened first (part 1 9 (done 0 4 7)) 0 4 7 opened-Numbered refl refl

pub runs : Unit {0}
unfolding run take_turn on_msg startup_pass finalize_each check_each on_segment_written store_part
    after_file_change check_job_complete ended_job end_job save_snapshot open_post_stage
    status_at_end final_status is_terminal has_any_done send_finalize writer_for ensure_allocation
    try_finalize combined_crc combine_from done_parts stable_sort insert_sorted crc32_combine
    combine_rounds times_from insert recompute_job_totals add_files add_segments add_segment calc
    calc_critical on_segment_failed follow_verdict on_outcome is_exhausted current_candidates climb
    round offer offer_usable is_candidate is_group_failed is_retention_exceeded new_ladder
    new_attempt attempt_of put_attempt block_server fail_segment give_up maybe_abort_unhealthy
    is_hopeless fail_files fail_numbers on_writer_finalized fail_segments is_blocked
runs = tt

-- The end of that day: the whole file's checksum is ordered, and the job is completed.
job_after : (j : Job) × (job (run day opened).state 1 ≡ some j) × (j.status ≡ completed)
unfolding runs
job_after = (_, refl, refl)

-- A job whose only file is on disk and finalized.
abbrev landed : FileEntry
landed = record (entry 10 none (part 1 9 (done 0 9 7) ∷ [])) { finalized = true }

abbrev all_landed : Job
all_landed =
    a_job (landed ∷ [])
      (record no_totals { size = 9; success_size = 9; total_articles = 1; success_articles = 1 })
      downloading

landed-IsOver : (s : Segment) → In s landed.segments → is_settled s.state ≡ true
landed-IsOver s (inl e) = rw e refl
landed-IsOver s (inr m) = elim m [ ]

landed-Finished : Finished 1 (owner_of (holding all_landed)) all_landed
landed-Finished = record {
  here = λ m. elim m [ ];
  inspected = λ n e. absurd (ground (arith, e));
  found = refl;
  active = inr (inl refl);
  some_file = (landed, inl refl);
  over = λ f m. elim m [
    | inl e ↦ subst IsOver (sym e) (inr (landed-IsOver, λ s k d. refl))
    | inr k ↦ elim k [ ]
  ];
}

ends_where_it_may_example :
    (status : JobStatus) × LastStatus 1 (owner_of (holding all_landed)) all_landed status
    × (job (check_job_complete calm 1 (owner_of (holding all_landed))).state 1
        ≡ some (record all_landed { status = status }))
ends_where_it_may_example =
    (ends_where_it_may calm 1 (owner_of (holding all_landed))).0 all_landed landed-Finished

-- A late report about a job that is over.
abbrev over : Job
over = record all_landed { status = completed }

late_report :
    job (on_writer_finalized calm 1 10 false none none (owner_of (holding over))).state 1
    ≡ some over
unfolding on_writer_finalized check_job_complete ended_job is_terminal has_any_done
late_report = refl

lost_write_completes_nothing_example :
    (k : Job) × (job (holding over) 1 ≡ some k) × (k.status ≡ completed)
lost_write_completes_nothing_example =
    lost_write_completes_nothing calm 1 10 none none (owner_of (holding over)) landed over refl
      late_report refl

abbrev half_full : DiskGuardReading
half_full = record { available_bytes = some 250; all_roots_known = true }

hold_lifted : (disk_guard_decision true true half_full 100).1 ≡ false
unfolding disk_guard_decision
hold_lifted = refl

hold_lifted_on_evidence_example :
    (half_full.all_roots_known ≡ true)
    × ((free : ℕ) → half_full.available_bytes ≡ some free → 100 ≤ free)
    × (◌≡◌ {A = Bool} true true
        → (1 ≤ 100)
          × (free : ℕ) × (half_full.available_bytes ≡ some free)
          × (min (100 * 2) (2 ^ 64 - 1) ≤ free))
hold_lifted_on_evidence_example = hold_lifted_on_evidence true half_full 100 hold_lifted
