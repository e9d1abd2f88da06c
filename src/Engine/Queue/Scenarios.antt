-- ===== src/Engine/Queue/Scenarios.antt =====
-- The queue's selection and accounting on two jobs, one of them half done.
use nzbd.Prelude.{
  inr, arith, ℕ, ◌+◌, ◌≤◌, ◌≡◌, ◌⊎◌, inl, refl, Bool, true, false, List, [], ◌∷◌, none, some, In,
  length,
}
use nzbd.Prelude.Int.{ℤ, pos}
use nzbd.Prelude.Sort.{stable_sort}
use nzbd.Types.Job.{
  force_priority, is_terminal, Job, JobTotals, nzb, FileEntry, Segment, SegmentState, pending, done,
  is_done, queued,
}
use nzbd.Types.Server.{ServerDef, TlsMode, CertLevel}
use nzbd.Engine.Failover.{
  never_blocked, current_candidates, climb, round, offer, offer_usable, is_candidate,
  is_group_failed, is_retention_exceeded, new_attempt,
}
use nzbd.Engine.Queue.{
  QueueState, clamp_active_downloads, is_eligible, ranks_before, active_jobs, stalled_retry,
  has_backend_work, job_schedulable, active_set_with_recovery, jobs_to_requeue_with_recovery,
}
use nzbd.Engine.Queue.Scan.{
  SegRef, SelectionCtx, attempt_of, put_attempt, try_segment, scan_segments, scan_files, scan_jobs,
  scan_order, next_for_server, served_jobs, may_serve,
}
use nzbd.Engine.Queue.Eligible.{MayDownload, NoLater}
use nzbd.Engine.Queue.Active.{active_set_best}
use nzbd.Engine.Queue.Grants.{GrantedJob, active_for, lease_is_granted, leased_stays_active}
use nzbd.Engine.Queue.Totals.{
  recompute_job_totals, is_open, add_files, add_segments, add_segment, no_totals,
}
use nzbd.Engine.Queue.Totals.Balance.{
  weigh, tally, over_files, any_state, is_failed, every_file, par_file, totals_are_sums,
  totals_balance,
}

abbrev segment_in : ℕ → SegmentState → Segment
segment_in number state = record {
  message_id = 109 ∷ [];
  number = number;
  size = 100;
  state = state;
}

abbrev file_of : ℕ → Bool → List Segment → FileEntry
file_of id is_par2 segments = record {
  id = id;
  subject = [];
  filename = 102 ∷ [];
  filename_confirmed = false;
  is_par2 = is_par2;
  paused = false;
  groups = [];
  date = none;
  segments = segments;
  crc32 = none;
  finalized = false;
}

abbrev job_of : ℕ → ℤ → List FileEntry → Job
job_of id priority files = record {
  id = id;
  kind = nzb;
  name = 106 ∷ [];
  dir_name = 106 ∷ [];
  name_provisional = false;
  queued_at_unix = pos 0;
  original_name = 106 ∷ [];
  category = none;
  priority = priority;
  dupe = record { key = []; score = pos 0; mode = none };
  params = [];
  files = files;
  totals = no_totals;
  status = queued;
  torrent_record = none;
  stages = [];
}

abbrev half_done : Job
half_done = job_of 1 (pos 0) (
    file_of 10 false
      (segment_in 1 (done 0 100 7) ∷ segment_in 2 SegmentState.failed ∷ segment_in 3 pending ∷ [])
    ∷ file_of 11 true (segment_in 1 (done 0 100 9) ∷ [])
    ∷ [])

abbrev urgent : Job
urgent = job_of 2 (pos 50) (file_of 20 false (segment_in 1 pending ∷ []) ∷ [])

abbrev queue : QueueState
queue = record {
  jobs = half_done ∷ urgent ∷ [];
  pending_admissions = [];
  next_job_id = 3;
  next_file_id = 21;
  download_paused = false;
  speed_limit_bps = none;
  max_active_downloads = 1;
}

abbrev server : ServerDef
server = record {
  id = 4;
  name = [];
  host = [];
  port = 563;
  tls = TlsMode.tls;
  username = none;
  password = none;
  active = true;
  tier = 0;
  group = 0;
  fill = false;
  max_connections = 8;
  pipeline_depth = 2;
  retention_days = 0;
  cert_verification = CertLevel.strict;
}

abbrev context : SelectionCtx
context = record {
  ladder = record { servers = server ∷ []; max_tier = 0 };
  is_blocked = never_blocked;
  delegated = [];
  post_fetch_files = [];
  regular_downloads = true;
  article_retries = 3;
  now_unix = pos 1000;
  propagation_delay_secs = pos 0;
  soft_hold = false;
  rotate = 0;
}

abbrev asked : SegRef
asked = record { job = 2; file = 20; seg_number = 1 }

-- Opens the scan and the ladder for the runs below.
runs : Unit {0}
unfolding next_for_server scan_order served_jobs may_serve scan_jobs scan_files scan_segments
    try_segment attempt_of put_attempt active_jobs is_eligible clamp_active_downloads ranks_before
    stalled_retry has_backend_work job_schedulable current_candidates climb round offer offer_usable
    is_candidate is_group_failed is_retention_exceeded new_attempt stable_sort force_priority
    is_terminal
runs = tt

the_urgent_first : active_jobs queue [] [] true false (pos 1000) ≡ urgent ∷ []
unfolding runs
the_urgent_first = refl

grants : (next_for_server queue server context []).lease ≡ some asked
unfolding runs
grants = refl

half_done-MayDownload : MayDownload queue [] [] true false (pos 1000) half_done
unfolding runs
half_done-MayDownload = record {
  here = inl (λ m. elim m [ ]);
  allowed = inl refl;
  schedulable = inl (inl refl, inr (refl, refl));
  work = (
    file_of 10 false (
        segment_in 1 (done 0 100 7) ∷ segment_in 2 SegmentState.failed ∷ segment_in 3 pending ∷ []),
    inl refl,
    refl,
    refl,
    λ l e. absurd (ground (arith, e)),
    (segment_in 3 pending, inr (inr (inl refl)), refl),
  );
}

active_set_best_example :
    (length (active_jobs queue [] [] true false (pos 1000)) ≤ clamp_active_downloads 1)
    × (clamp_active_downloads 1 ≤ 100)
    × MayDownload queue [] [] true false (pos 1000) urgent
    × (In half_done (active_jobs queue [] [] true false (pos 1000))
        ⊎ NoLater (pos 1000) urgent half_done)
unfolding runs
active_set_best_example =
    active_set_best queue [] [] true false (pos 1000) urgent half_done (inl refl) (inl refl)
      half_done-MayDownload

lease_is_granted_example : GrantedJob context [] 4 (active_for queue context) asked
lease_is_granted_example = lease_is_granted queue server context [] asked grants

leased_stays_active_example :
    In {A = ℕ} 2 (active_set_with_recovery queue [] [] true false (pos 1000))
    × ¬ In {A = ℕ} 2 (jobs_to_requeue_with_recovery queue [] [] true false (pos 1000))
leased_stays_active_example = leased_stays_active queue server context [] asked grants

totals_are_sums_example :
    let t = (recompute_job_totals half_done).totals in
    (t.size ≡ over_files every_file (weigh any_state) half_done.files)
    × (t.par_size ≡ over_files par_file (weigh any_state) half_done.files)
    × (t.failed_size ≡ over_files every_file (weigh is_failed) half_done.files)
    × (t.failed_par_size ≡ over_files par_file (weigh is_failed) half_done.files)
    × (t.success_size ≡ over_files every_file (weigh is_done) half_done.files)
    × (t.total_articles ≡ over_files every_file (tally any_state) half_done.files)
    × (t.success_articles ≡ over_files every_file (tally is_done) half_done.files)
    × (t.failed_articles ≡ over_files every_file (tally is_failed) half_done.files)
totals_are_sums_example = totals_are_sums half_done

totals_balance_example :
    let t = (recompute_job_totals half_done).totals in
    (t.size
      ≡ t.success_size + t.failed_size + over_files every_file (weigh is_open) half_done.files)
    × (t.failed_par_size ≤ t.failed_size)
    × (t.failed_par_size ≤ t.par_size)
    × (t.par_size + t.failed_size ≤ t.size + t.failed_par_size)
totals_balance_example = totals_balance half_done

abbrev counted : JobTotals
counted = record {
  size = 400;
  par_size = 100;
  failed_size = 100;
  failed_par_size = 0;
  success_size = 200;
  total_articles = 4;
  success_articles = 2;
  failed_articles = 1;
}

counts : (recompute_job_totals half_done).totals ≡ counted
unfolding recompute_job_totals add_files add_segments add_segment
counts = refl
