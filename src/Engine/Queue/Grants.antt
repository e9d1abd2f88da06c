-- ===== src/Engine/Queue/Grants.antt =====
-- crates/nzbd-engine/src/queue.rs: what a lease that `next_for_server` grants is good for.
use nzbd.Prelude.{
  select-In, In-member, ℕ, ◌≡◌, ◌⊎◌, inl, inr, refl, sym, ◌∙◌, subst, ap, true, false, List, [],
  ◌∷◌, map, Option, none, some, arith, In, Bool-cases, length, member, ltb,
}
use nzbd.Prelude.Int.{ℤ, pos, ltb_ℤ, ◌+ℤ◌}
use nzbd.Prelude.Sort.{rotate_left-In}
use nzbd.Engine.Queue.Attempts.{
  Resumes, Resumes-refl, Kept, try_segment-Kept, scan_segments-Kept, scan_files-Kept,
}
use nzbd.Engine.Queue.Eligible.{allows-In}
use nzbd.Types.Job.{JobId, FileId, ServerId, Job, FileEntry, Segment, is_pending}
use nzbd.Types.Server.{ServerDef}
use nzbd.Engine.Failover.{
  SegmentAttempt, Candidates, servers, wait_for_blocked, exhausted, new_attempt, current_candidates,
}
use nzbd.Engine.Queue.{
  QueueState, allowed_files, is_eligible, active_jobs, active_set_with_recovery,
  jobs_to_requeue_with_recovery,
}
use nzbd.Engine.Queue.Scan.{
  SegRef, Attempts, SelectionCtx, Scan, unless_leased, answered, try_segment, scan_segments,
  scan_files, scan_jobs, attempt_of, age_days, skips_file, too_young, may_serve, served_jobs,
  rotated, scan_order, next_for_server,
}

-- The ladder offers the segment to this server, for the attempt as it stood before the scan, or a new
-- one without any; the scan may only have moved it to a later tier.
pub record Offered (ctx : SelectionCtx) (init : Attempts) (server : ServerId) (age : Option ℕ)
    (r : SegRef) : Type 0 where
  pub attempt : SegmentAttempt
  pub known : Resumes (attempt_of r (new_attempt ctx.article_retries) init) attempt
  pub ids : List ServerId
  pub answer : (current_candidates ctx.ladder attempt ctx.is_blocked age).1 ≡ servers ids
  pub asked : member server ids ≡ true

-- A file of which segments may be handed out.
pub record Fetchable (ctx : SelectionCtx) (j : JobId) (f : FileEntry) : Type 0 where
  pub unpaused : f.paused ≡ false
  pub authorised : (l : List FileId) → allowed_files ctx.post_fetch_files j ≡ some l → In f.id l
  pub propagated :
      (date : ℤ)
      → f.date ≡ some date
      → ltb_ℤ (pos 0) ctx.propagation_delay_secs ≡ true
      → ltb_ℤ ctx.now_unix (date +ℤ ctx.propagation_delay_secs) ≡ false

-- A pending segment of a list, offered to the server.
pub record GrantedSegment (ctx : SelectionCtx) (init : Attempts) (server : ServerId)
    (age : Option ℕ) (segs : List Segment) (r : SegRef) : Type 0 where
  pub segment : Segment
  pub listed : In segment segs
  pub numbered : segment.number ≡ r.seg_number
  pub pending : is_pending segment.state ≡ true
  pub offered : Offered ctx init server age r

pub record GrantedFile (ctx : SelectionCtx) (init : Attempts) (server : ServerId) (j : JobId)
    (files : List FileEntry) (r : SegRef) : Type 0 where
  pub file : FileEntry
  pub listed : In file files
  pub named : file.id ≡ r.file
  pub fetchable : Fetchable ctx j file
  pub segment : GrantedSegment ctx init server (age_days ctx.now_unix file.date) file.segments r

pub record GrantedJob (ctx : SelectionCtx) (init : Attempts) (server : ServerId) (jobs : List Job)
    (r : SegRef) : Type 0 where
  pub job : Job
  pub listed : In job jobs
  pub named : job.id ≡ r.job
  pub file : GrantedFile ctx init server job.id job.files r

answered-lease :
    (server : ServerId) (r k : SegRef) (c : Candidates) (sc : Scan)
    → sc.lease ≡ none
    → (answered server r c sc).lease ≡ some k
    → (r ≡ k) × (ids : List ServerId) × (c ≡ servers ids) × (member server ids ≡ true)
answered-lease server r k (servers ids) sc n h = elim (Bool-cases (member server ids)) [
  | inl t ↦ (ground (arith, t), ids, refl, t)
  | inr f ↦ absurd (ground (arith, f))
]
answered-lease server r k wait_for_blocked sc n h = absurd (ground arith)
answered-lease server r k exhausted sc n h = absurd (ground arith)

first_lease :
    (sc later : Scan) (k : SegRef)
    → (unless_leased sc later).lease ≡ some k
    → (sc.lease ≡ some k) ⊎ ((sc.lease ≡ none) × (later.lease ≡ some k))
first_lease sc later k h = ground arith

unleased : (sc later : Scan) → sc.lease ≡ none → unless_leased sc later ≡ later
unleased sc later n = ground arith

skips_file-Fetchable :
    (ctx : SelectionCtx) (j : JobId) (f : FileEntry)
    → skips_file ctx j f ≡ false
    → Fetchable ctx j f
skips_file-Fetchable ctx j f h = record {
  unpaused = ground (arith, h);
  authorised = allows-In (allowed_files ctx.post_fetch_files j) f.id (ground (arith, h));
  propagated = λ date e b.
      let t : too_young ctx f.date ≡ false = ground (arith, h) in
      let t' : too_young ctx (some date) ≡ false = rw e at t in ground (arith, t', b);
}

module _ (ctx : SelectionCtx) (init : Attempts) (server : ServerId) where
  try_segment-lease :
      (age : Option ℕ) (r k : SegRef) (sc : Scan)
      → sc.lease ≡ none
      → Kept ctx init sc
      → (try_segment ctx server age r sc).lease ≡ some k
      → (r ≡ k) × Offered ctx init server age k
  unfolding try_segment
  try_segment-lease age r k sc n u h =
      let q = answered-lease server r k _ _ n h in
      (
        q.0,
        subst (Offered ctx init server age) q.0 (record {
          attempt = attempt_of r (new_attempt ctx.article_retries) sc.attempts;
          known = u r;
          ids = q.1;
          answer = q.2;
          asked = q.3;
        }),
      )

  scan_segments-lease :
      (j : JobId) (f : FileId) (age : Option ℕ) (segs : List Segment) (sc : Scan) (k : SegRef)
      → sc.lease ≡ none
      → Kept ctx init sc
      → (scan_segments ctx server j f age segs sc).lease ≡ some k
      → (j ≡ k.job) × (f ≡ k.file) × GrantedSegment ctx init server age segs k
  unfolding scan_segments
  scan_segments-lease j f age [] sc k n u h = absurd (cc (sym n ∙ h))
  scan_segments-lease j f age (s ∷ rest) sc k n u h = elim (Bool-cases (is_pending s.state)) [
    | inr t ↦
        let h' : (unless_leased sc (scan_segments ctx server j f age rest sc)).lease ≡ some k =
          rw t at h in
        widen (
          scan_segments-lease j f age rest sc k n u
            (rw (unleased sc (scan_segments ctx server j f age rest sc) n) at h'))
    | inl t ↦
        let sc' =
          try_segment ctx server age (record { job = j; file = f; seg_number = s.number }) sc in
        let h' : (unless_leased sc' (scan_segments ctx server j f age rest sc')).lease ≡ some k =
          rw t at h in
        elim (first_lease sc' _ k h') [
          | inl e ↦
              let q = try_segment-lease age _ k sc n u e in
              (
                ap (λ (x : SegRef). x.job) q.0,
                ap (λ (x : SegRef). x.file) q.0,
                record {
                  segment = s;
                  listed = inl refl;
                  numbered = ap (λ (x : SegRef). x.seg_number) q.0;
                  pending = t;
                  offered = q.1;
                },
              )
          | inr (m, e) ↦ widen (
              scan_segments-lease j f age rest sc' k m
                (try_segment-Kept ctx server init age
                  (record { job = j; file = f; seg_number = s.number }) sc u)
                e)
        ]
  ]
    where
      widen :
          (j ≡ k.job) × (f ≡ k.file) × GrantedSegment ctx init server age rest k
          → (j ≡ k.job) × (f ≡ k.file) × GrantedSegment ctx init server age (s ∷ rest) k
      widen (a, b, g) = (
        a,
        b,
        record {
          segment = g.segment;
          listed = inr g.listed;
          numbered = g.numbered;
          pending = g.pending;
          offered = g.offered;
        },
      )

  scan_files-lease :
      (j : JobId) (files : List FileEntry) (sc : Scan) (k : SegRef)
      → sc.lease ≡ none
      → Kept ctx init sc
      → (scan_files ctx server j files sc).lease ≡ some k
      → (j ≡ k.job) × GrantedFile ctx init server j files k
  unfolding scan_files
  scan_files-lease j [] sc k n u h = absurd (cc (sym n ∙ h))
  scan_files-lease j (f ∷ rest) sc k n u h = elim (Bool-cases (skips_file ctx j f)) [
    | inl t ↦
        let h' : (unless_leased sc (scan_files ctx server j rest sc)).lease ≡ some k = rw t at h in
        widen (
          scan_files-lease j rest sc k n u
            (rw (unleased sc (scan_files ctx server j rest sc) n) at h'))
    | inr t ↦
        let age = age_days ctx.now_unix f.date in
        let sc' = scan_segments ctx server j f.id age f.segments sc in
        let h' : (unless_leased sc' (scan_files ctx server j rest sc')).lease ≡ some k =
          rw t at h in
        elim (first_lease sc' _ k h') [
          | inl e ↦
              let q = scan_segments-lease j f.id age f.segments sc k n u e in
              (
                q.0,
                record {
                  file = f;
                  listed = inl refl;
                  named = q.1;
                  fetchable = skips_file-Fetchable ctx j f t;
                  segment = q.2;
                },
              )
          | inr (m, e) ↦ widen (
              scan_files-lease j rest sc' k m
                (scan_segments-Kept ctx server init j f.id age f.segments sc u) e)
        ]
  ]
    where
      widen :
          (j ≡ k.job) × GrantedFile ctx init server j rest k
          → (j ≡ k.job) × GrantedFile ctx init server j (f ∷ rest) k
      widen (a, g) = (
        a,
        record {
          file = g.file;
          listed = inr g.listed;
          named = g.named;
          fetchable = g.fetchable;
          segment = g.segment;
        },
      )

  scan_jobs-lease :
      (jobs : List Job) (sc : Scan) (k : SegRef)
      → sc.lease ≡ none
      → Kept ctx init sc
      → (scan_jobs ctx server jobs sc).lease ≡ some k
      → GrantedJob ctx init server jobs k
  unfolding scan_jobs
  scan_jobs-lease [] sc k n u h = absurd (cc (sym n ∙ h))
  scan_jobs-lease (j ∷ rest) sc k n u h =
      let sc' = scan_files ctx server j.id j.files sc in
      elim (first_lease sc' (scan_jobs ctx server rest sc') k h) [
        | inl e ↦
            let q = scan_files-lease j.id j.files sc k n u e in
            record { job = j; listed = inl refl; named = q.0; file = q.1 }
        | inr (m, e) ↦
            let g =
              scan_jobs-lease rest sc' k m (scan_files-Kept ctx server init j.id j.files sc u) e in
            record { job = g.job; listed = inr g.listed; named = g.named; file = g.file }
      ]

rotated-In : (n : ℕ) (order : List Job) (j : Job) → In j (rotated n order) → In j order
rotated-In n order j m = elim (Bool-cases (ltb 1 (length order))) [
  | inl t ↦ rotate_left-In _ order j (rw t at m)
  | inr f ↦ rw f at m
]

-- The jobs that may download now, as the scan's context sees them.
abbrev pub active_for : QueueState → SelectionCtx → List Job
active_for state ctx =
    active_jobs state ctx.delegated ctx.post_fetch_files ctx.regular_downloads ctx.soft_hold
      ctx.now_unix

-- The two copies of the filters, the sort and the truncation agree.
served_jobs-active_jobs :
    (state : QueueState) (ctx : SelectionCtx) → served_jobs state ctx ≡ active_for state ctx
unfolding served_jobs may_serve active_jobs is_eligible
served_jobs-active_jobs state ctx = refl

-- A lease that `next_for_server` grants names a job of the active set; a file of that job that is not
-- paused, authorised where only some files are, and old enough to have propagated; and a pending segment of that file, for which the failover ladder offers the asking server, for the
-- attempt that was stored for it, with its failed servers and its retries, or a new one.
pub lease_is_granted :
    (state : QueueState) (server : ServerDef) (ctx : SelectionCtx) (attempts : Attempts)
    (r : SegRef)
    → (next_for_server state server ctx attempts).lease ≡ some r
    → GrantedJob ctx attempts server.id (active_for state ctx) r
unfolding next_for_server scan_order
lease_is_granted state server ctx attempts r h =
    let start : Scan = record { attempts = attempts; gone = []; lease = none } in
    let g =
      scan_jobs-lease ctx attempts server.id (scan_order state ctx) start r refl
        (λ k. Resumes-refl (attempt_of k (new_attempt ctx.article_retries) attempts)) h in
    record {
      job = g.job;
      listed =
          subst (In g.job) (served_jobs-active_jobs state ctx)
            (rotated-In ctx.rotate (served_jobs state ctx) g.job g.listed);
      named = g.named;
      file = g.file;
    }

map_id-In : (js : List Job) (j : Job) → In j js → In j.id (map (λ j. j.id) js)
map_id-In [] j m = elim m [ ]
map_id-In (x ∷ js) j (inl e) = inl (ap (λ (y : Job). y.id) e)
map_id-In (x ∷ js) j (inr m) = inr (map_id-In js j m)

In-map_id : (js : List Job) (i : ℕ) → In i (map (λ j. j.id) js) → (j : Job) × In j js × (j.id ≡ i)
In-map_id [] i m = elim m [ ]
In-map_id (x ∷ js) i (inl e) = (x, inl refl, sym e)
In-map_id (x ∷ js) i (inr m) = let r = In-map_id js i m in (r.0, inr r.1, r.2)

-- The labels and the scheduler, each of which filters, sorts and truncates on its own, agree: the job of any lease that `next_for_server` grants is in the
-- active set computed from the same state and context, and is not among the jobs to requeue.
pub leased_stays_active :
    (state : QueueState) (server : ServerDef) (ctx : SelectionCtx) (attempts : Attempts)
    (r : SegRef)
    → (next_for_server state server ctx attempts).lease ≡ some r
    → In r.job (
        active_set_with_recovery state ctx.delegated ctx.post_fetch_files ctx.regular_downloads
          ctx.soft_hold ctx.now_unix)
      × ¬ In r.job (
          jobs_to_requeue_with_recovery state ctx.delegated ctx.post_fetch_files
            ctx.regular_downloads ctx.soft_hold ctx.now_unix)
unfolding active_set_with_recovery jobs_to_requeue_with_recovery
leased_stays_active state server ctx attempts r h =
    let g = lease_is_granted state server ctx attempts r h in
    let active = map (λ (j : Job). j.id) (active_for state ctx) in
    let m = subst (λ i. In i active) g.named (map_id-In _ g.job g.listed) in
    (
      m,
      λ q.
          let (j, k, e) = In-map_id _ r.job q in
          let t = (select-In _ state.jobs j k).1 in
          let u = In-member j.id active (subst (λ i. In i active) (sym e) m) in
          ground (arith, t, u),
    )
