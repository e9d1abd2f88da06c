-- ===== src/Engine/Owner/Totals.antt =====
-- crates/nzbd-engine/src/owner.rs: the totals of every job stay the totals of its segments.
use nzbd.Prelude.{
  ℕ, ◌≡◌, refl, sym, ◌∙◌, ap, subst, inl, inr, Bool, true, List, [], ◌∷◌, All, map, Bool-cases,
  ◌==◌,
}
use nzbd.Prelude.Maps.{update_first, All-update_first}
use nzbd.Types.Job.{
  JobId, FileId, Job, JobTotals, FileEntry, Segment, SegmentState, pending, leased, done,
}
use nzbd.Engine.Queue.{QueueState}
use nzbd.Engine.Queue.Scan.{SegRef}
use nzbd.Engine.Queue.Lookup.{with_job, with_file, with_segment, in_file, in_segment}
use nzbd.Engine.Queue.Totals.{no_totals, add_segment, add_segments, add_files, recompute_job_totals}
use nzbd.Engine.Owner.{Owner, World}
use nzbd.Engine.Owner.Outcomes.{set_segment, release}
use nzbd.Engine.Owner.Upkeep.{Turn, run}
use nzbd.Engine.Owner.Stable.{Stable, KeepsFile, KeepsJob, failed_at}
use nzbd.Engine.Owner.Stable.Turns.{grants_nothing, reports_stable}
use nzbd.Engine.Owner.Announce.{end_job-state}

-- The totals that the job carries are those that a count of its segments gives.
abbrev pub Counted : Job → Type 0
Counted j = add_files no_totals j.files ≡ j.totals

abbrev pub EveryCounted : QueueState → Type 0
EveryCounted q = All Counted q.jobs

module _ {A : Type 0} (P : A → Type 0) (p : A → Bool) where
  -- What a repair of the first element gives, it gives after the element is changed again.
  repaired_again :
      (g fix : A → A) (l : List A)
      → ((x : A) → P (fix x))
      → ((x : A) → p (g x) ≡ p x)
      → All P (update_first p fix l)
      → All P (update_first p fix (update_first p g l))
  repaired_again g fix [] k same h = tt
  repaired_again g fix (x ∷ l) k same h = elim (Bool-cases (p x)) [
    | inl t ↦
        let h' : All P (fix x ∷ l) = rw t at h in
        let t' : p (g x) ≡ true = same x ∙ t in rw t (rw t' (k (g x), h'.1))
    | inr f ↦
        let h' : All P (x ∷ update_first p fix l) = rw f at h in
        rw f (rw f (h'.0, repaired_again g fix l k same h'.1))
  ]

recompute_job_totals-Counted : (j : Job) → Counted (recompute_job_totals j)
unfolding recompute_job_totals
recompute_job_totals-Counted j = refl

release_uncounted :
    (par : Bool) (t : JobTotals) (s : Segment) → add_segment par t (release s) ≡ add_segment par t s
unfolding add_segment
release_uncounted par t s = from s.state
  where
    from :
        (st : SegmentState)
        → add_segment par t (release (set_segment st s)) ≡ add_segment par t (set_segment st s)
    from pending = refl
    from (leased k) = refl
    from (done o l c) = refl
    from SegmentState.failed = refl

release_uncounted_in :
    (n : ℕ) (par : Bool) (t : JobTotals) (l : List Segment)
    → add_segments par t (update_first (λ s. s.number == n) release l) ≡ add_segments par t l
unfolding add_segments
release_uncounted_in n par t [] = refl
release_uncounted_in n par t (s ∷ l) = elim (Bool-cases (s.number == n)) [
  | inl h ↦ rw h (ap (λ u. add_segments par u l) (release_uncounted par t s))
  | inr f ↦ rw f (release_uncounted_in n par (add_segment par t s) l)
]

-- A change of one file that changes no count.
files_uncounted :
    (f : FileId) (g : FileEntry → FileEntry) (t : JobTotals) (l : List FileEntry)
    → ((x : FileEntry) (u : JobTotals)
        → add_segments (g x).is_par2 u (g x).segments ≡ add_segments x.is_par2 u x.segments)
    → add_files t (update_first (λ x. x.id == f) g l) ≡ add_files t l
unfolding add_files
files_uncounted f g t [] k = refl
files_uncounted f g t (x ∷ l) k = elim (Bool-cases (x.id == f)) [
  | inl h ↦ rw h (ap (λ u. add_files u l) (k x t))
  | inr n ↦ rw n (files_uncounted f g (add_segments x.is_par2 t x.segments) l k)
]

file_kept-EveryCounted :
    (q : QueueState) (id : JobId) (f : FileId) (g : FileEntry → FileEntry)
    → KeepsFile g
    → EveryCounted q
    → EveryCounted (with_file id f g q)
file_kept-EveryCounted q id f g k h =
    All-update_first Counted _ (in_file f g) q.jobs
      (λ j e.
        files_uncounted f g no_totals j.files (λ x u. rw (k.is_par2 x) (rw (k.segments x) refl))
        ∙ e)
      h

job_kept-EveryCounted :
    (q : QueueState) (id : JobId) (g : Job → Job)
    → KeepsJob g
    → EveryCounted q
    → EveryCounted (with_job id g q)
job_kept-EveryCounted q id g k h =
    All-update_first Counted _ g q.jobs
      (λ j e. ap (add_files no_totals) (k.files j) ∙ e ∙ sym (k.totals j)) h

each_kept-EveryCounted :
    (l : List Job) (g : Job → Job) → KeepsJob g → All Counted l → All Counted (map g l)
each_kept-EveryCounted [] g k h = tt
each_kept-EveryCounted (j ∷ l) g k h = (
  ap (add_files no_totals) (k.files j) ∙ h.0 ∙ sym (k.totals j),
  each_kept-EveryCounted l g k h.1,
)

released-EveryCounted :
    (q : QueueState) (r : SegRef) → EveryCounted q → EveryCounted (with_segment r release q)
released-EveryCounted q r h =
    All-update_first Counted _ (in_file r.file (in_segment r.seg_number release)) q.jobs
      (λ j e.
        files_uncounted r.file _ no_totals j.files
          (λ x u. release_uncounted_in r.seg_number x.is_par2 u x.segments)
        ∙ e)
      h

-- The counts are right once the job is counted again.
abbrev Recounted : JobId → QueueState → Type 0
Recounted id q = EveryCounted (with_job id recompute_job_totals q)

EveryCounted→Recounted : (id : JobId) (q : QueueState) → EveryCounted q → Recounted id q
EveryCounted→Recounted id q h =
    All-update_first Counted _ recompute_job_totals q.jobs (λ j e. recompute_job_totals-Counted j) h

segment_set-Recounted :
    (q : QueueState) (r : SegRef) (st : SegmentState)
    → Recounted r.job q
    → Recounted r.job (with_segment r (set_segment st) q)
segment_set-Recounted q r st h =
    repaired_again Counted _ (in_file r.file (in_segment r.seg_number (set_segment st)))
      recompute_job_totals q.jobs recompute_job_totals-Counted (λ x. refl) h

failed_at-Recounted :
    (id : JobId) (f : FileId) (ns : List ℕ) (q : QueueState)
    → Recounted id q
    → Recounted id (failed_at id f ns q)
failed_at-Recounted id f [] q h = h
failed_at-Recounted id f (n ∷ rest) q h =
    failed_at-Recounted id f rest _ (
      segment_set-Recounted q (record { job = id; file = f; seg_number = n }) SegmentState.failed h)

counted : Stable (λ q l. EveryCounted q) (λ j fs. Unit {0})
counted = record {
  noted = λ q l e t h. h;
  ended = λ w id j o e h. subst EveryCounted (sym (end_job-state w id j o)) (
      job_kept-EveryCounted o.state id _
        (record { id = λ x. refl; files = λ x. refl; totals = λ x. refl }) h);
  file_kept = λ q l id f g k h. file_kept-EveryCounted q id f g k h;
  job_kept = λ q l id g k h. job_kept-EveryCounted q id g k h;
  each_kept = λ q l g k h. each_kept-EveryCounted q.jobs g k h;
  released = λ q l r h. released-EveryCounted q r h;
  settled = λ q l r st s e n h. segment_set-Recounted q r st (EveryCounted→Recounted r.job q h);
  start = λ q l id j e h. tt;
  aborted = λ q l id f ns rest safe h.
      (failed_at-Recounted id f ns q (EveryCounted→Recounted id q h), tt);
}

-- Where the totals of every job are those that a count of its segments gives, they still are after
-- any turns of the owner other than requests for work, whatever the world answers: parts written or
-- failed, files finalized or lost, names learned, servers blocked, a full disk, and the work of the
-- startup and of the ticks.
pub totals_stay_counted :
    (ts : List (World × Turn)) (o : Owner)
    → All (λ (e : World × Turn). grants_nothing e.1 ≡ true) ts
    → EveryCounted o.state
    → EveryCounted (run ts o).state
totals_stay_counted ts o a h =
    reports_stable (λ q l. EveryCounted q) (λ j fs. Unit {0}) counted ts o a h
