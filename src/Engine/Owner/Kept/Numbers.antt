-- ===== src/Engine/Owner/Kept/Numbers.antt =====
-- crates/nzbd-engine/src/owner.rs: the numbers of jobs, files and segments tell them apart.
use nzbd.Prelude.{
  ◌≡◌, refl, sym, ◌∙◌, ap, subst, inl, inr, true, false, List, [], ◌∷◌, map, arith, All, All-of_In,
  In, Bool-cases, select-In,
}
use nzbd.Prelude.Sort.{take-In, stable_sort-In}
use nzbd.Prelude.Maps.{
  Distinct, Distinct-find, map-update_first, map-map_same, All-map, All-update_first,
}
use nzbd.Types.Job.{JobId, FileId, Job, FileEntry, Segment, is_pending, is_done}
use nzbd.Engine.Queue.{QueueState, active_jobs}
use nzbd.Engine.Queue.Scan.{SegRef, same_ref, SelectionCtx}
use nzbd.Engine.Queue.Grants.{active_for}
use nzbd.Engine.Queue.Lookup.{
  file_in, segment_in, with_job, with_file, with_segment, in_file, in_segment, each_job,
}
use nzbd.Engine.Owner.Stable.{KeepsJob}
use nzbd.Engine.Owner.Kept.{NumberedFile, NumberedJob, Numbered, Located}

pub with_job-Numbered :
    (q : QueueState) (id : JobId) (g : Job → Job)
    → ((j : Job) → (g j).id ≡ j.id)
    → ((j : Job) → NumberedJob j → NumberedJob (g j))
    → Numbered q
    → Numbered (with_job id g q)
with_job-Numbered q id g same k (d, h) = (
  subst Distinct (sym (map-update_first (λ (j : Job). j.id) _ g q.jobs same)) d,
  All-update_first NumberedJob _ g q.jobs k h,
)

-- A job whose files are the same is numbered as before.
pub same_files-NumberedJob : (j k : Job) → k.files ≡ j.files → NumberedJob j → NumberedJob k
same_files-NumberedJob j k e n =
    subst (λ (l : List FileEntry). Distinct (map (λ (f : FileEntry). f.id) l) × All NumberedFile l)
      (sym e) n

pub each_job-Numbered :
    (q : QueueState) (g : Job → Job) → KeepsJob g → Numbered q → Numbered (each_job g q)
each_job-Numbered q g k (d, h) = (
  subst Distinct (sym (map-map_same (λ (j : Job). j.id) g q.jobs k.id)) d,
  All-map NumberedJob g q.jobs (λ j n. same_files-NumberedJob j (g j) (k.files j) n) h,
)

pub with_file-Numbered :
    (q : QueueState) (id : JobId) (f : FileId) (g : FileEntry → FileEntry)
    → ((x : FileEntry) → (g x).id ≡ x.id)
    → ((x : FileEntry) → NumberedFile x → NumberedFile (g x))
    → Numbered q
    → Numbered (with_file id f g q)
with_file-Numbered q id f g same k h =
    with_job-Numbered q id (in_file f g) (λ j. refl)
      (λ j (d, n). (
        subst Distinct (sym (map-update_first (λ (x : FileEntry). x.id) _ g j.files same)) d,
        All-update_first NumberedFile _ g j.files k n,
      ))
      h

pub with_segment-Numbered :
    (q : QueueState) (r : SegRef) (g : Segment → Segment)
    → ((s : Segment) → (g s).number ≡ s.number)
    → Numbered q
    → Numbered (with_segment r g q)
with_segment-Numbered q r g same h =
    with_file-Numbered q r.job r.file (in_segment r.seg_number g) (λ x. refl)
      (λ x d.
        subst Distinct (sym (map-update_first (λ (s : Segment). s.number) _ g x.segments same)) d)
      h

-- In a well-numbered queue, a pending segment is not the one that the reference finds done.
pub pending_elsewhere :
    (q : QueueState) (r : SegRef) (s : Segment) (j : Job) (f : FileEntry) (p : Segment)
    → Numbered q
    → Located q r s
    → is_done s.state ≡ true
    → In j q.jobs
    → In f j.files
    → In p f.segments
    → is_pending p.state ≡ true
    → (k : SegRef) → (j.id ≡ k.job)
    → (f.id ≡ k.file)
    → (p.number ≡ k.seg_number)
    → same_ref k r ≡ false
pending_elsewhere q r s j f p num l fin jm fm pm pend k ej ef en =
    elim (Bool-cases (same_ref k r)) [
      | inr other ↦ other
      | inl t ↦
          let a : k.job ≡ r.job = ground (arith, t) in
          let b : k.file ≡ r.file = ground (arith, t) in
          let c : k.seg_number ≡ r.seg_number = ground (arith, t) in
          let sj =
            Distinct-find (λ (x : Job). x.id) r.job q.jobs j l.owner num.0 jm (ej ∙ a)
              l.owner_found in
          let nj = All-of_In NumberedJob q.jobs num.1 j jm in
          let sf =
            Distinct-find (λ (x : FileEntry). x.id) r.file j.files f l.inside.entry nj.0 fm (ef ∙ b)
              (ap (λ x. file_in x r.file) sj ∙ l.inside.entry_found) in
          let nf = All-of_In NumberedFile j.files nj.1 f fm in
          let ss =
            Distinct-find (λ (x : Segment). x.number) r.seg_number f.segments p s nf pm (en ∙ c)
              (ap (λ x. segment_in x r.seg_number) sf ∙ l.inside.segment_found) in
          let st : is_pending s.state ≡ true =
            subst (λ (x : Segment). is_pending x.state ≡ true) ss pend in
          absurd (ground (arith, st, fin))
    ]

pub In-map_back :
    {A B : Type 0} (g : A → B) (l : List A) (b : B) → In b (map g l) → (a : A) × In a l × (b ≡ g a)
In-map_back g [] b m = elim m [ ]
In-map_back g (x ∷ l) b (inl e) = (x, inl refl, e)
In-map_back g (x ∷ l) b (inr m) = let r = In-map_back g l b m in (r.0, inr r.1, r.2)

pub active_for-In :
    (q : QueueState) (ctx : SelectionCtx) (j : Job) → In j (active_for q ctx) → In j q.jobs
unfolding active_jobs
active_for-In q ctx j m = (select-In _ _ j (stable_sort-In _ _ j (take-In _ _ j m))).0
