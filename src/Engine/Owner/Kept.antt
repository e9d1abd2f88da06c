-- ===== src/Engine/Owner/Kept.antt =====
-- crates/nzbd-engine/src/owner.rs: a part that is on disk stays accounted for.
pub mod Numbers
pub mod Runs
use nzbd.Prelude.{
  ℕ, ◌≡◌, refl, sym, ◌∙◌, ap, subst, inl, inr, ◌⊎◌, Bool, true, false, not, List, [], ◌∷◌, map,
  Option, none, some, and_then, arith, All, All-of_In, All-from_In, In, Bool-cases, Option-cases,
  ◌==◌, ◌&&◌, is_some, find, select, select-In, length,
}
use nzbd.Prelude.Sort.{take-In, stable_sort-In}
use nzbd.Prelude.Maps.{
  update_first, get, Distinct, Distinct-find, find-In, find-update_first, find-update_other,
  map-update_first, All-update_first,
}
use nzbd.Types.Job.{
  JobId, FileId, ServerId, Job, FileEntry, Segment, SegmentState, pending, leased, done, is_pending,
  is_done, is_terminal,
}
use nzbd.Types.Server.{ServerDef}
use nzbd.Engine.Queue.{QueueState}
use nzbd.Engine.Queue.Scan.{SegRef, same_ref, next_for_server}
use nzbd.Engine.Queue.Lookup.{
  job, file, file_in, segment, segment_in, with_job, with_file, with_segment, in_file, in_segment,
}
use nzbd.Engine.Queue.Totals.{recompute_job_totals}
use nzbd.Engine.Owner.{Owner, World, EngineMsg}
use nzbd.Engine.Owner.Outcomes.{set_segment, release, pending_by_file}
use nzbd.Engine.Owner.Stable.{KeepsFile, KeepsJob, failed_at}

-- In a queue, no two jobs share a number, nor two files of a job, nor two segments of a file.
abbrev pub NumberedFile : FileEntry → Type 0
NumberedFile f = Distinct (map (λ (s : Segment). s.number) f.segments)

abbrev pub NumberedJob : Job → Type 0
NumberedJob j = Distinct (map (λ (f : FileEntry). f.id) j.files) × All NumberedFile j.files

abbrev pub Numbered : QueueState → Type 0
Numbered q = Distinct (map (λ (j : Job). j.id) q.jobs) × All NumberedJob q.jobs

-- The segment that a reference finds, with its job and its file.
pub record LocatedIn (j : Job) (r : SegRef) (s : Segment) : Type 0 where
  pub entry : FileEntry
  pub entry_found : file_in j r.file ≡ some entry
  pub segment_found : segment_in entry r.seg_number ≡ some s

pub record Located (q : QueueState) (r : SegRef) (s : Segment) : Type 0 where
  pub owner : Job
  pub owner_found : job q r.job ≡ some owner
  pub inside : LocatedIn owner r s

pub segment-Located :
    (q : QueueState) (r : SegRef) (s : Segment) → segment q r ≡ some s → Located q r s
segment-Located q r s e = elim (Option-cases (job q r.job)) [
  | inl n ↦ let e' : none ≡ some s = rw n at e in absurd (ground (arith, e'))
  | inr (j, n) ↦
      let e1 : and_then (file_in j r.file) (λ f. segment_in f r.seg_number) ≡ some s = rw n at e in
      elim (Option-cases (file_in j r.file)) [
        | inl m ↦ let e' : none ≡ some s = rw m at e1 in absurd (ground (arith, e'))
        | inr (x, m) ↦ record {
          owner = j;
          owner_found = n;
          inside = record { entry = x; entry_found = m; segment_found = rw m at e1 };
        }
      ]
]

pub Located-segment :
    (q : QueueState) (r : SegRef) (s : Segment) → Located q r s → segment q r ≡ some s
Located-segment q r s l = rw l.owner_found (rw l.inside.entry_found (l.inside.segment_found))

-- A change of a job, a file or a segment that leaves in its place what the reference finds.
with_job-Located :
    (q : QueueState) (id : JobId) (g : Job → Job) (r : SegRef) (s : Segment)
    → ((j : Job) → (g j).id ≡ j.id)
    → ((id == r.job) ≡ true → (j : Job) → LocatedIn j r s → LocatedIn (g j) r s)
    → Located q r s
    → Located (with_job id g q) r s
with_job-Located q id g r s same k l = elim (Bool-cases (id == r.job)) [
  | inl t ↦
      let e : id ≡ r.job = ground (arith, t) in
      record {
        owner = g l.owner;
        owner_found =
            subst (λ (i : ℕ). job (with_job i g q) r.job ≡ some (g l.owner)) (sym e)
              (find-update_first (λ (j : Job). j.id) g r.job q.jobs l.owner same l.owner_found);
        inside = k t l.owner l.inside;
      }
  | inr f ↦ record {
    owner = l.owner;
    owner_found = find-update_other (λ (j : Job). j.id) g r.job id q.jobs f same ∙ l.owner_found;
    inside = l.inside;
  }
]

in_file-LocatedIn :
    (j : Job) (f : FileId) (g : FileEntry → FileEntry) (r : SegRef) (s : Segment)
    → ((x : FileEntry) → (g x).id ≡ x.id)
    → ((f == r.file) ≡ true
        → (x : FileEntry) → segment_in x r.seg_number ≡ some s
        → segment_in (g x) r.seg_number ≡ some s)
    → LocatedIn j r s
    → LocatedIn (in_file f g j) r s
in_file-LocatedIn j f g r s same k l = elim (Bool-cases (f == r.file)) [
  | inl t ↦
      let e : f ≡ r.file = ground (arith, t) in
      record {
        entry = g l.entry;
        entry_found =
            subst (λ (i : ℕ). file_in (in_file i g j) r.file ≡ some (g l.entry)) (sym e)
              (find-update_first (λ (x : FileEntry). x.id) g r.file j.files l.entry same
                l.entry_found);
        segment_found = k t l.entry l.segment_found;
      }
  | inr n ↦ record {
    entry = l.entry;
    entry_found =
        find-update_other (λ (x : FileEntry). x.id) g r.file f j.files n same ∙ l.entry_found;
    segment_found = l.segment_found;
  }
]

-- The change is of another segment, or changes nothing of this one.
in_segment-found :
    (x : FileEntry) (n m : ℕ) (g : Segment → Segment) (s : Segment)
    → ((y : Segment) → (g y).number ≡ y.number)
    → ((m == n) ≡ false) ⊎ (g s ≡ s)
    → segment_in x n ≡ some s
    → segment_in (in_segment m g x) n ≡ some s
in_segment-found x n m g s same d e = elim (Bool-cases (m == n)) [
  | inr f ↦ find-update_other (λ (y : Segment). y.number) g n m x.segments f same ∙ e
  | inl t ↦ elim d [
    | inl f ↦ absurd (ground (arith, t, f))
    | inr still ↦
        let eq : m ≡ n = ground (arith, t) in
        subst (λ (i : ℕ). segment_in (in_segment i g x) n ≡ some s) (sym eq)
          (find-update_first (λ (y : Segment). y.number) g n x.segments s same e ∙ ap some still)
  ]
]

pub with_segment-Located :
    (q : QueueState) (p r : SegRef) (g : Segment → Segment) (s : Segment)
    → ((y : Segment) → (g y).number ≡ y.number)
    → (same_ref p r ≡ false) ⊎ (g s ≡ s)
    → Located q r s
    → Located (with_segment p g q) r s
with_segment-Located q p r g s same d l =
    with_job-Located q p.job (in_file p.file (in_segment p.seg_number g)) r s (λ j. refl)
      (λ t j.
        in_file-LocatedIn j p.file (in_segment p.seg_number g) r s (λ x. refl)
          (λ u x. in_segment-found x r.seg_number p.seg_number g s same (elsewhere t u)))
      l
  where
    elsewhere :
        (p.job == r.job) ≡ true
        → (p.file == r.file) ≡ true
        → ((p.seg_number == r.seg_number) ≡ false) ⊎ (g s ≡ s)
    elsewhere t u = elim d [ inl f ↦ inl (ground (arith, t, u, f)) | inr e ↦ inr e ]
