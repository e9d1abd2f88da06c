-- ===== src/Engine/Owner/Kept/Runs.antt =====
-- crates/nzbd-engine/src/owner.rs: no message takes a written part back.
use nzbd.Prelude.{
  ℕ, ◌≡◌, refl, sym, ◌∙◌, ap, subst, inl, inr, ◌⊎◌, true, false, not, List, [], ◌∷◌, map, some,
  arith, All, All-from_In, In, Bool-cases, ◌==◌, find, select-In,
}
use nzbd.Prelude.Maps.{Distinct, find-In, find-map}
use nzbd.Types.Job.{
  JobId, FileId, Job, FileEntry, Segment, SegmentState, leased, done, is_pending, is_done,
  is_terminal,
}
use nzbd.Engine.Queue.{QueueState}
use nzbd.Engine.Queue.Scan.{SegRef, same_ref}
use nzbd.Engine.Queue.Grants.{lease_is_granted}
use nzbd.Engine.Queue.Lookup.{job, segment, with_job, with_file, with_segment, in_file, each_job}
use nzbd.Engine.Queue.Totals.{recompute_job_totals}
use nzbd.Engine.Owner.{Owner, World}
use nzbd.Engine.Owner.Outcomes.{set_segment, release, pending_by_file, pending_numbers}
use nzbd.Engine.Owner.Leases.{selection}
use nzbd.Engine.Owner.Upkeep.{Turn, run}
use nzbd.Engine.Owner.Stable.{Stable, KeepsFile, KeepsJob, failed_at}
use nzbd.Engine.Owner.Stable.Grants.{Leasable}
use nzbd.Engine.Owner.Stable.Turns.{run_stable}
use nzbd.Engine.Owner.Announce.{end_job-state}
use nzbd.Engine.Owner.Kept.{
  Numbered, Located, LocatedIn, segment-Located, Located-segment, with_job-Located,
  in_file-LocatedIn, with_segment-Located,
}
use nzbd.Engine.Owner.Kept.Numbers.{
  with_job-Numbered, with_file-Numbered, with_segment-Numbered, pending_elsewhere, In-map_back,
  active_for-In, same_files-NumberedJob, each_job-Numbered,
}

-- The reference finds a written part with these data, in a well-numbered queue.
pub record Written (r : SegRef) (offset len crc : ℕ) (q : QueueState) : Type 0 where
  pub numbered : Numbered q
  pub part : Segment
  pub state : part.state ≡ done offset len crc
  pub located : Located q r part

-- None of these segments is the one that the reference finds.
abbrev Spares : SegRef → JobId → List (FileId × List ℕ) → Type 0
Spares r id fs =
    All
      (λ (e : FileId × List ℕ).
        (n : ℕ) → In n e.1 → same_ref (record { job = id; file = e.0; seg_number = n }) r ≡ false)
      fs

recomputed_id : (j : Job) → (recompute_job_totals j).id ≡ j.id
unfolding recompute_job_totals
recomputed_id j = refl

recomputed_files : (j : Job) → (recompute_job_totals j).files ≡ j.files
unfolding recompute_job_totals
recomputed_files j = refl

module _ (r : SegRef) (offset len crc : ℕ) where
  abbrev W : QueueState → Type 0
  W q = Written r offset len crc q

  is_done-part : (q : QueueState) (h : W q) → is_done h.part.state ≡ true
  is_done-part q h = subst (λ st. is_done st ≡ true) (sym h.state) refl

  same_files-LocatedIn :
      {s : Segment} (j k : Job) → k.files ≡ j.files → LocatedIn j r s → LocatedIn k r s
  same_files-LocatedIn j k e l = record {
    entry = l.entry;
    entry_found = ap (λ (x : List FileEntry). find (λ f. f.id == r.file) x) e ∙ l.entry_found;
    segment_found = l.segment_found;
  }

  with_job-Written :
      (q : QueueState) (id : JobId) (g : Job → Job)
      → ((j : Job) → (g j).id ≡ j.id)
      → ((j : Job) → (g j).files ≡ j.files)
      → W q
      → W (with_job id g q)
  with_job-Written q id g same files h = record {
    numbered =
        with_job-Numbered q id g same (λ j n. same_files-NumberedJob j (g j) (files j) n)
          h.numbered;
    part = h.part;
    state = h.state;
    located =
        with_job-Located q id g r h.part same (λ t j l. same_files-LocatedIn j (g j) (files j) l)
          h.located;
  }

  each_job-Written : (q : QueueState) (g : Job → Job) → KeepsJob g → W q → W (each_job g q)
  each_job-Written q g k h = record {
    numbered = each_job-Numbered q g k h.numbered;
    part = h.part;
    state = h.state;
    located = record {
      owner = g h.located.owner;
      owner_found =
          find-map (λ (j : Job). j.id) g r.job q.jobs h.located.owner k.id h.located.owner_found;
      inside =
          same_files-LocatedIn h.located.owner (g h.located.owner) (k.files h.located.owner)
            h.located.inside;
    };
  }

  with_file-Written :
      (q : QueueState) (id : JobId) (f : FileId) (g : FileEntry → FileEntry)
      → KeepsFile g
      → W q
      → W (with_file id f g q)
  with_file-Written q id f g k h = record {
    numbered =
        with_file-Numbered q id f g k.id
          (λ x n.
            subst (λ (l : List Segment). Distinct (map (λ (s : Segment). s.number) l))
              (sym (k.segments x)) n)
          h.numbered;
    part = h.part;
    state = h.state;
    located =
        with_job-Located q id (in_file f g) r h.part (λ j. refl)
          (λ t j. in_file-LocatedIn j f g r h.part k.id (λ u x e.
            ap (λ (l : List Segment). find (λ s. s.number == r.seg_number) l) (k.segments x) ∙ e))
          h.located;
  }

  with_segment-Written :
      (q : QueueState) (p : SegRef) (g : Segment → Segment) (h : W q)
      → ((y : Segment) → (g y).number ≡ y.number)
      → (same_ref p r ≡ false) ⊎ (g h.part ≡ h.part)
      → W (with_segment p g q)
  with_segment-Written q p g h same d = record {
    numbered = with_segment-Numbered q p g same h.numbered;
    part = h.part;
    state = h.state;
    located = with_segment-Located q p r g h.part same d h.located;
  }

  -- A segment that is not done is another one.
  unfinished_elsewhere :
      (q : QueueState) (p : SegRef) (s : Segment) (h : W q)
      → segment q p ≡ some s
      → is_done s.state ≡ false
      → same_ref p r ≡ false
  unfinished_elsewhere q p s h e n = elim (Bool-cases (same_ref p r)) [
    | inr other ↦ other
    | inl t ↦
        let same : p ≡ r = ground (arith, t) in
        let e' : some h.part ≡ some s =
          sym (Located-segment q r h.part h.located)
          ∙ subst (λ (k : SegRef). segment q k ≡ some s) same e in
        let f : is_done h.part.state ≡ false = ground (arith, e', n) in
        absurd (ground (arith, f, is_done-part q h))
  ]

  release-Written : (q : QueueState) (p : SegRef) → W q → W (with_segment p release q)
  release-Written q p h =
      let still : release h.part ≡ h.part = rw (h.state, release) refl in
      with_segment-Written q p release h (λ y. ground arith) (inr still)

  failed_at-Written :
      (id : JobId) (f : FileId) (ns : List ℕ) (q : QueueState)
      → ((n : ℕ) → In n ns → same_ref (record { job = id; file = f; seg_number = n }) r ≡ false)
      → W q
      → W (failed_at id f ns q)
  failed_at-Written id f [] q spared h = h
  failed_at-Written id f (n ∷ ns) q spared h =
      failed_at-Written id f ns _ (λ m k. spared m (inr k))
        (with_segment-Written q (record { job = id; file = f; seg_number = n })
          (set_segment SegmentState.failed) h (λ y. refl) (inl (spared n (inl refl))))

  pending-Spares :
      (q : QueueState) (id : JobId) (j : Job)
      → job q id ≡ some j
      → W q
      → Spares r id (pending_by_file j)
  pending-Spares q id j e h = All-from_In _ (pending_by_file j) (λ a m n k.
      let (f, fm, fe) =
        In-map_back {B = FileId × List ℕ} (λ (f : FileEntry). (f.id, pending_numbers f)) _ a m in
      let (p, pm, pe) =
        In-map_back (λ (s : Segment). s.number) _ n
          (subst (λ (x : FileId × List ℕ). In n x.1) fe k) in
      let (fm', _) = select-In (λ (f : FileEntry). not (is_terminal f)) j.files f fm in
      let (pm', unasked) = select-In (λ (s : Segment). is_pending s.state) f.segments p pm in
      let (jm, je) = find-In (λ (x : Job). x.id == id) q.jobs j e in
      pending_elsewhere q r h.part j f p h.numbered h.located (is_done-part q h) jm fm' pm' unasked
        (record { job = id; file = a.0; seg_number = n }) (ground (arith, je))
        (ap (λ (x : FileId × List ℕ). x.0) (sym fe)) (sym pe))

  written : Stable (λ q l. W q) (Spares r)
  written = record {
    noted = λ q l e t h. h;
    ended = λ w id j o e h.
        subst W (sym (end_job-state w id j o))
          (with_job-Written o.state id _ (λ x. refl) (λ x. refl) h);
    file_kept = λ q l id f g k h. with_file-Written q id f g k h;
    each_kept = λ q l g k h. each_job-Written q g k h;
    job_kept = λ q l id g k h. with_job-Written q id g k.id k.files h;
    released = λ q l p h. release-Written q p h;
    settled = λ q l p st s e n h.
        with_job-Written _ p.job recompute_job_totals recomputed_id recomputed_files (
          with_segment-Written q p (set_segment st) h (λ y. refl)
            (inl (unfinished_elsewhere q p s h e n)));
    start = λ q l id j e h. pending-Spares q id j e h;
    aborted = λ q l id f ns rest safe h. (
      with_job-Written _ id recompute_job_totals recomputed_id recomputed_files
          (failed_at-Written id f ns q safe.0 h),
      safe.1,
    );
  }

  leases_elsewhere : Leasable (λ q l. W q) (λ p. same_ref p r ≡ false)
  leases_elsewhere = record {
    found = λ w d o p e h.
        let g = lease_is_granted o.state d (selection w o) o.attempts p e in
        pending_elsewhere o.state r h.part g.job g.file.file g.file.segment.segment h.numbered
          h.located (is_done-part o.state h) (active_for-In o.state (selection w o) g.job g.listed)
          g.file.listed g.file.segment.listed g.file.segment.pending p g.named g.file.named
          g.file.segment.numbered;
    leased_to = λ q l p s free h.
        with_segment-Written q p (set_segment (leased s)) h (λ y. refl) (inl free);
  }

-- In a queue where no two jobs share a number, nor two files of a job, nor two segments of a file, a
-- part that is on disk stays recorded, with its place, length and checksum, through any
-- sequence of messages other than queue commands (which may replace or remove a job), of startup
-- passes, and of what a tick does about labels, blocked servers, the free space and finalizations that
-- were put off, whatever the world answers: no lease, no failed attempt, no write error, no health
-- abort and no second copy of the part changes it.
pub written_part_is_kept :
    (ts : List (World × Turn)) (o : Owner) (r : SegRef) (s : Segment) (offset len crc : ℕ)
    → Numbered o.state
    → segment o.state r ≡ some s
    → s.state ≡ done offset len crc
    → (s' : Segment) × (segment (run ts o).state r ≡ some s') × (s'.state ≡ done offset len crc)
written_part_is_kept ts o r s offset len crc n e d =
    let h =
      run_stable (λ q l. Written r offset len crc q) (Spares r) (λ p. same_ref p r ≡ false)
        (written r offset len crc) (leases_elsewhere r offset len crc) ts o
        (record { numbered = n; part = s; state = d; located = segment-Located o.state r s e }) in
    (h.part, Located-segment _ r h.part h.located, h.state)
