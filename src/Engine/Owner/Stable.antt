-- ===== src/Engine/Owner/Stable.antt =====
-- crates/nzbd-engine/src/owner.rs: what a property of the queue and of the effects has to withstand,
-- for every message to preserve it.
pub mod Handlers
pub mod Grants
pub mod Turns
use nzbd.Prelude.{
  ℕ, ◌≡◌, refl, sym, inl, inr, ◌⊎◌, Bool, true, false, not, ◌&&◌, ◌||◌, List, [], ◌∷◌, Option, none,
  some, arith, Bool-cases, Option-cases, is_some, member, &&-eq-true, map, select, if◌then◌else◌,
}
use nzbd.Types.Job.{
  JobId, FileId, ServerId, Job, FileEntry, Segment, SegmentState, is_done, is_settled, is_terminal,
  has_any_done,
}
use nzbd.Engine.Failover.{insert}
use nzbd.Engine.Queue.{QueueState}
use nzbd.Engine.Queue.Scan.{SegRef}
use nzbd.Engine.Queue.Lookup.{job, file, segment, with_job, with_file, with_segment, each_job}
use nzbd.Engine.Queue.Totals.{recompute_job_totals}
use nzbd.Engine.Owner.{
  Owner, World, Effect, Event, emitted, job_finished, SendAnswer, sent, full, closed, note,
}
use nzbd.Engine.Owner.Writers.{
  ensure_allocation, writer_for, try_finalize, send_finalize, combined_crc,
}
use nzbd.Engine.Owner.Completion.{
  is_active, is_complete, ended_job, end_job, check_job_complete, after_file_change,
  finalize_trivially, inspection_pending,
}
use nzbd.Engine.Owner.Outcomes.{
  set_segment, release, pending_by_file, settle_at, retotal, store_part, fail_numbers, fail_files,
  is_hopeless, maybe_abort_unhealthy, give_up, fail_segment, fail_segments, fail_whole_file,
}

-- Any effect but the end of a job.
abbrev pub is_quiet : Effect → Bool
is_quiet (emitted (job_finished j n s h)) = false
is_quiet _ = true

SendAnswer-cases : (a : SendAnswer) → (a ≡ sent) ⊎ (a ≡ full) ⊎ (a ≡ closed)
SendAnswer-cases sent = inl refl
SendAnswer-cases full = inr (inl refl)
SendAnswer-cases closed = inr (inr refl)

-- A change of a file that leaves its number and all that the totals count.
pub record KeepsFile (g : FileEntry → FileEntry) : Type 0 where
  pub id : (f : FileEntry) → (g f).id ≡ f.id
  pub segments : (f : FileEntry) → (g f).segments ≡ f.segments
  pub is_par2 : (f : FileEntry) → (g f).is_par2 ≡ f.is_par2

pub record KeepsJob (g : Job → Job) : Type 0 where
  pub id : (j : Job) → (g j).id ≡ j.id
  pub files : (j : Job) → (g j).files ≡ j.files
  pub totals : (j : Job) → (g j).totals ≡ j.totals

-- The failing of the segments of these numbers, as the queue sees it.
abbrev pub failed_at : JobId → FileId → List ℕ → QueueState → QueueState
failed_at j f [] q = q
failed_at j f (n ∷ rest) q = failed_at j f rest (
    with_segment (record { job = j; file = f; seg_number = n }) (set_segment SegmentState.failed) q)

-- What the property withstands. `Safe` is what it needs to know of the segments that a health abort
-- is about to fail.
pub record Stable (I : QueueState → List Effect → Type 0)
    (Safe : JobId → List (FileId × List ℕ) → Type 0) : Type 0 where
  pub noted :
      (q : QueueState) (l : List Effect) (e : Effect) → is_quiet e ≡ true → I q l → I q (e ∷ l)
  pub ended :
      (w : World) (id : JobId) (j : Job) (o : Owner)
      → ended_job id o ≡ some j
      → I o.state o.log
      → I (end_job w id j o).state (end_job w id j o).log
  pub file_kept :
      (q : QueueState) (l : List Effect) (id : JobId) (f : FileId) (g : FileEntry → FileEntry)
      → KeepsFile g
      → I q l
      → I (with_file id f g q) l
  pub job_kept :
      (q : QueueState) (l : List Effect) (id : JobId) (g : Job → Job)
      → KeepsJob g
      → I q l
      → I (with_job id g q) l
  pub each_kept :
      (q : QueueState) (l : List Effect) (g : Job → Job) → KeepsJob g → I q l → I (each_job g q) l
  pub released :
      (q : QueueState) (l : List Effect) (r : SegRef) → I q l → I (with_segment r release q) l
  pub settled :
      (q : QueueState) (l : List Effect) (r : SegRef) (st : SegmentState) (s : Segment)
      → segment q r ≡ some s
      → is_done s.state ≡ false
      → I q l
      → I (with_job r.job recompute_job_totals (with_segment r (set_segment st) q)) l
  pub start :
      (q : QueueState) (l : List Effect) (id : JobId) (j : Job)
      → job q id ≡ some j
      → I q l
      → Safe id (pending_by_file j)
  pub aborted :
      (q : QueueState) (l : List Effect) (id : JobId) (f : FileId) (ns : List ℕ)
      (rest : List (FileId × List ℕ))
      → Safe id ((f, ns) ∷ rest)
      → I q l
      → I (with_job id recompute_job_totals (failed_at id f ns q)) l × Safe id rest

module _ (I : QueueState → List Effect → Type 0) (Safe : JobId → List (FileId × List ℕ) → Type 0)
    (kept : Stable I Safe) where
  -- The property, of the owner's queue and effects.
  pub record Holds (o : Owner) : Type 0 where
    pub it : I o.state o.log

  -- Either branch of a test, alone or with an answer.
  pub if-Holds : (b : Bool) (x y : Owner) → Holds x → Holds y → Holds (if b then x else y)
  if-Holds true x y h k = h
  if-Holds false x y h k = k

  pub first-Holds :
      {A : Type 0} (b : Bool) (x y : Owner × A)
      → Holds x.0
      → Holds y.0
      → Holds (if b then x else y).0
  first-Holds true x y h k = h
  first-Holds false x y h k = k

  pub quiet-Holds : (e : Effect) (o : Owner) → is_quiet e ≡ true → Holds o → Holds (note e o)
  quiet-Holds e o t h = record { it = kept.noted o.state o.log e t h.it }

  pub ensure_allocation_stable :
      (w : World) (j : JobId) (o : Owner) → Holds o → Holds (ensure_allocation w j o).0
  unfolding ensure_allocation
  ensure_allocation_stable w j o h =
      let n = quiet-Holds (Effect.allocated j (w.allocates o.log j)) o refl h in
      let m : Holds (record (note (Effect.allocated j (w.allocates o.log j)) o) {
        allocated_jobs = insert j o.allocated_jobs;
      }) =
        record { it = n.it } in
      elim (Option-cases (job o.state j)) [
        | inl e ↦ rw e (search (first-Holds, h))
        | inr (r, e) ↦ rw e (search (first-Holds, h, n, m))
      ]

  pub writer_for_stable :
      (w : World) (j : JobId) (f : FileId) (o : Owner) → Holds o → Holds (writer_for w j f o).0
  unfolding writer_for
  writer_for_stable w j f o h =
      let a = ensure_allocation_stable w j o h in
      let n = quiet-Holds (Effect.writer_spawned j f) (ensure_allocation w j o).0 refl a in
      let m : Holds (record (note (Effect.writer_spawned j f) (ensure_allocation w j o).0) {
        writers = insert f (ensure_allocation w j o).0.writers;
      }) =
        record { it = n.it } in
      search (first-Holds, h, m, a)

  try_finalize_stable :
      (w : World) (j : JobId) (f : FileId) (size : ℕ) (crc : Option ℕ) (live : Bool) (o : Owner)
      → Holds o
      → Holds (try_finalize w j f size crc live o)
  unfolding try_finalize
  try_finalize_stable w j f size crc live o h =
      let a : SendAnswer = if live then w.sends o.log f else closed in
      let n = quiet-Holds (Effect.finalize_ordered j f size crc a) o refl h in
      elim (SendAnswer-cases a) [
        | inl e ↦ rw (e, try_finalize) (record { it = n.it })
        | inr (inl e) ↦ rw (e, try_finalize) (record { it = n.it })
        | inr (inr e) ↦ rw (e, try_finalize) (record { it = n.it })
      ]

  pub send_finalize_stable :
      (w : World) (j : JobId) (f : FileId) (o : Owner) → Holds o → Holds (send_finalize w j f o)
  unfolding send_finalize
  send_finalize_stable w j f o h = elim (Option-cases (file o.state j f)) [
    | inl e ↦ rw (e, send_finalize) h
    | inr (x, e) ↦
        rw (e, send_finalize)
          (try_finalize_stable w j f _ (combined_crc x) _ _ (writer_for_stable w j f o h))
  ]

  pub check_job_complete_stable :
      (w : World) (id : JobId) (o : Owner) → Holds o → Holds (check_job_complete w id o)
  unfolding check_job_complete
  check_job_complete_stable w id o h = elim (Option-cases (ended_job id o)) [
    | inl e ↦ rw (e, check_job_complete) h
    | inr (j, e) ↦ rw (e, check_job_complete) (record { it = kept.ended w id j o e h.it })
  ]

  finalize_trivially_stable :
      (j : JobId) (x : FileEntry) (o : Owner) → Holds o → Holds (finalize_trivially j x o)
  finalize_trivially_stable j x o h = record {
    it = kept.noted _ _ _ refl (
        kept.file_kept _ _ j x.id _
          (record { id = λ f. refl; segments = λ f. refl; is_par2 = λ f. refl }) h.it);
  }

  pub after_file_change_stable :
      (w : World) (j : JobId) (f : FileId) (o : Owner) → Holds o → Holds (after_file_change w j f o)
  unfolding after_file_change
  after_file_change_stable w j f o h = elim (Option-cases (file o.state j f)) [
    | inl e ↦ rw (e, after_file_change) h
    | inr (x, e) ↦
        let c = check_job_complete_stable w j o h in
        let t = check_job_complete_stable w j _ (finalize_trivially_stable j x o h) in
        let s = send_finalize_stable w j f o h in
        rw (e, after_file_change)
          (if-Holds (not (is_terminal x) || x.finalized) _ _ c
            (if-Holds (has_any_done x) _ _ (if-Holds (member f o.finalize_sent) _ _ h s) t))
  ]

  -- A segment that is not done takes its last state, and the job's totals are counted again.
  settle_stable :
      (r : SegRef) (st : SegmentState) (s : Segment) (o : Owner)
      → segment o.state r ≡ some s
      → is_done s.state ≡ false
      → Holds o
      → Holds (retotal r.job (settle_at r st o))
  settle_stable r st s o e n h = record { it = kept.settled o.state o.log r st s e n h.it }

  pub store_part_stable :
      (w : World) (r : SegRef) (offset len crc file_size : ℕ) (s : Segment) (o : Owner)
      → segment o.state r ≡ some s
      → is_done s.state ≡ false
      → Holds o
      → Holds (store_part w r offset len crc file_size o)
  unfolding store_part
  store_part_stable w r offset len crc file_size s o e n h =
      let k = settle_stable r (SegmentState.done offset len crc) s o e n h in
      after_file_change_stable w r.job r.file _ (record { it = kept.noted _ _ _ refl k.it })

  fail_numbers-state :
      (j : JobId) (f : FileId) (ns : List ℕ) (o : Owner)
      → ((fail_numbers j f ns o).state ≡ failed_at j f ns o.state)
        × ((fail_numbers j f ns o).log ≡ o.log)
  unfolding fail_numbers
  fail_numbers-state j f [] o = (refl, refl)
  fail_numbers-state j f (n ∷ rest) o = fail_numbers-state j f rest _

  fail_files_stable :
      (w : World) (j : JobId) (fs : List (FileId × List ℕ)) (o : Owner)
      → Safe j fs
      → Holds o
      → Holds (fail_files w j fs o)
  unfolding fail_files
  fail_files_stable w j [] o safe h = h
  fail_files_stable w j ((f, ns) ∷ rest) o safe h =
      let (k, safe') = kept.aborted o.state o.log j f ns rest safe h.it in
      let e = fail_numbers-state j f ns o in
      let k' : Holds (retotal j (fail_numbers j f ns o)) = record { it = rw e.0 (rw e.1 k) } in
      fail_files_stable w j rest _ safe' (after_file_change_stable w j f _ k')

  pub maybe_abort_unhealthy_stable :
      (w : World) (id : JobId) (o : Owner) → Holds o → Holds (maybe_abort_unhealthy w id o)
  unfolding maybe_abort_unhealthy
  maybe_abort_unhealthy_stable w id o h = elim (Option-cases (job o.state id)) [
    | inl e ↦ rw (e, maybe_abort_unhealthy) h
    | inr (j, e) ↦
        let safe = kept.start o.state o.log id j e h.it in
        let a = fail_files_stable w id (pending_by_file j) o safe h in
        let b = quiet-Holds Effect.epoch_bumped _ refl a in
        rw (e, maybe_abort_unhealthy) (search (if-Holds, h, b))
  ]

  give_up_stable :
      (w : World) (r : SegRef) (s : Segment) (o : Owner)
      → segment o.state r ≡ some s
      → is_done s.state ≡ false
      → Holds o
      → Holds (give_up w r o)
  unfolding give_up
  give_up_stable w r s o e n h =
      let k = settle_stable r SegmentState.failed s o e n h in
      maybe_abort_unhealthy_stable w r.job _
        (after_file_change_stable w r.job r.file _ (quiet-Holds _ _ refl k))

  pub fail_segment_stable :
      (w : World) (r : SegRef) (o : Owner) → Holds o → Holds (fail_segment w r o)
  unfolding fail_segment
  fail_segment_stable w r o h = elim (Option-cases (segment o.state r)) [
    | inl e ↦ rw (e, fail_segment) h
    | inr (s, e) ↦ elim (Bool-cases (is_settled s.state)) [
      | inl t ↦ rw (e, fail_segment) (rw t h)
      | inr u ↦ rw (e, fail_segment) (rw u (give_up_stable w r s o e (ground arith) h))
    ]
  ]

  pub fail_segments_stable :
      (w : World) (refs : List SegRef) (o : Owner) → Holds o → Holds (fail_segments w refs o)
  unfolding fail_segments
  fail_segments_stable w [] o h = h
  fail_segments_stable w (r ∷ rest) o h =
      fail_segments_stable w rest _ (fail_segment_stable w r o h)

  pub fail_whole_file_stable :
      (w : World) (j : JobId) (f : FileId) (o : Owner) → Holds o → Holds (fail_whole_file w j f o)
  unfolding fail_whole_file
  fail_whole_file_stable w j f o h = elim (Option-cases (file o.state j f)) [
    | inl e ↦ rw (e, fail_whole_file) h
    | inr (x, e) ↦ rw (e, fail_whole_file) (fail_segments_stable w _ o h)
  ]
