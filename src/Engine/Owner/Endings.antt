-- ===== src/Engine/Owner/Endings.antt =====
-- crates/nzbd-engine/src/owner.rs: when a job's download ends, and in which status.
use nzbd.Prelude.{
  ◌⊎◌, In, In-member, member-In, all, any, all-In, In-all, any-In, In-any, is_empty, member, ltb, ℕ,
  ◌≡◌, ◌≢◌, refl, sym, ◌∙◌, ap, inl, inr, true, false, List, [], ◌∷◌, Option, none, some, arith,
  Bool-cases, Option-cases, ◌==◌, is_some, unwrap_or,
}
use nzbd.Prelude.Maps.{get, put, find-update_first}
use nzbd.Types.Torrent.{Text}
use nzbd.Types.Job.{
  Segment, is_settled, is_done, is_terminal, has_any_done, PostStage, downloading, paused, fetching,
  post_queued, deleted, JobId, FileId, Job, JobStatus, queued, post, completed, FileEntry,
}
use nzbd.Engine.Queue.{QueueState}
use nzbd.Engine.Queue.Lookup.{job, file, in_file}
use nzbd.Engine.Owner.{Owner, World}
use nzbd.Engine.Queue.Totals.{final_status}
use nzbd.Engine.Owner.Completion.{
  is_active, file_is_over, inspection_pending, status_at_end, open_post_stage, ended_job,
  check_job_complete,
}
use nzbd.Engine.Owner.Messages.{on_writer_finalized, finish_file, write_failure}
use nzbd.Engine.Owner.Announce.{MayEnd, ended_job-MayEnd, end_job-state}

MayEnd-ended_job : (id : JobId) (o : Owner) (j : Job) → MayEnd id o j → ended_job id o ≡ some j
unfolding ended_job
MayEnd-ended_job id o j m =
    rw (m.not_delegated, ended_job) (rw m.inspected (rw m.found (rw m.active (rw m.complete refl))))

-- A file with which the download has finished: paused, or settled and, where a part of it is on disk,
-- finalized.
abbrev pub IsOver : FileEntry → Type 0
IsOver f =
    (f.paused ≡ true)
    ⊎ (((s : Segment) → In s f.segments → is_settled s.state ≡ true)
        × ((s : Segment) → In s f.segments → is_done s.state ≡ true → f.finalized ≡ true))

pub record Finished (id : JobId) (o : Owner) (j : Job) : Type 0 where
  pub here : ¬ In id o.delegated
  pub inspected : (n : ℕ) → get id o.pending_name_inspections ≡ some n → n ≡ 0
  pub found : job o.state id ≡ some j
  pub active : (j.status ≡ queued) ⊎ (j.status ≡ downloading) ⊎ (j.status ≡ paused)
  pub some_file : (f : FileEntry) × In f j.files
  pub over : (f : FileEntry) → In f j.files → IsOver f

file_is_over-IsOver : (f : FileEntry) → file_is_over f ≡ true → IsOver f
unfolding is_terminal has_any_done
file_is_over-IsOver f h = elim (Bool-cases f.paused) [
  | inl t ↦ inl t
  | inr n ↦
      let settled : all (λ (s : Segment). is_settled s.state) f.segments ≡ true =
        ground (arith, h, n) in
      inr (
        λ s m. all-In (λ (u : Segment). is_settled u.state) f.segments settled s m,
        λ s m d.
            let some_done = In-any (λ (u : Segment). is_done u.state) f.segments s m d in
            ground (arith, h, n, some_done),
      )
]

IsOver-file_is_over : (f : FileEntry) → IsOver f → file_is_over f ≡ true
unfolding is_terminal has_any_done
IsOver-file_is_over f (inl p) = ground (arith, p)
IsOver-file_is_over f (inr (settled, finalized)) =
    let t = In-all (λ (u : Segment). is_settled u.state) f.segments settled in
    elim (Bool-cases (any (λ (u : Segment). is_done u.state) f.segments)) [
      | inr n ↦ ground (arith, t, n)
      | inl d ↦
          let r = any-In (λ (u : Segment). is_done u.state) f.segments d in
          let e = finalized r.0 r.1 r.2 in ground (arith, t, e)
    ]

is_active-cases :
    (s : JobStatus) → is_active s ≡ true → (s ≡ queued) ⊎ (s ≡ downloading) ⊎ (s ≡ paused)
is_active-cases queued h = inl refl
is_active-cases downloading h = inr (inl refl)
is_active-cases paused h = inr (inr refl)
is_active-cases fetching h = absurd (ground (arith, h))
is_active-cases post_queued h = absurd (ground (arith, h))
is_active-cases (post x) h = absurd (ground (arith, h))
is_active-cases completed h = absurd (ground (arith, h))
is_active-cases JobStatus.failed h = absurd (ground (arith, h))
is_active-cases deleted h = absurd (ground (arith, h))

is_active-one :
    (s : JobStatus) → (s ≡ queued) ⊎ (s ≡ downloading) ⊎ (s ≡ paused) → is_active s ≡ true
is_active-one s (inl e) = rw e refl
is_active-one s (inr (inl e)) = rw e refl
is_active-one s (inr (inr e)) = rw e refl

first_file : (l : List FileEntry) → is_empty l ≡ false → (f : FileEntry) × In f l
first_file [] h = absurd (ground (arith, h))
first_file (f ∷ l) h = (f, inl refl)

not_empty : (l : List FileEntry) (f : FileEntry) → In f l → is_empty l ≡ false
not_empty [] f m = elim m [ ]
not_empty (x ∷ l) f m = refl

MayEnd-Finished : (id : JobId) (o : Owner) (j : Job) → MayEnd id o j → Finished id o j
MayEnd-Finished id o j m =
    let files : (is_empty j.files ≡ false) × (all file_is_over j.files ≡ true) =
      ground (arith, m.complete) in
    record {
      here = λ q.
          let t = In-member id o.delegated q in let n = m.not_delegated in ground (arith, t, n);
      inspected = λ n e.
          let k : ltb 0 n ≡ false = let h = m.inspected in rw (e, inspection_pending) at h in
          ground (arith, k);
      found = m.found;
      active = is_active-cases j.status m.active;
      some_file = first_file j.files files.0;
      over = λ f q. file_is_over-IsOver f (all-In file_is_over j.files files.1 f q);
    }

Finished-MayEnd : (id : JobId) (o : Owner) (j : Job) → Finished id o j → MayEnd id o j
Finished-MayEnd id o j m =
    let some_file = not_empty j.files m.some_file.0 m.some_file.1 in
    let over = In-all file_is_over j.files (λ f q. IsOver-file_is_over f (m.over f q)) in
    record {
      not_delegated = elim (Bool-cases (member id o.delegated)) [
        | inl t ↦ absurd (m.here (member-In id o.delegated t))
        | inr f ↦ f
      ];
      inspected = elim (Option-cases (get id o.pending_name_inspections)) [
        | inl n ↦ rw (n, inspection_pending) refl
        | inr (k, e) ↦ let z = m.inspected k e in rw (e, inspection_pending) (ground (arith, z))
      ];
      found = m.found;
      active = is_active-one j.status m.active;
      complete = ground (arith, some_file, over);
    }

-- A stage of post-processing that is still open is resumed; else a write that failed fails the job;
-- else its health decides.
pub record LastStatus (id : JobId) (o : Owner) (j : Job) (status : JobStatus) : Type 0 where
  pub resumed : (stage : PostStage) → open_post_stage j ≡ some stage → status ≡ post stage
  pub spoilt :
      (reason : Text)
      → open_post_stage j ≡ none
      → get id o.write_failures ≡ some reason
      → status ≡ JobStatus.failed
  pub judged :
      open_post_stage j ≡ none → get id o.write_failures ≡ none → status ≡ (final_status j).0

status_at_end-LastStatus :
    (id : JobId) (o : Owner) (j : Job)
    → LastStatus id o j (status_at_end (is_some (get id o.write_failures)) j)
unfolding status_at_end
status_at_end-LastStatus id o j = record {
  resumed = λ stage e. rw (e, status_at_end) refl;
  spoilt = λ reason n e. rw (n, status_at_end) (rw e refl);
  judged = λ n e. rw (n, status_at_end) (rw e refl);
}

check-MayEnd :
    (w : World) (id : JobId) (o : Owner) (j : Job)
    → MayEnd id o j
    → job (check_job_complete w id o).state id
      ≡ some (record j { status = status_at_end (is_some (get id o.write_failures)) j })
unfolding check_job_complete
check-MayEnd w id o j m =
    rw (MayEnd-ended_job id o j m, check_job_complete)
      (ap (λ (q : QueueState). job q id) (end_job-state w id j o)
        ∙ find-update_first (λ (x : Job). x.id) _ id o.state.jobs j (λ x. refl) m.found)

-- The check after a change ends a job's download exactly where it may: where the job runs on this
-- node, no inspection of its names is open, it is queued, downloading or paused, it has files, and
-- each is paused, or settled and, if any part of it is on disk, finalized. Then the job takes its
-- last status and keeps all else: that of its open stage of post-processing, or, without one, failed
-- where a write of it failed and else what its health makes of it; in every other case nothing
-- changes at all.
pub ends_where_it_may :
    (w : World) (id : JobId) (o : Owner)
    → ((j : Job)
        → Finished id o j
        → (status : JobStatus) × LastStatus id o j status
          × (job (check_job_complete w id o).state id ≡ some (record j { status = status })))
      × (((j : Job) → ¬ Finished id o j) → check_job_complete w id o ≡ o)
unfolding check_job_complete
ends_where_it_may w id o = (
  λ j m. (
    status_at_end (is_some (get id o.write_failures)) j,
    status_at_end-LastStatus id o j,
    check-MayEnd w id o j (Finished-MayEnd id o j m),
  ),
  λ never. elim (Option-cases (ended_job id o)) [
    | inl e ↦ rw (e, check_job_complete) refl
    | inr (j, e) ↦ absurd (never j (MayEnd-Finished id o j (ended_job-MayEnd id o j e)))
  ],
)

get-put : {A : Type 0} (k : ℕ) (a : A) (m : List (ℕ × A)) → get k (put k a m) ≡ some a
get-put k a [] = ground arith
get-put k a ((x, b) ∷ m) = elim (Bool-cases (x == k)) [
  | inl t ↦ rw t (ground arith)
  | inr f ↦ rw f (rw f (get-put k a m))
]

spoilt_end : (j : Job) → status_at_end true j ≢ completed
unfolding status_at_end
spoilt_end j e = elim (Option-cases (open_post_stage j)) [
  | inl n ↦
      let e' : JobStatus.failed ≡ completed = rw (n, status_at_end) at e in
      absurd (ground (arith, e'))
  | inr (stage, n) ↦
      let e' : post stage ≡ completed = rw (n, status_at_end) at e in absurd (ground (arith, e'))
]

abbrev status_in : Option Job → JobStatus
status_in none = queued
status_in (some x) = x.status

-- With a write failure recorded, the check completes no job.
check_spoilt :
    (w : World) (id : JobId) (o : Owner) (reason : Text) (j' : Job)
    → get id o.write_failures ≡ some reason
    → job (check_job_complete w id o).state id ≡ some j'
    → j'.status ≡ completed
    → (j : Job) × (job o.state id ≡ some j) × (j.status ≡ completed)
unfolding check_job_complete
check_spoilt w id o reason j' r e c = elim (Option-cases (ended_job id o)) [
  | inl n ↦ (j', rw (n, check_job_complete) at e, c)
  | inr (j, n) ↦
      let may = ended_job-MayEnd id o j n in
      let ends = check-MayEnd w id o j may in
      let e' : some (record j { status = status_at_end true j }) ≡ some j' =
        sym (rw r at ends) ∙ e in
      absurd (spoilt_end j (ap status_in e' ∙ c))
]

job_of_file :
    (q : QueueState) (id : JobId) (f : FileId) (x : FileEntry)
    → file q id f ≡ some x
    → (k : Job) × (job q id ≡ some k)
job_of_file q id f x e = elim (Option-cases (job q id)) [
  | inr (k, n) ↦ (k, n)
  | inl n ↦ let e' : none ≡ some x = rw n at e in absurd (ground (arith, e'))
]

-- A file that a writer could not bring to disk completes no job: when the writer reports that the
-- finalizing of a file failed, a job that is completed after the report was completed before it,
-- however healthy its articles are.
pub lost_write_completes_nothing :
    (w : World) (id : JobId) (f : FileId) (path : Option Text) (crc : Option ℕ) (o : Owner)
    (x : FileEntry) (j' : Job)
    → file o.state id f ≡ some x
    → job (on_writer_finalized w id f false path crc o).state id ≡ some j'
    → j'.status ≡ completed
    → (k : Job) × (job o.state id ≡ some k) × (k.status ≡ completed)
unfolding on_writer_finalized
lost_write_completes_nothing w id f path crc o x j' e h c =
    let (k, n) = job_of_file o.state id f x e in
    let reason = unwrap_or (get id o.write_failures) (write_failure x.filename) in
    let spoilt =
      check_spoilt w id _ reason j' (get-put id reason o.write_failures)
        (rw (e, on_writer_finalized) at h) c in
    let before =
      find-update_first (λ (y : Job). y.id) (in_file f (finish_file false crc)) id o.state.jobs k
        (λ y. refl) n in
    (k, n, ap status_in (sym before ∙ spoilt.1) ∙ spoilt.2)
