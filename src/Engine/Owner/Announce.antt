-- ===== src/Engine/Owner/Announce.antt =====
-- crates/nzbd-engine/src/owner.rs: the end of a job is announced after it can be read.
use nzbd.Prelude.{
  ◌≡◌, refl, ◌∙◌, ap, subst, inl, inr, ◌⊎◌, Bool, true, false, List, [], ◌∷◌, Option, none, some,
  arith, Bool-cases, Option-cases, ◌&&◌, &&-eq-true, is_some, if◌then◌else◌, member, and_then, ltb,
}
use nzbd.Prelude.Maps.{get, find-update_first}
use nzbd.Types.Torrent.{Text}
use nzbd.Types.Job.{JobId, Job, JobStatus, completed}
use nzbd.Types.Health.{calc, calc_critical}
use nzbd.Engine.Queue.{QueueState}
use nzbd.Engine.Queue.Lookup.{job, with_job}
use nzbd.Engine.Queue.Totals.{final_status}
use nzbd.Engine.Owner.{
  Owner, World, Effect, Event, emitted, job_finished, published, snapshot, on_state, save_snapshot,
  SaveAnswer, saved, corrupt, refused,
}
use nzbd.Engine.Owner.Completion.{
  open_post_stage, status_at_end, ended_job, forget_job, end_job, is_active, is_complete,
  inspection_pending,
}
use nzbd.Engine.Owner.Upkeep.{Turn, run}
use nzbd.Engine.Owner.Stable.{Stable, is_quiet}
use nzbd.Engine.Owner.Stable.Grants.{Leasable}
use nzbd.Engine.Owner.Stable.Turns.{run_stable}

-- The queue last published shows the job, with its name, in this status, and the status is final.
abbrev pub ShownAs : JobId → Text → JobStatus → List Effect → Type 0
ShownAs id name status (published q ∷ l) =
    (j : Job) × (job q id ≡ some j)
    × (j.name ≡ name)
    × (j.status ≡ status)
    × ((status ≡ completed) ⊎ (status ≡ JobStatus.failed))
ShownAs id name status _ = ⊥

abbrev pub AnnouncedInOrder : List Effect → Type 0
AnnouncedInOrder [] = Unit
AnnouncedInOrder (emitted (job_finished id name status health) ∷ l) =
    ShownAs id name status l × AnnouncedInOrder l
AnnouncedInOrder (e ∷ l) = AnnouncedInOrder l

quiet-AnnouncedInOrder :
    (e : Effect) (l : List Effect)
    → is_quiet e ≡ true
    → AnnouncedInOrder l
    → AnnouncedInOrder (e ∷ l)
quiet-AnnouncedInOrder (Effect.volume_added s n) l t h = h
quiet-AnnouncedInOrder (Effect.journaled r) l t h = h
quiet-AnnouncedInOrder (emitted (job_finished j n s x)) l t h = absurd (ground arith)
quiet-AnnouncedInOrder (emitted (Event.file_finished j f n ok)) l t h = h
quiet-AnnouncedInOrder (emitted (Event.segment_exhausted j f n)) l t h = h
quiet-AnnouncedInOrder (emitted (Event.server_blocked s n)) l t h = h
quiet-AnnouncedInOrder (snapshot q a) l t h = h
quiet-AnnouncedInOrder (published q) l t h = h
quiet-AnnouncedInOrder Effect.epoch_bumped l t h = h
quiet-AnnouncedInOrder (Effect.allocated j ok) l t h = h
quiet-AnnouncedInOrder (Effect.writer_spawned j f) l t h = h
quiet-AnnouncedInOrder (Effect.finalize_ordered j f n c a) l t h = h
quiet-AnnouncedInOrder (Effect.name_inspection j p) l t h = h
quiet-AnnouncedInOrder (Effect.torrents_held js) l t h = h

pub save_snapshot-state :
    (w : World) (o : Owner)
    → ((save_snapshot w o).state ≡ o.state)
      × (AnnouncedInOrder o.log → AnnouncedInOrder (save_snapshot w o).log)
unfolding save_snapshot
save_snapshot-state w o = elim (Bool-cases o.persist) [
  | inr f ↦ rw (f, save_snapshot) (refl, λ h. h)
  | inl t ↦ elim (answer_cases (w.saves o.log)) [
    | inl e ↦ rw (t, save_snapshot) (rw e (refl, λ h. h))
    | inr (inl e) ↦ rw (t, save_snapshot) (rw e (refl, λ h. h))
    | inr (inr e) ↦ rw (t, save_snapshot) (rw e (refl, λ h. h))
  ]
]
  where
    answer_cases : (a : SaveAnswer) → (a ≡ saved) ⊎ (a ≡ corrupt) ⊎ (a ≡ refused)
    answer_cases saved = inl refl
    answer_cases corrupt = inr (inl refl)
    answer_cases refused = inr (inr refl)

-- What an early return that was not taken leaves.
not_returned :
    (b : Bool) (x : Option Job) (j : Job)
    → (if b then none else x) ≡ some j
    → (b ≡ false) × (x ≡ some j)
not_returned true x j e = absurd (ground arith)
not_returned false x j e = (refl, e)

kept_by :
    (j k : Job)
    → (if is_active k.status && is_complete k then some k else none) ≡ some j
    → (k ≡ j) × (is_active k.status ≡ true) × (is_complete k ≡ true)
kept_by j k e = elim (Bool-cases (is_active k.status && is_complete k)) [
  | inl t ↦
      let e' : some k ≡ some j = rw t at e in
      let b = &&-eq-true _ _ t in (ground (arith, e'), b.0, b.1)
  | inr f ↦ let e' : none ≡ some j = rw f at e in absurd (ground (arith, e'))
]

-- Who may end: a job of this node, whose names are all inspected, still downloading, and complete.
pub record MayEnd (id : JobId) (o : Owner) (j : Job) : Type 0 where
  pub not_delegated : member id o.delegated ≡ false
  pub inspected : inspection_pending id o ≡ false
  pub found : job o.state id ≡ some j
  pub active : is_active j.status ≡ true
  pub complete : is_complete j ≡ true

pub ended_job-MayEnd : (id : JobId) (o : Owner) (j : Job) → ended_job id o ≡ some j → MayEnd id o j
unfolding ended_job
ended_job-MayEnd id o j e =
    let last : Option Job =
      and_then (job o.state id)
        (λ k. if is_active k.status && is_complete k then some k else none) in
    let (d, e1) =
      not_returned (member id o.delegated) (if inspection_pending id o then none else last) j e in
    let (p, e2) = not_returned (inspection_pending id o) last j e1 in
    elim (Option-cases (job o.state id)) [
      | inl n ↦ let e3 : none ≡ some j = rw n at e2 in absurd (ground (arith, e3))
      | inr (k, n) ↦
          let (same, a, c) = kept_by j k (rw n at e2) in
          record {
            not_delegated = d;
            inspected = p;
            found = n ∙ ap some same;
            active = subst (λ (x : Job). is_active x.status ≡ true) same a;
            complete = subst (λ (x : Job). is_complete x ≡ true) same c;
          }
    ]

final_status-final :
    (b : Bool) (j : Job)
    → open_post_stage j ≡ none
    → (status_at_end b j ≡ completed) ⊎ (status_at_end b j ≡ JobStatus.failed)
unfolding status_at_end final_status
final_status-final true j e = rw (e, status_at_end) (inr refl)
final_status-final false j e =
    elim (Bool-cases (ltb (calc j.totals) (calc_critical j.totals true))) [
      | inl t ↦ rw (e, status_at_end) (rw t (inr refl))
      | inr f ↦ rw (e, status_at_end) (rw f (inl refl))
    ]

-- All that the end of a job does to the queue is the mark of its status.
pub end_job-state :
    (w : World) (id : JobId) (j : Job) (o : Owner)
    → (end_job w id j o).state
      ≡ with_job id
          (λ x. record x { status = status_at_end (is_some (get id o.write_failures)) j })
          o.state
unfolding end_job
end_job-state w id j o =
    let status = status_at_end (is_some (get id o.write_failures)) j in
    let o' = forget_job j (on_state (with_job id (λ x. record x { status = status })) o) in
    elim (Bool-cases (is_some (open_post_stage j))) [
      | inl t ↦ rw (t, end_job) ((save_snapshot-state w o').0)
      | inr f ↦ rw (f, end_job) ((save_snapshot-state w o').0)
    ]

end_job-AnnouncedInOrder :
    (w : World) (id : JobId) (j : Job) (o : Owner)
    → ended_job id o ≡ some j
    → AnnouncedInOrder o.log
    → AnnouncedInOrder (end_job w id j o).log
unfolding end_job
end_job-AnnouncedInOrder w id j o e h =
    let status = status_at_end (is_some (get id o.write_failures)) j in
    let mark = λ (x : Job). record x { status = status } in
    let o' = forget_job j (on_state (with_job id mark) o) in
    let s = save_snapshot-state w o' in
    let shown : job (save_snapshot w o').state id ≡ some (mark j) =
      ap (λ (q : QueueState). job q id) s.0
      ∙ find-update_first (λ (x : Job). x.id) mark id o.state.jobs j (λ x. refl)
          (ended_job-MayEnd id o j e).found in
    elim (Option-cases (open_post_stage j)) [
      | inr (stage, p) ↦ rw (p, end_job) (s.1 h)
      | inl n ↦ rw (n, end_job) ((mark j, shown, refl, refl, final_status-final _ j n), s.1 h)
    ]

in_order : Stable (λ q l. AnnouncedInOrder l) (λ j fs. Unit {0})
in_order = record {
  noted = λ q l e t h. quiet-AnnouncedInOrder e l t h;
  ended = λ w id j o e h. end_job-AnnouncedInOrder w id j o e h;
  file_kept = λ q l id f g k h. h;
  job_kept = λ q l id g k h. h;
  each_kept = λ q l g k h. h;
  released = λ q l r h. h;
  settled = λ q l r st s e n h. h;
  start = λ q l id j e h. tt;
  aborted = λ q l id f ns rest safe h. (h, tt);
}

in_order_leases : Leasable (λ q l. AnnouncedInOrder l) (λ r. Unit {0})
in_order_leases = record { found = λ w s o r e h. tt; leased_to = λ q l r s free h. h }

-- Through any sequence of messages other than queue commands (of which the import of a job and a failed
-- fetch of a URL announce ends of their own), of startup passes, and of what a tick does about labels,
-- blocked servers, the free space and finalizations that were put off, whatever the world answers, a
-- job's end is announced right after a queue has been published that
-- shows the job under the announced name, in the announced status, which is completed or failed: if
-- this is so for the effects so far, it is so for all the effects after the turns.
pub ends_announced_after_shown :
    (ts : List (World × Turn)) (o : Owner)
    → AnnouncedInOrder o.log
    → AnnouncedInOrder (run ts o).log
ends_announced_after_shown ts o h =
    run_stable (λ q l. AnnouncedInOrder l) (λ j fs. Unit {0}) (λ r. Unit {0}) in_order
      in_order_leases ts o h
