-- ===== src/Engine/Owner/Stable/Handlers.antt =====
-- crates/nzbd-engine/src/owner.rs: every message preserves what withstands the owner's changes.
use nzbd.Prelude.{
  ℕ, ◌≡◌, refl, inl, inr, Bool, true, false, List, Option, none, some, arith, Bool-cases,
  Option-cases,
}
use nzbd.Prelude.Maps.{get}
use nzbd.Types.Torrent.{Text}
use nzbd.Types.Job.{JobId, FileId, ServerId, is_done}
use nzbd.Engine.Failover.{AttemptOutcome, Verdict}
use nzbd.Engine.Queue.{QueueState}
use nzbd.Engine.Queue.Scan.{SegRef}
use nzbd.Engine.Queue.Lookup.{job, file, segment}
use nzbd.Engine.Owner.{
  Owner, World, Effect, server_blocked, EngineMsg, work_request, segment_written, segment_failed,
  connect_failed, writer_finalized, writer_error, out_of_space, job_name_inspected,
}
use nzbd.Engine.Owner.Outcomes.{
  on_segment_written, on_segment_failed, block_server, blocks, follow_verdict,
}
use nzbd.Engine.Owner.Messages.{
  name_is_open, rename_job, maybe_learn_name_from, adopt_learned_name, on_job_name_inspected,
  finish_file, on_writer_finalized, is_out_of_space, hold_torrents, observe_out_of_space, on_msg,
  one_inspection_less, learn_after,
}
use nzbd.Engine.Owner.Stable.{
  Stable, KeepsFile, KeepsJob, Holds, if-Holds, quiet-Holds, check_job_complete_stable,
  store_part_stable, fail_segment_stable, fail_whole_file_stable,
}

-- Any message but a request for work.
abbrev pub asks_nothing : EngineMsg → Bool
asks_nothing (work_request s n) = false
asks_nothing _ = true

module _ (I : QueueState → List Effect → Type 0) (Safe : JobId → List (FileId × List ℕ) → Type 0)
    (kept : Stable I Safe) where
  on_segment_written_stable :
      (w : World) (r : SegRef) (offset len crc size : ℕ) (s : ServerId) (o : Owner)
      → Holds I Safe kept o
      → Holds I Safe kept (on_segment_written w r offset len crc size s o)
  unfolding on_segment_written
  on_segment_written_stable w r offset len crc size s o h =
      let n = quiet-Holds I Safe kept (Effect.volume_added s len) o refl h in
      elim (Option-cases (segment o.state r)) [
        | inl e ↦ rw (e, on_segment_written) (record { it = n.it })
        | inr (x, e) ↦ elim (Bool-cases (is_done x.state)) [
          | inl t ↦ rw (e, on_segment_written) (rw t (record { it = n.it }))
          | inr u ↦
              rw (e, on_segment_written)
                (rw u (
                  store_part_stable I Safe kept w r offset len crc size x _ e u
                    (record { it = n.it })))
        ]
      ]

  block_server_stable :
      (w : World) (s : ServerId) (o : Owner)
      → Holds I Safe kept o
      → Holds I Safe kept (block_server w s o)
  unfolding block_server
  block_server_stable w s o h =
      let n =
        quiet-Holds I Safe kept (Effect.emitted (server_blocked s o.tuning.retry_interval)) o refl
          h in
      if-Holds I Safe kept _ _ _ (record { it = n.it }) (record { it = h.it })

  follow_verdict_stable :
      (w : World) (r : SegRef) (s : ServerId) (v : Verdict) (exhausted : Bool) (o : Owner)
      → Holds I Safe kept o
      → Holds I Safe kept (follow_verdict w r s v exhausted o)
  unfolding follow_verdict
  follow_verdict_stable w r s v exhausted o h =
      let b = if-Holds I Safe kept (blocks v) _ _ (block_server_stable w s o h) h in
      quiet-Holds I Safe kept Effect.epoch_bumped _ refl
        (if-Holds I Safe kept exhausted _ _ (fail_segment_stable I Safe kept w r _ b) b)

  on_segment_failed_stable :
      (w : World) (r : SegRef) (s : ServerId) (outcome : AttemptOutcome) (o : Owner)
      → Holds I Safe kept o
      → Holds I Safe kept (on_segment_failed w r s outcome o)
  unfolding on_segment_failed
  on_segment_failed_stable w r s outcome o h =
      follow_verdict_stable w r s _ _ _ (record { it = kept.released o.state o.log r h.it })

  maybe_learn_name_from_stable :
      (w : World) (id : JobId) (path : Text) (o : Owner)
      → Holds I Safe kept o
      → Holds I Safe kept (maybe_learn_name_from w id path o)
  unfolding maybe_learn_name_from
  maybe_learn_name_from_stable w id path o h =
      let n = quiet-Holds I Safe kept (Effect.name_inspection id path) o refl h in
      elim (Option-cases (job o.state id)) [
        | inl e ↦ rw (e, maybe_learn_name_from) h
        | inr (j, e) ↦
            rw (e, maybe_learn_name_from)
              (if-Holds I Safe kept (name_is_open w j) _ _ (record { it = n.it }) h)
      ]

  rename_job-KeepsJob : (name : Text) → KeepsJob (rename_job name)
  unfolding rename_job
  rename_job-KeepsJob name = record {
    id = λ j. ground arith;
    files = λ j. ground arith;
    totals = λ j. ground arith;
  }

  adopt_learned_name_stable :
      (w : World) (id : JobId) (name : Text) (o : Owner)
      → Holds I Safe kept o
      → Holds I Safe kept (adopt_learned_name w id name o)
  unfolding adopt_learned_name
  adopt_learned_name_stable w id name o h =
      let k = kept.job_kept o.state o.log id (rename_job name) (rename_job-KeepsJob name) h.it in
      let n =
        kept.noted _ _ Effect.epoch_bumped refl (kept.noted _ _ (Effect.published _) refl k) in
      elim (Option-cases (job o.state id)) [
        | inl e ↦ rw (e, adopt_learned_name) h
        | inr (j, e) ↦
            rw (e, adopt_learned_name)
              (if-Holds I Safe kept (name_is_open w j) _ _ (record { it = n }) h)
      ]

  one_inspection_less_stable :
      (id : JobId) (o : Owner) → Holds I Safe kept o → Holds I Safe kept (one_inspection_less id o)
  one_inspection_less_stable id o h = elim (Option-cases (get id o.pending_name_inspections)) [
    | inl e ↦ rw (e, one_inspection_less) h
    | inr (n, e) ↦ rw (e, one_inspection_less) (record { it = h.it })
  ]

  on_job_name_inspected_stable :
      (w : World) (id : JobId) (name : Option Text) (o : Owner)
      → Holds I Safe kept o
      → Holds I Safe kept (on_job_name_inspected w id name o)
  unfolding on_job_name_inspected
  on_job_name_inspected_stable w id none o h =
      check_job_complete_stable I Safe kept w id _ (one_inspection_less_stable id o h)
  on_job_name_inspected_stable w id (some t) o h =
      check_job_complete_stable I Safe kept w id _
        (adopt_learned_name_stable w id t _ (one_inspection_less_stable id o h))

  finish_file-KeepsFile : (ok : Bool) (crc : Option ℕ) → KeepsFile (finish_file ok crc)
  finish_file-KeepsFile ok crc = record {
    id = λ f. refl;
    segments = λ f. refl;
    is_par2 = λ f. refl;
  }

  learn_after_stable :
      (w : World) (id : JobId) (ok : Bool) (path : Option Text) (o : Owner)
      → Holds I Safe kept o
      → Holds I Safe kept (learn_after w id ok path o)
  learn_after_stable w id true (some path) o h = maybe_learn_name_from_stable w id path o h
  learn_after_stable w id true none o h = h
  learn_after_stable w id false path o h = h

  on_writer_finalized_stable :
      (w : World) (id : JobId) (f : FileId) (ok : Bool) (path : Option Text) (crc : Option ℕ)
      (o : Owner)
      → Holds I Safe kept o
      → Holds I Safe kept (on_writer_finalized w id f ok path crc o)
  unfolding on_writer_finalized
  on_writer_finalized_stable w id f ok path crc o h =
      let k = kept.file_kept o.state o.log id f _ (finish_file-KeepsFile ok crc) h.it in
      elim (Option-cases (file o.state id f)) [
        | inl e ↦ rw (e, on_writer_finalized) (record { it = h.it })
        | inr (x, e) ↦
            rw (e, on_writer_finalized)
              (check_job_complete_stable I Safe kept w id _ (record {
                it =
                    kept.noted _ _ _ refl
                      (learn_after_stable w id ok path _
                        (if-Holds I Safe kept ok _ _ (record { it = k }) (record { it = k }))).it;
              }))
      ]

  observe_out_of_space_stable :
      (whence : Text) (o : Owner)
      → Holds I Safe kept o
      → Holds I Safe kept (observe_out_of_space whence o)
  unfolding observe_out_of_space hold_torrents
  observe_out_of_space_stable whence o h =
      let n = kept.noted _ _ (Effect.published o.state) refl (kept.noted _ _ _ refl h.it) in
      if-Holds I Safe kept o.disk_low _ _ (record { it = h.it }) (record { it = n })

  pub on_msg_stable :
      (w : World) (m : EngineMsg) (o : Owner)
      → asks_nothing m ≡ true
      → Holds I Safe kept o
      → Holds I Safe kept (on_msg w m o).0
  unfolding on_msg
  on_msg_stable w (work_request s n) o a h = absurd (ground arith)
  on_msg_stable w (segment_written r offset len crc size s) o a h =
      on_segment_written_stable w r offset len crc size s o h
  on_msg_stable w (segment_failed r s outcome) o a h = on_segment_failed_stable w r s outcome o h
  on_msg_stable w (connect_failed s) o a h = block_server_stable w s o h
  on_msg_stable w (writer_finalized id f ok path crc) o a h =
      on_writer_finalized_stable w id f ok path crc o h
  on_msg_stable w (job_name_inspected id name) o a h = on_job_name_inspected_stable w id name o h
  on_msg_stable w (out_of_space whence) o a h = observe_out_of_space_stable whence o h
  on_msg_stable w (writer_error id f text) o a h =
      fail_whole_file_stable I Safe kept w id f _
        (if-Holds I Safe kept (is_out_of_space text) _ _ (observe_out_of_space_stable text o h) h)
