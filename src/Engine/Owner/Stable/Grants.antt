-- ===== src/Engine/Owner/Stable/Grants.antt =====
-- crates/nzbd-engine/src/owner.rs: a request for work preserves what withstands a lease as well.
use nzbd.Prelude.{ℕ, zero, suc, ◌≡◌, refl, inl, inr, ◌==◌, List, some, find, Option-cases, max}
use nzbd.Types.Job.{JobId, FileId, ServerId, Segment, leased}
use nzbd.Types.Server.{ServerDef}
use nzbd.Engine.Queue.{QueueState}
use nzbd.Engine.Queue.Scan.{SegRef, next_for_server}
use nzbd.Engine.Queue.Lookup.{segment, with_segment}
use nzbd.Engine.Owner.{
  Owner, World, Effect, EngineMsg, work_request, segment_written, segment_failed, connect_failed,
  writer_finalized, writer_error, out_of_space, job_name_inspected,
}
use nzbd.Engine.Owner.Writers.{ensure_allocation}
use nzbd.Engine.Owner.Outcomes.{set_segment, fail_segments}
use nzbd.Engine.Owner.Leases.{
  selection, start_download, hand_out, grant_one, grant_rounds, grant_work,
}
use nzbd.Engine.Owner.Messages.{on_msg}
use nzbd.Engine.Owner.Stable.{
  Stable, KeepsJob, Holds, first-Holds, ensure_allocation_stable, writer_for_stable,
  fail_segments_stable,
}
use nzbd.Engine.Owner.Stable.Handlers.{on_msg_stable}

-- What a property withstands when a segment is leased. `Free` is what it needs to know of the segment
-- that the scan has found.
pub record Leasable (I : QueueState → List Effect → Type 0) (Free : SegRef → Type 0) : Type 0 where
  pub found :
      (w : World) (server : ServerDef) (o : Owner) (r : SegRef)
      → (next_for_server o.state server (selection w o) o.attempts).lease ≡ some r
      → I o.state o.log
      → Free r
  pub leased_to :
      (q : QueueState) (l : List Effect) (r : SegRef) (s : ServerId)
      → Free r
      → I q l
      → I (with_segment r (set_segment (leased s)) q) l

module _ (I : QueueState → List Effect → Type 0) (Safe : JobId → List (FileId × List ℕ) → Type 0)
    (Free : SegRef → Type 0) (kept : Stable I Safe) (grants : Leasable I Free) where
  start_download-KeepsJob : KeepsJob start_download
  start_download-KeepsJob = record { id = λ j. refl; files = λ j. refl; totals = λ j. refl }

  hand_out_stable :
      (w : World) (s : ServerId) (r : SegRef) (x : Segment) (o : Owner)
      → Free r
      → Holds I Safe kept o
      → Holds I Safe kept (hand_out w s r x o).0
  unfolding hand_out
  hand_out_stable w s r x o free h =
      let m : Holds I Safe kept
          (record o { state = with_segment r (set_segment (leased s)) o.state }) =
        record { it = grants.leased_to o.state o.log r s free h.it } in
      let k = writer_for_stable I Safe kept w r.job r.file _ m in
      record { it = kept.job_kept _ _ r.job start_download start_download-KeepsJob k.it }

  grant_one_stable :
      (w : World) (d : ServerDef) (o : Owner)
      → Holds I Safe kept o
      → Holds I Safe kept (grant_one w d o).0
  unfolding grant_one
  grant_one_stable w d o h =
      let sc = next_for_server o.state d (selection w o) o.attempts in
      let swept =
        fail_segments_stable I Safe kept w sc.gone (record o { attempts = sc.attempts })
          (record { it = h.it }) in
      elim (Option-cases sc.lease) [
        | inl e ↦ rw (e, grant_one) swept
        | inr (r, e) ↦
            let a = ensure_allocation_stable I Safe kept w r.job _ swept in
            let o' =
              (ensure_allocation w r.job
                (fail_segments w sc.gone (record o { attempts = sc.attempts }))).0 in
            elim (Option-cases (segment o'.state r)) [
              | inl n ↦ rw (e, grant_one) (rw n (first-Holds I Safe kept _ _ _ a a))
              | inr (x, n) ↦
                  let g = hand_out_stable w d.id r x o' (grants.found w d o r e h.it) a in
                  rw (e, grant_one) (rw n (search (first-Holds, g, a)))
            ]
      ]

  grant_rounds_stable :
      (n : ℕ) (w : World) (d : ServerDef) (o : Owner)
      → Holds I Safe kept o
      → Holds I Safe kept (grant_rounds n w d o).0
  unfolding grant_rounds
  grant_rounds_stable zero w d o h = h
  grant_rounds_stable (suc n) w d o h =
      let g = grant_one_stable w d o h in
      let later = grant_rounds_stable n w d _ g in
      elim (Option-cases (grant_one w d o).1) [
        | inl e ↦ rw (e, grant_rounds) g
        | inr (l, e) ↦ rw (e, grant_rounds) later
      ]

  grant_work_stable :
      (w : World) (s : ServerId) (n : ℕ) (o : Owner)
      → Holds I Safe kept o
      → Holds I Safe kept (grant_work w s n o).0
  unfolding grant_work
  grant_work_stable w s n o h =
      elim (Option-cases (find (λ (d : ServerDef). d.id == s) o.servers)) [
        | inl e ↦ rw (e, grant_work) (search (first-Holds, h))
        | inr (d, e) ↦
            let g = grant_rounds_stable n w d o h in rw (e, grant_work) (search (first-Holds, h, g))
      ]

  pub every_msg_stable :
      (w : World) (m : EngineMsg) (o : Owner)
      → Holds I Safe kept o
      → Holds I Safe kept (on_msg w m o).0
  unfolding on_msg
  every_msg_stable w (work_request s n) o h = grant_work_stable w s (max n 1) o h
  every_msg_stable w (segment_written r offset len crc size s) o h =
      on_msg_stable I Safe kept w (segment_written r offset len crc size s) o refl h
  every_msg_stable w (segment_failed r s outcome) o h =
      on_msg_stable I Safe kept w (segment_failed r s outcome) o refl h
  every_msg_stable w (connect_failed s) o h =
      on_msg_stable I Safe kept w (connect_failed s) o refl h
  every_msg_stable w (writer_finalized id f ok path crc) o h =
      on_msg_stable I Safe kept w (writer_finalized id f ok path crc) o refl h
  every_msg_stable w (job_name_inspected id name) o h =
      on_msg_stable I Safe kept w (job_name_inspected id name) o refl h
  every_msg_stable w (out_of_space whence) o h =
      on_msg_stable I Safe kept w (out_of_space whence) o refl h
  every_msg_stable w (writer_error id f text) o h =
      on_msg_stable I Safe kept w (writer_error id f text) o refl h
