-- ===== src/Engine/Owner/Stable/Turns.antt =====
-- crates/nzbd-engine/src/owner.rs: every turn of the owner preserves what withstands its changes.
use nzbd.Prelude.{
  map, ℕ, ◌≡◌, refl, Bool, true, false, List, [], ◌∷◌, Option, none, some, All, arith, member,
  select,
}
use nzbd.Types.Job.{JobId, FileId, Job}
use nzbd.Types.Torrent.{TorrentRecord}
use nzbd.Engine.Queue.{QueueState, jobs_to_requeue_with_recovery}
use nzbd.Engine.Queue.Scan.{SegRef}
use nzbd.Engine.Owner.{Owner, World, Effect}
use nzbd.Engine.Owner.Messages.{hold_torrents}
use nzbd.Engine.Owner.Guard.{
  DiskGuardReading, disk_guard_decision, release_torrent, release_torrents_after_storage_recovery,
  update_disk_guard, clear_enospc_latch,
}
use nzbd.Engine.Owner.Upkeep.{
  requeue, starts_up, all_to_finalize, requeue_all, demote, settle_download_labels, finalize_each,
  check_each, startup_pass, retry_finalizes, flush_pending_finalize, unblock_servers, Turn, message,
  startup, label, flush, unblock, measure, resume, take_turn, run,
}
use nzbd.Engine.Owner.Stable.{
  Stable, KeepsJob, Holds, if-Holds, quiet-Holds, send_finalize_stable, check_job_complete_stable,
}
use nzbd.Engine.Owner.Stable.Handlers.{asks_nothing, on_msg_stable}
use nzbd.Engine.Owner.Stable.Grants.{Leasable, every_msg_stable}

-- Any turn but a request for work.
abbrev pub grants_nothing : Turn → Bool
grants_nothing (message m) = asks_nothing m
grants_nothing _ = true

module _ (I : QueueState → List Effect → Type 0) (Safe : JobId → List (FileId × List ℕ) → Type 0)
    (kept : Stable I Safe) where
  release_torrent-KeepsJob : KeepsJob (λ j. release_torrent j.torrent_record j)
  release_torrent-KeepsJob = record {
    id = λ j. (from j j.torrent_record).0;
    files = λ j. (from j j.torrent_record).1;
    totals = λ j. (from j j.torrent_record).2;
  }
    where
      from :
          (j : Job) (t : Option TorrentRecord)
          → ((release_torrent t j).id ≡ j.id)
            × ((release_torrent t j).files ≡ j.files)
            × ((release_torrent t j).totals ≡ j.totals)
      from j none = (refl, refl, refl)
      from j (some t) = ground arith

  release_stable :
      (o : Owner)
      → Holds I Safe kept o
      → Holds I Safe kept (release_torrents_after_storage_recovery o)
  unfolding release_torrents_after_storage_recovery
  release_stable o h =
      let k = kept.each_kept o.state o.log _ release_torrent-KeepsJob h.it in
      if-Holds I Safe kept _ _ _ (record { it = kept.noted _ _ Effect.epoch_bumped refl k })
        (record { it = k })

  hold_torrents_stable : (o : Owner) → Holds I Safe kept o → Holds I Safe kept (hold_torrents o)
  unfolding hold_torrents
  hold_torrents_stable o h = quiet-Holds I Safe kept _ o refl h

  update_disk_guard_stable :
      (reading : DiskGuardReading) (o : Owner)
      → Holds I Safe kept o
      → Holds I Safe kept (update_disk_guard reading o)
  unfolding update_disk_guard
  update_disk_guard_stable reading o h =
      let d =
        disk_guard_decision o.disk_low o.enospc_latched reading o.tuning.min_free_disk_bytes in
      let decided : Holds I Safe kept (record o { enospc_latched = d.0; disk_low = d.1 }) = record {
        it = h.it;
      } in
      let held =
        quiet-Holds I Safe kept (Effect.published _) _ refl (hold_torrents_stable _ decided) in
      let released = release_stable _ decided in
      let resumed =
        quiet-Holds I Safe kept Effect.epoch_bumped _ refl
          (quiet-Holds I Safe kept (Effect.published _) _ refl released) in
      if-Holds I Safe kept d.1 _ _ (if-Holds I Safe kept o.disk_low _ _ decided held)
        (if-Holds I Safe kept o.disk_low _ _ resumed decided)

  clear_enospc_latch_stable :
      (reading : DiskGuardReading) (o : Owner)
      → Holds I Safe kept o
      → Holds I Safe kept (clear_enospc_latch reading o)
  unfolding clear_enospc_latch
  clear_enospc_latch_stable reading o h =
      let cleared : Holds I Safe kept (record o { enospc_latched = false; disk_low = false }) =
        record { it = h.it } in
      let u = update_disk_guard_stable reading _ cleared in
      if-Holds I Safe kept o.enospc_latched _ _
        (quiet-Holds I Safe kept (Effect.published _) _ refl u) h

  requeue_all-stable :
      (ids : List JobId) (q : QueueState) (l : List Effect) → I q l → I (requeue_all ids q) l
  requeue_all-stable [] q l h = h
  requeue_all-stable (id ∷ rest) q l h = requeue_all-stable rest _ l (
      kept.job_kept q l id requeue
        (record { id = λ j. refl; files = λ j. refl; totals = λ j. refl }) h)

  demote_stable :
      (ids : List JobId) (o : Owner) → Holds I Safe kept o → Holds I Safe kept (demote ids o)
  unfolding demote
  demote_stable [] o h = h
  demote_stable (id ∷ rest) o h = record { it = requeue_all-stable (id ∷ rest) o.state o.log h.it }

  settle_download_labels_stable :
      (w : World) (o : Owner) → Holds I Safe kept o → Holds I Safe kept (settle_download_labels w o)
  unfolding settle_download_labels
  settle_download_labels_stable w o h =
      demote_stable
        (jobs_to_requeue_with_recovery o.state o.delegated o.post_fetch_files o.download_enabled
          o.quota_reached w.now_unix)
        o h

  finalize_each_stable :
      (w : World) (l : List (JobId × FileId)) (o : Owner)
      → Holds I Safe kept o
      → Holds I Safe kept (finalize_each w l o)
  unfolding finalize_each
  finalize_each_stable w [] o h = h
  finalize_each_stable w ((j, f) ∷ rest) o h =
      finalize_each_stable w rest _ (send_finalize_stable I Safe kept w j f o h)

  check_each_stable :
      (w : World) (l : List JobId) (o : Owner)
      → Holds I Safe kept o
      → Holds I Safe kept (check_each w l o)
  unfolding check_each
  check_each_stable w [] o h = h
  check_each_stable w (j ∷ rest) o h =
      check_each_stable w rest _ (check_job_complete_stable I Safe kept w j o h)

  startup_pass_stable :
      (w : World) (o : Owner) → Holds I Safe kept o → Holds I Safe kept (startup_pass w o)
  unfolding startup_pass
  startup_pass_stable w o h =
      check_each_stable w
        (map (λ (j : Job). j.id) (select (λ (j : Job). starts_up j.status) o.state.jobs)) _
        (finalize_each_stable w (all_to_finalize o.state.jobs) o h)

  retry_finalizes_stable :
      (w : World) (l : List (JobId × FileId)) (o : Owner)
      → Holds I Safe kept o
      → Holds I Safe kept (retry_finalizes w l o)
  unfolding retry_finalizes
  retry_finalizes_stable w [] o h = h
  retry_finalizes_stable w ((j, f) ∷ rest) o h = retry_finalizes_stable w rest _ (
      if-Holds I Safe kept (member f o.finalize_sent) _ _ h
        (send_finalize_stable I Safe kept w j f o h))

  flush_pending_finalize_stable :
      (w : World) (o : Owner) → Holds I Safe kept o → Holds I Safe kept (flush_pending_finalize w o)
  unfolding flush_pending_finalize
  flush_pending_finalize_stable w o h =
      retry_finalizes_stable w o.pending_finalize _ (record { it = h.it })

  unblock_servers_stable :
      (w : World) (o : Owner) → Holds I Safe kept o → Holds I Safe kept (unblock_servers w o)
  unfolding unblock_servers
  unblock_servers_stable w o h =
      if-Holds I Safe kept _ _ _ (record { it = h.it })
        (record { it = kept.noted o.state o.log Effect.epoch_bumped refl h.it })

  take_turn_stable :
      (w : World) (t : Turn) (o : Owner)
      → grants_nothing t ≡ true
      → Holds I Safe kept o
      → Holds I Safe kept (take_turn w t o)
  unfolding take_turn
  take_turn_stable w (message m) o a h = on_msg_stable I Safe kept w m o a h
  take_turn_stable w startup o a h = startup_pass_stable w o h
  take_turn_stable w label o a h = settle_download_labels_stable w o h
  take_turn_stable w flush o a h = flush_pending_finalize_stable w o h
  take_turn_stable w unblock o a h = unblock_servers_stable w o h
  take_turn_stable w (measure reading) o a h = update_disk_guard_stable reading o h
  take_turn_stable w (resume reading) o a h = clear_enospc_latch_stable reading o h

  -- What needs to know nothing of leases survives any turns but requests for work.
  pub reports_stable :
      (ts : List (World × Turn)) (o : Owner)
      → All (λ (e : World × Turn). grants_nothing e.1 ≡ true) ts
      → I o.state o.log
      → I (run ts o).state (run ts o).log
  unfolding run
  reports_stable [] o a h = h
  reports_stable ((w, t) ∷ rest) o a h =
      reports_stable rest _ a.1 (take_turn_stable w t o a.0 (record { it = h })).it

module _ (I : QueueState → List Effect → Type 0) (Safe : JobId → List (FileId × List ℕ) → Type 0)
    (Free : SegRef → Type 0) (kept : Stable I Safe) (grants : Leasable I Free) where
  every_turn_stable :
      (w : World) (t : Turn) (o : Owner) → Holds I Safe kept o → Holds I Safe kept (take_turn w t o)
  unfolding take_turn
  every_turn_stable w (message m) o h = every_msg_stable I Safe Free kept grants w m o h
  every_turn_stable w startup o h = startup_pass_stable I Safe kept w o h
  every_turn_stable w label o h = settle_download_labels_stable I Safe kept w o h
  every_turn_stable w flush o h = flush_pending_finalize_stable I Safe kept w o h
  every_turn_stable w unblock o h = unblock_servers_stable I Safe kept w o h
  every_turn_stable w (measure reading) o h = update_disk_guard_stable I Safe kept reading o h
  every_turn_stable w (resume reading) o h = clear_enospc_latch_stable I Safe kept reading o h

  pub run_stable :
      (ts : List (World × Turn)) (o : Owner) → I o.state o.log → I (run ts o).state (run ts o).log
  unfolding run
  run_stable [] o h = h
  run_stable ((w, t) ∷ rest) o h =
      run_stable rest _ (every_turn_stable w t o (record { it = h })).it
