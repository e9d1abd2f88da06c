-- ===== src/Engine/Owner/Upkeep.antt =====
-- crates/nzbd-engine/src/owner.rs: the startup pass, the queue's labels and the rest of the owner's
-- tick that touches downloads; a turn of the owner is any of these or a message.
use nzbd.Prelude.{
  ℕ, not, ◌&&◌, Bool, true, false, List, [], ◌∷◌, ◌++◌, map, select, if◌then◌else◌, ltb, ◌==◌,
  member, length,
}
use nzbd.Types.Job.{
  JobId, FileId, Job, JobStatus, queued, downloading, FileEntry, is_terminal, has_any_done,
}
use nzbd.Engine.Queue.{QueueState, jobs_to_requeue_with_recovery}
use nzbd.Engine.Queue.Lookup.{with_job}
use nzbd.Engine.Owner.{Owner, World, EngineMsg, on_state, bump_epoch}
use nzbd.Engine.Owner.Writers.{send_finalize}
use nzbd.Engine.Owner.Completion.{check_job_complete}
use nzbd.Engine.Owner.Messages.{on_msg}
use nzbd.Engine.Owner.Guard.{DiskGuardReading, update_disk_guard, clear_enospc_latch}

abbrev pub requeue : Job → Job
requeue j = record j { status = queued }

abbrev pub requeue_all : List JobId → QueueState → QueueState
requeue_all [] q = q
requeue_all (id ∷ rest) q = requeue_all rest (with_job id requeue q)

unfoldable pub demote : List JobId → Owner → Owner
demote [] o = o
demote (id ∷ rest) o = record (on_state (requeue_all (id ∷ rest)) o) { dirty = true }

unfoldable pub settle_download_labels : World → Owner → Owner
unfolding jobs_to_requeue_with_recovery demote
settle_download_labels w o =
    demote
      (jobs_to_requeue_with_recovery o.state o.delegated o.post_fetch_files o.download_enabled
        o.quota_reached w.now_unix)
      o

abbrev pub starts_up : JobStatus → Bool
starts_up queued = true
starts_up downloading = true
starts_up _ = false

abbrev to_finalize : Job → List (JobId × FileId)
to_finalize j =
    map {B = JobId × FileId} (λ (f : FileEntry). (j.id, f.id))
      (select (λ (f : FileEntry). is_terminal f && has_any_done f && not f.finalized) j.files)

abbrev pub all_to_finalize : List Job → List (JobId × FileId)
all_to_finalize [] = []
all_to_finalize (j ∷ rest) =
    if starts_up j.status then to_finalize j ++ all_to_finalize rest else all_to_finalize rest

unfoldable pub finalize_each : World → List (JobId × FileId) → Owner → Owner
finalize_each w [] o = o
finalize_each w ((j, f) ∷ rest) o = finalize_each w rest (send_finalize w j f o)

unfoldable pub check_each : World → List JobId → Owner → Owner
check_each w [] o = o
check_each w (j ∷ rest) o = check_each w rest (check_job_complete w j o)

unfoldable pub startup_pass : World → Owner → Owner
unfolding finalize_each check_each
startup_pass w o =
    let to_check =
      map (λ (j : Job). j.id) (select (λ (j : Job). starts_up j.status) o.state.jobs) in
    check_each w to_check (finalize_each w (all_to_finalize o.state.jobs) o)

-- The tick's retry of the orders that found no room.
unfoldable pub retry_finalizes : World → List (JobId × FileId) → Owner → Owner
retry_finalizes w [] o = o
retry_finalizes w ((j, f) ∷ rest) o =
    retry_finalizes w rest (if member f o.finalize_sent then o else send_finalize w j f o)

unfoldable pub flush_pending_finalize : World → Owner → Owner
unfolding retry_finalizes
flush_pending_finalize w o =
    retry_finalizes w o.pending_finalize (record o { pending_finalize = [] })

-- The tick's release of the servers whose time has come.
unfoldable pub unblock_servers : World → Owner → Owner
unblock_servers w o =
    let still = select (λ (e : ℕ × ℕ). ltb w.now e.1) o.blocked in
    let o' = record o { blocked = still } in
    if length still == length o.blocked then o' else bump_epoch o'

-- What the owner does between two looks at its channel: a message that is no queue command, the startup
-- pass, or a part of the tick. The tick's work on torrents, quotas, rates and the read model is left out.
pub data Turn : Type 0 where
  message : EngineMsg → Turn
  startup : Turn
  label flush unblock : Turn
  measure resume : DiskGuardReading → Turn

unfoldable pub take_turn : World → Turn → Owner → Owner
take_turn w (message m) o = (on_msg w m o).0
take_turn w startup o = startup_pass w o
take_turn w label o = settle_download_labels w o
take_turn w flush o = flush_pending_finalize w o
take_turn w unblock o = unblock_servers w o
take_turn w (measure reading) o = update_disk_guard reading o
take_turn w (resume reading) o = clear_enospc_latch reading o

-- The turns in order, each with the world's answers during it.
unfoldable pub run : List (World × Turn) → Owner → Owner
run [] o = o
run ((w, t) ∷ rest) o = run rest (take_turn w t o)
