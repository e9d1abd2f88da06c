-- ===== src/Engine/Owner/Messages.antt =====
-- crates/nzbd-engine/src/owner.rs: the end of a file, the name that a job learns, a full disk, and
-- the dispatch of messages. `Command` is left out: a command is another entry of the owner.
use nzbd.Prelude.{
  ℕ, suc, ◌-◌, max, Bool, true, false, not, ◌&&◌, ◌||◌, List, [], ◌∷◌, ◌++◌, map, Option, none,
  some, any, select, if◌then◌else◌, ltb, unwrap_or, is_empty, is_some, bytes_eq,
}
use nzbd.Prelude.Maps.{get, put, remove, without}
use nzbd.Types.Torrent.{Text, TorrentRecord, TorrentControlIntent, running, paused}
use nzbd.Types.Job.{JobId, FileId, Job, JobKind, nzb, url, torrent, FileEntry}
use nzbd.Yenc.Lines.{starts_with}
use nzbd.Engine.Queue.Recovery.{ascii_lower}
use nzbd.Engine.Queue.Lookup.{job, file, with_job, with_file}
use nzbd.Engine.Owner.{
  Owner, World, note, emit, on_state, bump_epoch, publish_now, name_inspection, torrents_held,
  file_finished, EngineMsg, work_request, segment_written, segment_failed, connect_failed,
  writer_finalized, writer_error, out_of_space, job_name_inspected,
}
use nzbd.Engine.Owner.Completion.{check_job_complete}
use nzbd.Engine.Owner.Outcomes.{
  on_segment_written, on_segment_failed, fail_whole_file, block_server,
}
use nzbd.Engine.Owner.Leases.{Lease, grant_work}

unfoldable pub name_is_open : World → Job → Bool
name_is_open w j = j.name_provisional || w.is_uninformative j.name

-- `rename_job` of the display name alone (`storage_too` is false), for a final name.
unfoldable pub rename_job : Text → Job → Job
rename_job new_name j = if is_empty new_name || bytes_eq new_name j.name then j else record j {
  original_name = if is_empty j.original_name then j.name else j.original_name;
  name = new_name;
  name_provisional = false;
}

unfoldable pub maybe_learn_name_from : World → JobId → Text → Owner → Owner
unfolding name_is_open
maybe_learn_name_from w id path o =
    let pending : ℕ = unwrap_or (get id o.pending_name_inspections) 0 in
    let asked =
      note (name_inspection id path)
        (record o { pending_name_inspections = put id (suc pending) o.pending_name_inspections }) in
    elim (job o.state id) [ none ↦ o | some j ↦ if name_is_open w j then asked else o ]

unfoldable pub adopt_learned_name : World → JobId → Text → Owner → Owner
unfolding name_is_open
adopt_learned_name w id name o =
    let named = on_state (with_job id (rename_job name)) o in
    let shown = bump_epoch (publish_now (record named { dirty = true })) in
    elim (job o.state id) [ none ↦ o | some j ↦ if name_is_open w j then shown else o ]

abbrev pub one_inspection_less : JobId → Owner → Owner
one_inspection_less id o = elim (get id o.pending_name_inspections) [
  | none ↦ o
  | some n ↦ record o {
    pending_name_inspections =
        if ltb 1 n
        then put id (n - 1) o.pending_name_inspections
        else remove id o.pending_name_inspections;
  }
]

unfoldable pub on_job_name_inspected : World → JobId → Option Text → Owner → Owner
on_job_name_inspected w id name o =
    let o' = one_inspection_less id o in
    check_job_complete w id (elim name [ none ↦ o' | some t ↦ adopt_learned_name w id t o' ])

abbrev pub finish_file : Bool → Option ℕ → FileEntry → FileEntry
finish_file ok crc f = record f { finalized = true; crc32 = if ok then crc else f.crc32 }

-- `"could not write "` and `" to disk"`.
abbrev pub write_failure : Text → Text
write_failure filename =
    b'c' ∷ b'o' ∷ b'u' ∷ b'l' ∷ b'd' ∷ b' ' ∷ b'n' ∷ b'o' ∷ b't' ∷ b' ' ∷ b'w' ∷ b'r' ∷ b'i' ∷ b't'
      ∷ b'e' ∷ b' ' ∷ filename
    ++ b' ' ∷ b't' ∷ b'o' ∷ b' ' ∷ b'd' ∷ b'i' ∷ b's' ∷ b'k' ∷ []

-- `entry(job).or_insert_with(..)`.
abbrev pub record_failure : JobId → Text → Owner → Owner
record_failure id filename o =
    let reason = unwrap_or (get id o.write_failures) (write_failure filename) in
    record o { write_failures = put id reason o.write_failures }

-- The file's three entries are dropped whether or not the job is still queued.
abbrev pub forget_writer : FileId → Owner → Owner
forget_writer f o = record o {
  writers = without f o.writers;
  finalize_sent = without f o.finalize_sent;
  file_sizes = remove f o.file_sizes;
}

abbrev pub learn_after : World → JobId → Bool → Option Text → Owner → Owner
learn_after w id true (some path) o = maybe_learn_name_from w id path o
learn_after w id true none o = o
learn_after w id false path o = o

unfoldable pub on_writer_finalized :
    World → JobId → FileId → Bool → Option Text → Option ℕ → Owner → Owner
on_writer_finalized w id f ok path crc o =
    let o' = forget_writer f o in
    elim (file o'.state id f) [
      | none ↦ o'
      | some x ↦
          let marked = on_state (with_file id f (finish_file ok crc)) o' in
          let judged = if ok then marked else record_failure id x.filename marked in
          let told = emit (file_finished id f x.filename ok) (learn_after w id ok path judged) in
          check_job_complete w id (record told { dirty = true })
    ]

-- `str::contains`.
unfoldable pub contains : Text → Text → Bool
unfolding starts_with
contains needle [] = is_empty needle
contains needle (b ∷ bs) = let rest = contains needle bs in starts_with (b ∷ bs) needle || rest

-- "no space left on device", "os error 28", "disk quota exceeded", "os error 122" and
-- "no storage space".
abbrev out_of_space_texts : List Text
out_of_space_texts =
    (b'n' ∷ b'o' ∷ b' ' ∷ b's' ∷ b'p' ∷ b'a' ∷ b'c' ∷ b'e' ∷ b' ' ∷ b'l' ∷ b'e' ∷ b'f' ∷ b't' ∷ b' '
      ∷ b'o' ∷ b'n' ∷ b' ' ∷ b'd' ∷ b'e' ∷ b'v' ∷ b'i' ∷ b'c' ∷ b'e' ∷ [])
    ∷ (b'o' ∷ b's' ∷ b' ' ∷ b'e' ∷ b'r' ∷ b'r' ∷ b'o' ∷ b'r' ∷ b' ' ∷ b'2' ∷ b'8' ∷ [])
    ∷ (b'd' ∷ b'i' ∷ b's' ∷ b'k' ∷ b' ' ∷ b'q' ∷ b'u' ∷ b'o' ∷ b't' ∷ b'a' ∷ b' ' ∷ b'e' ∷ b'x'
        ∷ b'c' ∷ b'e' ∷ b'e' ∷ b'd' ∷ b'e' ∷ b'd' ∷ [])
    ∷ (b'o' ∷ b's' ∷ b' ' ∷ b'e' ∷ b'r' ∷ b'r' ∷ b'o' ∷ b'r' ∷ b' ' ∷ b'1' ∷ b'2' ∷ b'2' ∷ [])
    ∷ (b'n' ∷ b'o' ∷ b' ' ∷ b's' ∷ b't' ∷ b'o' ∷ b'r' ∷ b'a' ∷ b'g' ∷ b'e' ∷ b' ' ∷ b's' ∷ b'p'
        ∷ b'a' ∷ b'c' ∷ b'e' ∷ [])
    ∷ []

unfoldable pub is_out_of_space : Text → Bool
unfolding contains
is_out_of_space msg = any (λ t. contains t (map ascii_lower msg)) out_of_space_texts

abbrev pub is_running : TorrentControlIntent → Bool
is_running running = true
is_running paused = false

abbrev runs_incomplete : Option TorrentRecord → Bool
runs_incomplete none = false
runs_incomplete (some t) =
    not (is_some t.ready_at_unix) && not (is_some t.removal_intent) && is_running t.control_intent

abbrev is_torrent : JobKind → Bool
is_torrent torrent = true
is_torrent nzb = false
is_torrent url = false

-- `pause_incomplete_torrents_for_storage`: the jobs that the torrent backend is told to pause.
unfoldable pub hold_torrents : Owner → Owner
hold_torrents o =
    note
      (torrents_held (
        map (λ j. j.id)
          (select (λ (j : Job). is_torrent j.kind && runs_incomplete j.torrent_record)
            o.state.jobs)))
      o

unfoldable pub observe_out_of_space : Text → Owner → Owner
observe_out_of_space whence o =
    let latched = record o {
      enospc_observed = suc o.enospc_observed;
      enospc_where = some whence;
      enospc_latched = true;
    } in
    if o.disk_low then latched else publish_now (hold_torrents (record latched { disk_low = true }))

-- The leases are the reply to a work request.
unfoldable pub on_msg : World → EngineMsg → Owner → Owner × List Lease
unfolding is_out_of_space
on_msg w (work_request server max_leases) o = grant_work w server (max max_leases 1) o
on_msg w (segment_written r offset len crc file_size server) o =
    (on_segment_written w r offset len crc file_size server o, [])
on_msg w (segment_failed r server outcome) o = (on_segment_failed w r server outcome o, [])
on_msg w (connect_failed server) o = (block_server w server o, [])
on_msg w (writer_finalized id f ok path crc) o = (on_writer_finalized w id f ok path crc o, [])
on_msg w (job_name_inspected id name) o = (on_job_name_inspected w id name o, [])
on_msg w (out_of_space whence) o = (observe_out_of_space whence o, [])
on_msg w (writer_error id f text) o =
    let o' = if is_out_of_space text then observe_out_of_space text o else o in
    (fail_whole_file w id f o', [])
