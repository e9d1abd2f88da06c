-- ===== src/Engine/Queue/Admission/Scenarios.antt =====
-- Two reservations, of which one is cancelled and one becomes a job.
use nzbd.Prelude.{ℕ, ◌≡◌, refl, true, false, List, [], ◌∷◌, none, arith, map, bytes_eq}
use nzbd.Prelude.Int.{pos}
use nzbd.Yenc.StdText.{trim}
use nzbd.Types.Torrent.{Text, magnet, TorrentRecord, TorrentPhase, TorrentControlIntent}
use nzbd.Types.Job.{Job}
use nzbd.Engine.Queue.{QueueState}
use nzbd.Engine.Queue.Admission.{
  AddOpts, TorrentAdmissionCommit, reserve_torrent_admission, without, cancel_torrent_admission,
  commit_torrent_admission, holds, sanitize_name, unique_dir_name, merge_params,
}
use nzbd.Engine.Queue.Admission.Ids.{
  UniqueIds, reservations, owners, Operation, apply, apply_all, ids_stay_unique, Ascends, given_in,
}

abbrev bare : QueueState
bare = record {
  jobs = [];
  pending_admissions = [];
  next_job_id = 6;
  next_file_id = 0;
  download_paused = false;
  speed_limit_bps = none;
  max_active_downloads = 1;
}

abbrev opts : AddOpts
opts = record {
  category = none;
  priority = pos 0;
  seed_ratio_limit = none;
  seed_time_limit_secs = none;
  stop_seeding_on_complete = none;
  dupe = none;
  paused = false;
  params = [];
  client = none;
}

abbrev torrent_record : TorrentRecord
torrent_record = record {
  info_hash_v1 = b'a' ∷ b'b' ∷ [];
  source = magnet;
  metadata_file = [];
  payload_root = [];
  phase = TorrentPhase.queued;
  control_intent = TorrentControlIntent.running;
  removal_intent = none;
  removal_outcome = none;
  removal_confirmed_at_unix = none;
  files = [];
  total_bytes = 1000;
  selected_bytes = 1000;
  downloaded_bytes = 0;
  uploaded_bytes = 0;
  seeding_seconds = 0;
  ready_at_unix = none;
  content_path = none;
  seed_policy = record { stop_on_complete = true; ratio_limit = none; time_limit_secs = none };
  stop_reason = none;
  last_activity_unix = none;
  last_error = none;
}

-- `"a/b "`, which is kept in the directory `"a_b"`.
abbrev commitment : TorrentAdmissionCommit
commitment = record {
  name = b'a' ∷ b'/' ∷ b'b' ∷ 32 ∷ [];
  category = none;
  priority = pos 0;
  paused = false;
  params = [];
  torrent_record = torrent_record;
}

abbrev operations : List Operation
operations =
    Operation.reserve magnet opts
    ∷ Operation.reserve magnet opts
    ∷ Operation.cancel 7
    ∷ Operation.commit 8 commitment (pos 50)
    ∷ Operation.reserve magnet opts
    ∷ Operation.commit 9 commitment (pos 60)
    ∷ []

-- The second commitment is of a torrent that the queue has.
one_job :
    map {B = ℕ × Text} (λ (j : Job). (j.id, j.dir_name)) (apply_all operations bare).jobs
    ≡ (8, b'a' ∷ b'_' ∷ b'b' ∷ []) ∷ []
unfolding apply_all apply reserve_torrent_admission without cancel_torrent_admission
    commit_torrent_admission holds sanitize_name unique_dir_name bytes_eq merge_params trim
one_job = refl

bare-UniqueIds : UniqueIds bare
unfolding reservations owners
bare-UniqueIds = record { once = λ i. omega arith; given = λ i h. refl }

ids_stay_unique_example :
    Ascends 6 (given_in operations bare) × UniqueIds (apply_all operations bare)
ids_stay_unique_example = ids_stay_unique operations bare (omega arith) bare-UniqueIds
