-- ===== src/State.antt =====
-- crates/nzbd-state/src/lib.rs: the documents that the queue is saved as.
use nzbd.Prelude.{ℕ, Bool, List, Option}
use nzbd.Prelude.Int.{ℤ}
use nzbd.Types.Torrent.{Text, TorrentSource}
use nzbd.Types.Job.{JobId, Job}

-- `seed_ratio_limit` is the bit pattern of an `f64`.
pub record PendingAdmission : Type 0 where
  pub job_id : JobId
  pub source : TorrentSource
  pub secret_ref : Text
  pub category : Option Text
  pub priority : ℤ
  pub paused : Bool
  pub seed_ratio_limit : Option ℕ
  pub seed_time_limit_secs : Option ℕ
  pub stop_seeding_on_complete : Option Bool
  pub params : List (Text × Text)
  pub client : Option Text

pub record QueueSnapshotDoc : Type 0 where
  pub schema_version : ℕ
  pub pending_admissions : List PendingAdmission
  pub jobs : List Job
  pub next_job_id : ℕ
  pub next_file_id : ℕ
  pub download_paused : Bool
  pub speed_limit_bps : Option ℕ
  pub max_active_downloads : ℕ
