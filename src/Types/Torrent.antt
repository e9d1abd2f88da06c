-- ===== src/Types/Torrent.antt =====
-- crates/nzbd-types/src/lib.rs: the queue's record of a BitTorrent job.
use nzbd.Prelude.{ℕ, Bool, true, false, List, Option}
use nzbd.Prelude.Int.{ℤ}

-- A string or a path, as its bytes.
abbrev pub Text : Type 0
Text = List ℕ

pub data TorrentSource : Type 0 where
  metainfo magnet url : TorrentSource

pub data TorrentPhase : Type 0 where
  fetching_source fetching_metadata queued checking downloading : TorrentPhase
  seeding paused_download paused_seed missing_files failed : TorrentPhase

pub data TorrentControlIntent : Type 0 where
  running paused : TorrentControlIntent

pub record TorrentRemovalIntent : Type 0 where
  pub delete_data : Bool

pub data TorrentPayloadDisposition : Type 0 where
  retained deleted : TorrentPayloadDisposition

-- May this phase compete for a shared active-download slot?
abbrev pub phase_wants_download_slot : TorrentPhase → Bool
phase_wants_download_slot fetching_source = true
phase_wants_download_slot fetching_metadata = true
phase_wants_download_slot queued = true
phase_wants_download_slot checking = true
phase_wants_download_slot downloading = true
phase_wants_download_slot _ = false

-- `ratio_limit` is the bit pattern of an `f64`: nothing modelled computes with it.
pub record SeedPolicy : Type 0 where
  pub stop_on_complete : Bool
  pub ratio_limit : Option ℕ
  pub time_limit_secs : Option ℕ

pub data TorrentStopReason : Type 0 where
  manual download_complete ratio_limit time_limit storage_full : TorrentStopReason

pub record TorrentFileRecord : Type 0 where
  pub path : Text
  pub length : ℕ
  pub selected : Bool
  pub downloaded_bytes : ℕ

pub record TorrentRecord : Type 0 where
  pub info_hash_v1 : Text
  pub source : TorrentSource
  pub metadata_file : Text
  pub payload_root : Text
  pub phase : TorrentPhase
  pub control_intent : TorrentControlIntent
  pub removal_intent : Option TorrentRemovalIntent
  pub removal_outcome : Option TorrentPayloadDisposition
  pub removal_confirmed_at_unix : Option ℤ
  pub files : List TorrentFileRecord
  pub total_bytes : ℕ
  pub selected_bytes : ℕ
  pub downloaded_bytes : ℕ
  pub uploaded_bytes : ℕ
  pub seeding_seconds : ℕ
  pub ready_at_unix : Option ℤ
  pub content_path : Option Text
  pub seed_policy : SeedPolicy
  pub stop_reason : Option TorrentStopReason
  pub last_activity_unix : Option ℤ
  pub last_error : Option Text
