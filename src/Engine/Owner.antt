-- ===== src/Engine/Owner.antt =====
-- crates/nzbd-engine/src/owner.rs: the owner of the queue, its state, the messages that it takes and
-- the effects that it has on the world. What the world answers to an effect may depend on all the
-- effects so far; the clock does not move while one message is handled.
pub mod Writers
pub mod Completion
pub mod Outcomes
pub mod Leases
pub mod Messages
pub mod Stable
pub mod Announce
pub mod Totals
pub mod Kept
pub mod Endings
pub mod Guard
pub mod Upkeep
pub mod Refetch
pub mod Moves
mod Scenarios
use nzbd.Prelude.{ℕ, suc, Bool, true, false, List, [], ◌∷◌, Option, none, some}
use nzbd.Prelude.Int.{ℤ}
use nzbd.Types.Torrent.{Text}
use nzbd.Types.Job.{JobId, FileId, ServerId, JobStatus}
use nzbd.Types.Server.{ServerDef}
use nzbd.Engine.Queue.{QueueState, PostFetch}
use nzbd.Engine.Queue.Scan.{Attempts, SegRef}
use nzbd.Engine.Failover.{AttemptOutcome}

-- The fields of `Tuning` that the owner's handlers below read. Times are in seconds.
pub record Tuning : Type 0 where
  pub article_retries : ℕ
  pub retry_interval : ℕ
  pub propagation_delay : ℤ
  pub min_free_disk_bytes : ℕ
  pub health_abort : Bool

pub record JournalRecord : Type 0 where
  pub job : JobId
  pub file : FileId
  pub segment_number : ℕ
  pub offset : ℕ
  pub len : ℕ
  pub crc32 : ℕ
  pub file_size : ℕ

-- The events that these handlers send.
pub data Event : Type 0 where
  job_finished : JobId → Text → JobStatus → ℕ → Event
  file_finished : JobId → FileId → Text → Bool → Event
  segment_exhausted : JobId → FileId → ℕ → Event
  server_blocked : ServerId → ℕ → Event

-- `try_send`, and the snapshot store's answer to a save.
pub data SendAnswer : Type 0 where
  sent full closed : SendAnswer

pub data SaveAnswer : Type 0 where
  saved corrupt refused : SaveAnswer

-- What the handlers do outside the owner's state: calls of the volume book, the journal, the event
-- channel, the snapshot store, the published read model, the epoch channel, the artifact inventory,
-- the writers, the name inspection and the torrent backend.
pub data Effect : Type 0 where
  volume_added : ServerId → ℕ → Effect
  journaled : JournalRecord → Effect
  emitted : Event → Effect
  snapshot : QueueState → SaveAnswer → Effect
  published : QueueState → Effect
  epoch_bumped : Effect
  allocated : JobId → Bool → Effect
  writer_spawned : JobId → FileId → Effect
  finalize_ordered : JobId → FileId → ℕ → Option ℕ → SendAnswer → Effect
  name_inspection : JobId → Text → Effect
  torrents_held : List JobId → Effect

-- The world's answers. `is_uninformative` is the test that `queue.rs` makes of a name.
pub record World : Type 0 where
  pub now_unix : ℤ
  pub now : ℕ
  pub allocates : List Effect → JobId → Bool
  pub is_closed : List Effect → FileId → Bool
  pub sends : List Effect → FileId → SendAnswer
  pub saves : List Effect → SaveAnswer
  pub is_uninformative : Text → Bool

-- The fields that these handlers read or write. A server is blocked until an instant, in seconds. Of
-- `delegated` only the keys are kept, of `writers` and `retiring_writers` which handles there are.
-- `log` has the newest effect first.
pub record Owner : Type 0 where
  pub state : QueueState
  pub attempts : Attempts
  pub blocked : List (ServerId × ℕ)
  pub writers : List FileId
  pub retiring_writers : List JobId
  pub allocated_jobs : List JobId
  pub finalize_sent : List FileId
  pub pending_finalize : List (JobId × FileId)
  pub pending_name_inspections : List (JobId × ℕ)
  pub file_sizes : List (FileId × ℕ)
  pub write_failures : List (JobId × Text)
  pub delegated : List JobId
  pub post_fetch_files : PostFetch
  pub retry_counts : List (JobId × ℕ)
  pub persist : Bool
  pub servers : List ServerDef
  pub tuning : Tuning
  pub download_enabled : Bool
  pub dirty : Bool
  pub quota_reached : Bool
  pub disk_low : Bool
  pub enospc_latched : Bool
  pub enospc_observed : ℕ
  pub enospc_where : Option Text
  pub rotate : ℕ
  pub log : List Effect

-- `Command`, which carries the queue commands, is left out: no theorem on messages is about them. A reply channel is the answer of `on_msg`, and a segment's job, file and
-- number are its reference.
pub data EngineMsg : Type 0 where
  work_request : ServerId → ℕ → EngineMsg
  segment_written : SegRef → ℕ → ℕ → ℕ → ℕ → ServerId → EngineMsg
  segment_failed : SegRef → ServerId → AttemptOutcome → EngineMsg
  connect_failed : ServerId → EngineMsg
  writer_finalized : JobId → FileId → Bool → Option Text → Option ℕ → EngineMsg
  writer_error : JobId → FileId → Text → EngineMsg
  out_of_space : Text → EngineMsg
  job_name_inspected : JobId → Option Text → EngineMsg

abbrev pub note : Effect → Owner → Owner
note e o = record o { log = e ∷ o.log }

abbrev pub emit : Event → Owner → Owner
emit e o = note (emitted e) o

abbrev pub bump_epoch : Owner → Owner
bump_epoch o = note epoch_bumped o

abbrev pub publish_now : Owner → Owner
publish_now o = note (published o.state) o

-- The change of the queue alone.
abbrev pub on_state : (QueueState → QueueState) → Owner → Owner
on_state g o = record o { state = g o.state }

-- `save_snapshot_result` and, on an error, `on_snapshot_save_error`: a corrupt store ends persistence.
abbrev after_save : SaveAnswer → Owner → Owner
after_save saved o = record o { dirty = false }
after_save corrupt o = record o { persist = false }
after_save refused o = o

-- The effect `snapshot` is the guarded write of the document, with the compaction of the journals
-- that follows it.
unfoldable pub save_snapshot : World → Owner → Owner
save_snapshot w o =
    let answer = w.saves o.log in
    elim o.persist [
      | false ↦ record o { dirty = false }
      | true ↦ after_save answer (note (snapshot o.state answer) o)
    ]
