-- ===== src/Types/Job.antt =====
-- crates/nzbd-types/src/lib.rs: jobs, files and segments. An identifier is its `u32`.
use nzbd.Prelude.{
  ℕ, Bool, true, false, ◌&&◌, List, [], ◌∷◌, Option, none, some, all as all_of, any, bytes_eq,
  is_some, length, select,
}
use nzbd.Prelude.Int.{ℤ, pos, leb_ℤ}
use nzbd.Types.Torrent.{Text, TorrentRecord}

abbrev pub JobId : Type 0
JobId = ℕ

abbrev pub FileId : Type 0
FileId = ℕ

abbrev pub ServerId : Type 0
ServerId = ℕ

abbrev pub priority_force : ℤ
priority_force = pos 900

pub data JobKind : Type 0 where
  nzb url torrent : JobKind

pub data DupeMode : Type 0 where
  score all force : DupeMode

pub record DupeInfo : Type 0 where
  pub key : Text
  pub score : ℤ
  pub mode : Option DupeMode

pub record JobTotals : Type 0 where
  pub size : ℕ
  pub par_size : ℕ
  pub failed_size : ℕ
  pub failed_par_size : ℕ
  pub success_size : ℕ
  pub total_articles : ℕ
  pub success_articles : ℕ
  pub failed_articles : ℕ

pub data SegmentState : Type 0 where
  pending : SegmentState
  leased : ServerId → SegmentState
  done : ℕ → ℕ → ℕ → SegmentState
  failed : SegmentState

abbrev pub is_pending : SegmentState → Bool
is_pending pending = true
is_pending _ = false

abbrev pub is_leased : SegmentState → Bool
is_leased (leased s) = true
is_leased _ = false

abbrev pub is_done : SegmentState → Bool
is_done (done offset len crc) = true
is_done _ = false

abbrev pub is_settled : SegmentState → Bool
is_settled (done offset len crc) = true
is_settled failed = true
is_settled _ = false

pub record Segment : Type 0 where
  pub message_id : Text
  pub number : ℕ
  pub size : ℕ
  pub state : SegmentState

pub record FileEntry : Type 0 where
  pub id : FileId
  pub subject : Text
  pub filename : Text
  pub filename_confirmed : Bool
  pub is_par2 : Bool
  pub paused : Bool
  pub groups : List Text
  pub date : Option ℤ
  pub segments : List Segment
  pub crc32 : Option ℕ
  pub finalized : Bool

unfoldable pub is_terminal : FileEntry → Bool
is_terminal f = all_of (λ s. is_settled s.state) f.segments

unfoldable pub done_segments : FileEntry → ℕ
done_segments f = length (select (λ s. is_done s.state) f.segments)

unfoldable pub has_any_done : FileEntry → Bool
has_any_done f = any (λ s. is_done s.state) f.segments

pub data PostStage : Type 0 where
  par_rename par_verify par_repair rar_rename unpack : PostStage
  cleanup move post_unpack_rename script : PostStage

pub data JobStatus : Type 0 where
  queued downloading paused fetching post_queued : JobStatus
  post : PostStage → JobStatus
  completed failed deleted : JobStatus

pub record StageSpan : Type 0 where
  pub stage : PostStage
  pub started_at_unix : ℤ
  pub ms : Option ℕ

pub record Job : Type 0 where
  pub id : JobId
  pub kind : JobKind
  pub name : Text
  pub dir_name : Text
  pub name_provisional : Bool
  pub queued_at_unix : ℤ
  pub original_name : Text
  pub category : Option Text
  pub priority : ℤ
  pub dupe : DupeInfo
  pub params : List (Text × Text)
  pub files : List FileEntry
  pub totals : JobTotals
  pub status : JobStatus
  pub torrent_record : Option TorrentRecord
  pub stages : List StageSpan

unfoldable pub force_priority : Job → Bool
force_priority j = leb_ℤ priority_force j.priority

-- `"*PP:done"` and `"SUCCESS"`.
abbrev pub pp_done_param : Text
pp_done_param = 42 ∷ 80 ∷ 80 ∷ 58 ∷ 100 ∷ 111 ∷ 110 ∷ 101 ∷ []

abbrev pub pp_success : Text
pp_success = 83 ∷ 85 ∷ 67 ∷ 67 ∷ 69 ∷ 83 ∷ 83 ∷ []

abbrev ready_at_of : Option TorrentRecord → Option ℤ
ready_at_of none = none
ready_at_of (some t) = t.ready_at_unix

unfoldable pub ready_at_unix : Job → Option ℤ
ready_at_unix j = ready_at_of j.torrent_record

abbrev stamped_success : Job → Bool
stamped_success j = any (λ p. bytes_eq p.0 pp_done_param && bytes_eq p.1 pp_success) j.params

abbrev ready_by_kind : JobKind → Job → Bool
ready_by_kind torrent j = is_some (ready_at_unix j)
ready_by_kind nzb j = stamped_success j
ready_by_kind url j = stamped_success j

unfoldable pub ready : Job → Bool
ready j = ready_by_kind j.kind j
