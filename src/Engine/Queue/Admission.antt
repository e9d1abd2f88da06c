-- ===== src/Engine/Queue/Admission.antt =====
-- crates/nzbd-engine/src/queue.rs: the reservation, commitment and cancellation of a torrent. The
-- clock's reading is an argument; a file name is its UTF-8 bytes.
pub mod Ids
mod Scenarios
use nzbd.Prelude.{
  length, ℕ, zero, suc, ◌+◌, ◌%◌, ◌^◌, Bool, true, false, not, ◌&&◌, ◌||◌, List, [], ◌∷◌, ◌++◌,
  reverse, Option, none, some, if◌then◌else◌, ltb, leb, ◌==◌, any, select, find, member, bytes_eq,
  is_empty, is_some,
}
use nzbd.Prelude.Int.{ℤ, pos}
use nzbd.Prelude.Decimal.{decimal}
use nzbd.Types.Torrent.{Text, TorrentSource, TorrentRecord}
use nzbd.Types.Job.{Job, JobId, torrent, DupeInfo, JobStatus, queued, paused, deleted}
use nzbd.State.{PendingAdmission}
use nzbd.Yenc.StdText.{within, trim}
use nzbd.Engine.Queue.{QueueState}
use nzbd.Engine.Queue.Totals.{no_totals}

pub record AddOpts : Type 0 where
  pub category : Option Text
  pub priority : ℤ
  pub seed_ratio_limit : Option ℕ
  pub seed_time_limit_secs : Option ℕ
  pub stop_seeding_on_complete : Option Bool
  pub dupe : Option DupeInfo
  pub paused : Bool
  pub params : List (Text × Text)
  pub client : Option Text

pub record TorrentAdmissionCommit : Type 0 where
  pub name : Text
  pub category : Option Text
  pub priority : ℤ
  pub paused : Bool
  pub params : List (Text × Text)
  pub torrent_record : TorrentRecord

-- `"torrents/pending/"` and `".source"`.
abbrev pending_dir : Text
pending_dir =
    b't' ∷ b'o' ∷ b'r' ∷ b'r' ∷ b'e' ∷ b'n' ∷ b't' ∷ b's' ∷ b'/' ∷ b'p' ∷ b'e' ∷ b'n' ∷ b'd' ∷ b'i'
    ∷ b'n' ∷ b'g' ∷ b'/' ∷ []

abbrev source_suffix : Text
source_suffix = b'.' ∷ b's' ∷ b'o' ∷ b'u' ∷ b'r' ∷ b'c' ∷ b'e' ∷ []

abbrev pub relative_ref : JobId → Text
relative_ref id = pending_dir ++ decimal id ++ source_suffix

abbrev pub new_pending : JobId → TorrentSource → AddOpts → PendingAdmission
new_pending job_id source opts = record {
  job_id = job_id;
  source = source;
  secret_ref = relative_ref job_id;
  category = opts.category;
  priority = opts.priority;
  paused = opts.paused;
  seed_ratio_limit = opts.seed_ratio_limit;
  seed_time_limit_secs = opts.seed_time_limit_secs;
  stop_seeding_on_complete = opts.stop_seeding_on_complete;
  params = opts.params;
  client = opts.client;
}

unfoldable pub reserve_torrent_admission : TorrentSource → AddOpts → QueueState → QueueState × JobId
reserve_torrent_admission source opts q =
    let job_id = (q.next_job_id + 1) % 2 ^ 32 in
    (
      record q {
        next_job_id = job_id;
        pending_admissions = q.pending_admissions ++ new_pending job_id source opts ∷ [];
      },
      job_id,
    )

-- `retain(|pending| pending.job_id != id)`.
unfoldable pub without : JobId → List PendingAdmission → List PendingAdmission
without id l = select (λ p. not (p.job_id == id)) l

-- What `cancel_torrent_admission` does; its answer is `cancelled`.
unfoldable pub cancel_torrent_admission : JobId → QueueState → QueueState
cancel_torrent_admission id q = record q { pending_admissions = without id q.pending_admissions }

-- Was a reservation there to be cancelled?
unfoldable pub cancelled : JobId → QueueState → Bool
unfolding without
cancelled id q = not (length q.pending_admissions == length (without id q.pending_admissions))

abbrev reserved_char : ℕ → Bool
reserved_char b = member b (47 ∷ 92 ∷ 58 ∷ 42 ∷ 63 ∷ 34 ∷ 60 ∷ 62 ∷ 124 ∷ 0 ∷ [])

abbrev underscore : ℕ
underscore = 95

-- The reserved and the control characters, U+0080 to U+009F among them, become underscores.
unfoldable pub clean_chars : Text → Text
clean_chars [] = []
clean_chars (b ∷ []) = (if reserved_char b || ltb b 32 || b == 127 then underscore else b) ∷ []
clean_chars (b ∷ c ∷ l) =
    let one = clean_chars (c ∷ l) in
    let two = clean_chars l in
    if b == 0xc2 && within 0x80 0x9f c
    then underscore ∷ two
    else (if reserved_char b || ltb b 32 || b == 127 then underscore else b) ∷ one

abbrev drop_dots : Text → Text
drop_dots [] = []
drop_dots (b ∷ l) = let rest = drop_dots l in if b == 46 then rest else b ∷ l

-- `trim_matches('.')`.
abbrev pub trim_dots : Text → Text
trim_dots s = reverse (drop_dots (reverse (drop_dots s)))

-- The first `n` characters: a continuation byte goes with the character before it.
unfoldable pub take_chars : ℕ → Text → Text
take_chars n [] = []
take_chars zero (b ∷ l) = []
take_chars (suc n) (b ∷ l) = b ∷ continued n l
  where
    continued : ℕ → Text → Text
    continued m [] = []
    continued zero (c ∷ k) =
        let rest = continued zero k in if within 0x80 0xbf c then c ∷ rest else []
    continued (suc m) (c ∷ k) =
        let same = continued (suc m) k in
        let next = continued m k in if within 0x80 0xbf c then c ∷ same else c ∷ next

-- `"unnamed"`.
abbrev unnamed : Text
unnamed = b'u' ∷ b'n' ∷ b'n' ∷ b'a' ∷ b'm' ∷ b'e' ∷ b'd' ∷ []

unfoldable pub sanitize_name : Text → Text
unfolding clean_chars take_chars
sanitize_name name =
    let trimmed = trim (trim_dots (trim (clean_chars name))) in
    take_chars 200 (if is_empty trimmed then unnamed else trimmed)

unfoldable pub unique_dir_name : List Job → JobId → Text → Text
unique_dir_name jobs id want =
    if any (λ j. not (j.id == id) && bytes_eq j.dir_name want) jobs
    then want ++ 46 ∷ decimal id
    else want

abbrev is_live : JobStatus → Bool
is_live JobStatus.failed = false
is_live deleted = false
is_live _ = true

abbrev has_hash : Text → Option TorrentRecord → Bool
has_hash h none = false
has_hash h (some t) = bytes_eq t.info_hash_v1 h

-- A job that holds the same torrent and has not come to an end.
unfoldable pub holds : Text → Job → Bool
holds h j = has_hash h j.torrent_record && is_live j.status

unfoldable pub put_param : Text → Text → List (Text × Text) → List (Text × Text)
put_param key value [] = (key, value) ∷ []
put_param key value ((k, v) ∷ l) =
    let rest = put_param key value l in if bytes_eq k key then (k, value) ∷ l else (k, v) ∷ rest

unfoldable pub put_params : List (Text × Text) → List (Text × Text) → List (Text × Text)
unfolding put_param
put_params [] l = l
put_params ((k, v) ∷ ps) l = put_params ps (put_param k v l)

-- The first job that holds the torrent takes the parameters.
unfoldable pub merge_params : Text → List (Text × Text) → List Job → List Job
unfolding holds put_params
merge_params h params [] = []
merge_params h params (j ∷ js) =
    let rest = merge_params h params js in
    if holds h j then record j { params = put_params params j.params } ∷ js else j ∷ rest

pub data Committed : Type 0 where
  unknown : Committed
  added duplicate_of : JobId → Committed

abbrev pub new_job : JobId → TorrentAdmissionCommit → Text → ℤ → Job
new_job id c dir_name now_unix = record {
  id = id;
  kind = torrent;
  name = c.name;
  dir_name = dir_name;
  name_provisional = false;
  queued_at_unix = now_unix;
  original_name = [];
  category = c.category;
  priority = c.priority;
  dupe = record { key = []; score = pos 0; mode = none };
  params = c.params;
  files = [];
  totals = record no_totals { size = c.torrent_record.total_bytes };
  status = if c.paused then paused else queued;
  torrent_record = some c.torrent_record;
  stages = [];
}

abbrev pub commit_known :
    JobId → TorrentAdmissionCommit → ℤ → QueueState → Option Job → QueueState × Committed
commit_known id c now_unix q (some existing) = (
  record (cancel_torrent_admission id q) {
    jobs = merge_params c.torrent_record.info_hash_v1 c.params q.jobs;
  },
  duplicate_of existing.id,
)
commit_known id c now_unix q none = (
  record (cancel_torrent_admission id q) {
    jobs = q.jobs ++ new_job id c (unique_dir_name q.jobs id (sanitize_name c.name)) now_unix ∷ [];
  },
  added id,
)

unfoldable pub commit_torrent_admission :
    JobId → TorrentAdmissionCommit → ℤ → QueueState → QueueState × Committed
commit_torrent_admission id c now_unix q =
    if any (λ p. p.job_id == id) q.pending_admissions
    then commit_known id c now_unix q (find (holds c.torrent_record.info_hash_v1) q.jobs)
    else (q, unknown)
