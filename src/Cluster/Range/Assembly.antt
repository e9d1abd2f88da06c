-- ===== src/Cluster/Range/Assembly.antt =====
-- crates/nzbd-cluster/src/range.rs: `assemble`, one file put together from accepted ranges. What the
-- files of a range hold, the checksum, and whether the output's files obey are answers of `Disk`.
pub mod Tiles
mod Steps
pub mod Reading
mod Settling
pub mod Intact
mod Scenarios
use nzbd.Prelude.{
  ℕ, zero, suc, ◌+◌, ◌-◌, ◌^◌, ◌≤◌, Bool, true, false, not, ◌&&◌, ◌||◌, List, [], ◌∷◌, ◌++◌, map,
  Option, none, some, if◌then◌else◌, ltb, leb, ◌==◌, find, select, length, take, drop, get_elem?,
  is_empty, all, any, min, max, bytes_eq,
}
use nzbd.Prelude.Maps.{get, put, remove, update_first}
use nzbd.Prelude.Sort.{stable_sort}
use nzbd.Prelude.Decimal.{decimal}
use nzbd.Types.Torrent.{Text}
use nzbd.Types.Job.{Job, FileEntry, Segment, SegmentState, pending, leased, done, failed, completed}
use nzbd.Engine.Queue.Totals.{recompute_job_totals}
use nzbd.Cluster.Range.{RangeScope, scopes, file_mark, slash, hyphen, fence_mark}

pub record AcceptedRange : Type 0 where
  pub scope : RangeScope
  pub result_ref : Text

pub record AssembleScope : Type 0 where
  pub job_id : ℕ
  pub file_id : ℕ
  pub ranges : List AcceptedRange

pub data AssemblyError : Type 0 where
  another_job not_the_ranges overlap_or_gap file_disappeared io_failed : AssemblyError
  identity_mismatch another_file job_mismatch escaped not_complete crc_mismatch : AssemblyError
  supplied_twice no_range outside byte_gap incomplete whole_crc_mismatch : AssemblyError

pub data Result (A : Type 0) : Type 0 where
  ok : A → Result A
  err : AssemblyError → Result A

infixl 5 ◌>>=◌ ◌>>◌
abbrev pub ◌>>=◌ : {A B : Type 0} → Result A → (A → Result B) → Result B
ok a >>= f = f a
err e >>= f = err e

abbrev pub ◌>>◌ : {A B : Type 0} → Result A → Result B → Result B
m >> k = m >>= λ _. k

abbrev pub require : Bool → AssemblyError → Result (Unit {0})
require true e = ok tt
require false e = err e

abbrev pub ok_or : {A : Type 0} → Option A → AssemblyError → Result A
ok_or none e = err e
ok_or (some a) e = ok a

-- `partial` is a range's job.json, when it can be read and decoded; `payload` is what a file of a
-- range holds; the others are the outcomes of the output's creation, of the write of an article, and
-- of the flushing, publishing and reading back at the end.
pub record Disk : Type 0 where
  pub partial : Text → Option Job
  pub payload : Text → Text → Option (List ℕ)
  pub hash : List ℕ → ℕ
  pub creates : Bool
  pub writes : ℕ → Bool
  pub publishes : Bool

-- `"work/job/"` and `"/articles/"`.
abbrev work_job : Text
work_job = b'w' ∷ b'o' ∷ b'r' ∷ b'k' ∷ b'/' ∷ b'j' ∷ b'o' ∷ b'b' ∷ b'/' ∷ []

abbrev articles_mark : Text
articles_mark = b'/' ∷ b'a' ∷ b'r' ∷ b't' ∷ b'i' ∷ b'c' ∷ b'l' ∷ b'e' ∷ b's' ∷ b'/' ∷ []

abbrev slash_file : Text
slash_file = b'/' ∷ b'f' ∷ b'i' ∷ b'l' ∷ b'e' ∷ b'/' ∷ []

unfoldable pub resource : RangeScope → Text
resource r =
    work_job
    ++ decimal r.job_id
    ++ slash_file
    ++ decimal r.file_id
    ++ articles_mark
    ++ decimal r.first_article
    ++ hyphen
    ++ decimal r.last_article

abbrev pub has_text : List Text → Text → Bool
has_text l t = any (bytes_eq t) l

unfoldable pub all_different : List Text → Bool
all_different [] = true
all_different (t ∷ l) = not (has_text l t) && all_different l

-- The equality of two sets, and the size of one of them.
unfoldable pub same_resources : List Text → List Text → Bool
unfolding all_different
same_resources expected supplied =
    all (has_text supplied) expected && all (has_text expected) supplied && all_different supplied

-- A part as it is written: its article, where it starts, its bytes, and the state it was read by.
pub record Part : Type 0 where
  pub number : ℕ
  pub start : ℕ
  pub bytes : List ℕ
  pub state : SegmentState

-- `offset.saturating_add(len)`.
abbrev pub part_end : Part → ℕ
part_end p = min (p.start + length p.bytes) (2 ^ 64 - 1)

-- `seek` and `read_exact`.
abbrev pub read_exact : ℕ → ℕ → List ℕ → Result (List ℕ)
read_exact offset len file =
    if leb (offset + len) (length file) then ok (take len (drop offset file)) else err io_failed

abbrev pub read_done : Disk → ℕ → List ℕ → SegmentState → Result Part
read_done d number file (done offset len crc) = do
  bytes ← read_exact offset len file
  require (d.hash bytes == crc) crc_mismatch
  require (d.writes number) io_failed
  ok (record { number = number; start = offset; bytes = bytes; state = done offset len crc })
read_done d number file pending = err not_complete
read_done d number file (leased s) = err not_complete
read_done d number file failed = err not_complete

-- One article of a range; `parts` are those before it, the latest first.
unfoldable pub read_part : Disk → RangeScope → List ℕ → List Part → Segment → Result (List Part)
read_part d r file parts s = do
  require (leb r.first_article s.number && leb s.number r.last_article) escaped
  p ← read_done d s.number file s.state
  require (not (any (λ (q : Part). q.number == s.number) parts)) supplied_twice
  ok (p ∷ parts)

unfoldable pub read_parts :
    Disk → RangeScope → List ℕ → List Part → List Segment → Result (List Part)
unfolding read_part
read_parts d r file parts [] = ok parts
read_parts d r file parts (s ∷ l) = read_part d r file parts s >>= λ ps. read_parts d r file ps l

abbrev pub is_this_file : ℕ → FileEntry → Bool
is_this_file id f = f.id == id

unfoldable pub read_range :
    Disk → AssembleScope → Job → Text → List Part → AcceptedRange → Result (List Part)
unfolding read_parts
read_range d sc j filename parts a = do
  require (a.scope.job_id == sc.job_id && a.scope.file_id == sc.file_id) identity_mismatch
  partial ← ok_or (d.partial a.result_ref) io_failed
  f ← ok_or (find (is_this_file sc.file_id) partial.files) another_file
  require (partial.id == j.id && length partial.files == 1 && bytes_eq f.filename filename)
      job_mismatch
  file ← ok_or (d.payload a.result_ref f.filename) io_failed
  read_parts d a.scope file parts f.segments

unfoldable pub read_ranges :
    Disk → AssembleScope → Job → Text → List Part → List AcceptedRange → Result (List Part)
unfolding read_range
read_ranges d sc j filename parts [] = ok parts
read_ranges d sc j filename parts (a ∷ l) =
    read_range d sc j filename parts a >>= λ ps. read_ranges d sc j filename ps l

abbrev pub state_of : List Part → ℕ → Option SegmentState
state_of [] n = none
state_of (p ∷ l) n = let rest = state_of l n in if p.number == n then some p.state else rest

abbrev pub without_part : ℕ → List Part → List Part
without_part n = select (λ (p : Part). not (p.number == n))

-- `terminal.remove` for each article of the file; what is left over must be empty.
unfoldable pub settle_segments : List Part → List Segment → Result (List Segment)
settle_segments parts [] = do require (is_empty parts) outside; ok []
settle_segments parts (s ∷ l) = do
  state ← ok_or (state_of parts s.number) no_range
  rest ← settle_segments (without_part s.number parts) l
  ok (record s { state = state } ∷ rest)

-- `sort_unstable_by_key`: parts that start at one place leave a gap in whichever order they come.
abbrev pub starts_before : Part → Part → Bool
starts_before p q = leb p.start q.start

unfoldable pub cursor_after : ℕ → List Part → Result ℕ
cursor_after cursor [] = ok cursor
cursor_after cursor (p ∷ l) =
    require (p.start == cursor && ltb p.start (part_end p)) byte_gap >> cursor_after (part_end p) l

unfoldable pub file_size : List Part → ℕ
file_size [] = 0
file_size (p ∷ l) = max (part_end p) (file_size l)

-- The byte that the last write at a place left there; nothing was written elsewhere.
unfoldable pub byte_at : List Part → ℕ → ℕ
byte_at [] n = 0
byte_at (p ∷ l) n = elim (get_elem? p.bytes (n - p.start)) [
  | none ↦ byte_at l n
  | some b ↦ if leb p.start n then b else byte_at l n
]

unfoldable pub read_back : List Part → ℕ → ℕ → List ℕ
read_back parts start zero = []
read_back parts start (suc n) = byte_at parts start ∷ read_back parts (suc start) n

-- `".nzbd-cluster/assembly/job-"` and `"*Cluster:original-dir"`.
abbrev assembly_root : Text
assembly_root =
    b'.' ∷ b'n' ∷ b'z' ∷ b'b' ∷ b'd' ∷ b'-' ∷ b'c' ∷ b'l' ∷ b'u' ∷ b's' ∷ b't' ∷ b'e' ∷ b'r' ∷ b'/'
    ∷ b'a' ∷ b's' ∷ b's' ∷ b'e' ∷ b'm' ∷ b'b' ∷ b'l' ∷ b'y' ∷ b'/' ∷ b'j' ∷ b'o' ∷ b'b' ∷ b'-' ∷ []

abbrev original_dir : Text
original_dir =
    b'*' ∷ b'C' ∷ b'l' ∷ b'u' ∷ b's' ∷ b't' ∷ b'e' ∷ b'r' ∷ b':' ∷ b'o' ∷ b'r' ∷ b'i' ∷ b'g' ∷ b'i'
    ∷ b'n' ∷ b'a' ∷ b'l' ∷ b'-' ∷ b'd' ∷ b'i' ∷ b'r' ∷ []

abbrev slash_fence : Text
slash_fence = b'/' ∷ b'f' ∷ b'e' ∷ b'n' ∷ b'c' ∷ b'e' ∷ b'-' ∷ []

unfoldable pub private_dir : AssembleScope → ℕ → Text
private_dir sc fence =
    assembly_root
    ++ decimal sc.job_id
    ++ file_mark
    ++ decimal sc.file_id
    ++ slash_fence
    ++ decimal fence

abbrev pub assembled_file : List Segment → ℕ → FileEntry → FileEntry
assembled_file segments crc f = record f { segments = segments; crc32 = some crc; finalized = true }

abbrev pub assembled_job : AssembleScope → ℕ → List Segment → ℕ → Job → Job
assembled_job sc fence segments crc j = recompute_job_totals (record j {
  files =
      select (is_this_file sc.file_id)
        (update_first (is_this_file sc.file_id) (assembled_file segments crc) j.files);
  dir_name = private_dir sc fence;
  status = completed;
  params = j.params ++ (original_dir, j.dir_name) ∷ [];
})

abbrev pub crc_agrees : Option ℕ → ℕ → Bool
crc_agrees none crc = true
crc_agrees (some advertised) crc = advertised == crc

-- The job, and the bytes of the file that is published.
unfoldable pub assemble : Disk → Job → AssembleScope → ℕ → Result (Job × List ℕ)
assemble d j sc fence = do
  require (sc.job_id == j.id) another_job
  require (not (is_empty (scopes j)) && length (scopes j) == length sc.ranges) not_the_ranges
  require
      (same_resources (map resource (scopes j))
        (map (λ (a : AcceptedRange). resource a.scope) sc.ranges))
      overlap_or_gap
  f ← ok_or (find (is_this_file sc.file_id) j.files) file_disappeared
  require d.creates io_failed
  parts ← read_ranges d sc j f.filename [] sc.ranges
  segments ← settle_segments parts f.segments
  cursor ← cursor_after 0 (stable_sort starts_before parts)
  require (cursor == file_size parts) incomplete
  require d.publishes io_failed
  let bytes = read_back parts 0 (file_size parts)
  require (crc_agrees f.crc32 (d.hash bytes)) whole_crc_mismatch
  ok (assembled_job sc fence segments (d.hash bytes) j, bytes)
