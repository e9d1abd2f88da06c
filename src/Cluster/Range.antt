-- ===== src/Cluster/Range.antt =====
-- crates/nzbd-cluster/src/range.rs: one file's articles cut into ranges, and the job that a range is.
pub mod Split
pub mod Assembly
mod Scenarios
use nzbd.Prelude.{
  ℕ, zero, suc, ◌+◌, ◌/◌, ◌%◌, ◌^◌, ◌*◌, Bool, true, false, not, ◌&&◌, ◌||◌, List, [], ◌∷◌, ◌++◌,
  Option, none, some, if◌then◌else◌, ltb, leb, ◌==◌, find, select, length, take, drop, is_empty,
}
use nzbd.Prelude.Decimal.{decimal}
use nzbd.Types.Torrent.{Text}
use nzbd.Types.Job.{Job, FileEntry, Segment, queued}
use nzbd.Engine.Queue.Totals.{recompute_job_totals}

abbrev pub target_articles : ℕ
target_articles = 32

pub record RangeScope : Type 0 where
  pub job_id : ℕ
  pub file_id : ℕ
  pub first_article : ℕ
  pub last_article : ℕ
  pub range_index : ℕ
  pub range_count : ℕ

-- `slice::chunks`: on fuel, one unit for each element, since a chunk has at least one.
unfoldable pub chunks_on : ℕ → List Segment → List (List Segment)
chunks_on zero l = []
chunks_on (suc fuel) [] = []
chunks_on (suc fuel) (s ∷ l) =
    take target_articles (s ∷ l) ∷ chunks_on fuel (drop target_articles (s ∷ l))

unfoldable pub chunks : List Segment → List (List Segment)
unfolding chunks_on
chunks l = chunks_on (length l) l

-- `chunk.first().unwrap().number` and `chunk.last().unwrap().number`: no chunk is empty.
abbrev pub first_number : List Segment → ℕ
first_number [] = 0
first_number (s ∷ l) = s.number

abbrev pub last_number : List Segment → ℕ
last_number [] = 0
last_number (s ∷ []) = s.number
last_number (s ∷ t ∷ l) = last_number (t ∷ l)

abbrev pub scope_of : Job → FileEntry → ℕ → ℕ → List Segment → RangeScope
scope_of j f count index chunk = record {
  job_id = j.id;
  file_id = f.id;
  first_article = first_number chunk;
  last_article = last_number chunk;
  range_index = index % 2 ^ 32;
  range_count = count % 2 ^ 32;
}

-- `enumerate` and `map`.
unfoldable pub number_chunks : Job → FileEntry → ℕ → ℕ → List (List Segment) → List RangeScope
number_chunks j f count index [] = []
number_chunks j f count index (c ∷ cs) =
    scope_of j f count index c ∷ number_chunks j f count (suc index) cs

-- `div_ceil`.
abbrev pub div_ceil : ℕ → ℕ
div_ceil n = (n + 31) / target_articles

unfoldable pub is_unpaused : FileEntry → Bool
is_unpaused f = not f.paused

abbrev pub scopes_of : Job → Option FileEntry → List RangeScope
scopes_of j none = []
scopes_of j (some f) =
    if not (length (select is_unpaused j.files) == 1)
      || ltb (length f.segments) (target_articles * 2)
    then []
    else number_chunks j f (div_ceil (length f.segments)) 0 (chunks f.segments)

unfoldable pub scopes : Job → List RangeScope
unfolding number_chunks chunks is_unpaused
scopes j = scopes_of j (find is_unpaused j.files)

unfoldable pub is_split_candidate : Job → Bool
is_split_candidate j = not (is_empty (scopes j))

pub data RangeError : Type 0 where
  file_disappeared no_articles : RangeError

pub data Outcome : Type 0 where
  viewed : Job → Outcome
  refused : RangeError → Outcome

abbrev pub in_scope : RangeScope → Segment → Bool
in_scope r s = leb r.first_article s.number && leb s.number r.last_article

-- `".nzbd-cluster/range-work/job-"`, `"/file-"`, `"/"`, `"-"` and `"-fence-"`.
abbrev work_root : Text
work_root =
    b'.' ∷ b'n' ∷ b'z' ∷ b'b' ∷ b'd' ∷ b'-' ∷ b'c' ∷ b'l' ∷ b'u' ∷ b's' ∷ b't' ∷ b'e' ∷ b'r' ∷ b'/'
    ∷ b'r' ∷ b'a' ∷ b'n' ∷ b'g' ∷ b'e' ∷ b'-' ∷ b'w' ∷ b'o' ∷ b'r' ∷ b'k' ∷ b'/' ∷ b'j' ∷ b'o'
    ∷ b'b' ∷ b'-' ∷ []

abbrev pub file_mark : Text
file_mark = b'/' ∷ b'f' ∷ b'i' ∷ b'l' ∷ b'e' ∷ b'-' ∷ []

abbrev pub slash : Text
slash = b'/' ∷ []

abbrev pub hyphen : Text
hyphen = b'-' ∷ []

abbrev pub fence_mark : Text
fence_mark = b'-' ∷ b'f' ∷ b'e' ∷ b'n' ∷ b'c' ∷ b'e' ∷ b'-' ∷ []

unfoldable pub work_dir : RangeScope → ℕ → Text
work_dir r fence =
    work_root
    ++ decimal r.job_id
    ++ file_mark
    ++ decimal r.file_id
    ++ slash
    ++ decimal r.first_article
    ++ hyphen
    ++ decimal r.last_article
    ++ fence_mark
    ++ decimal fence

abbrev pub viewed_job : Job → RangeScope → ℕ → FileEntry → Job
viewed_job j r fence f = recompute_job_totals (record j {
  files =
      record f { segments = select (in_scope r) f.segments; finalized = false; crc32 = none } ∷ [];
  dir_name = work_dir r fence;
  status = queued;
})

abbrev pub view_of : Job → RangeScope → ℕ → Option FileEntry → Outcome
view_of j r fence none = refused file_disappeared
view_of j r fence (some f) =
    if is_empty (select (in_scope r) f.segments)
    then refused no_articles
    else viewed (viewed_job j r fence f)

unfoldable pub work_view : Job → RangeScope → ℕ → Outcome
work_view j r fence = view_of j r fence (find (λ f. f.id == r.file_id) j.files)
