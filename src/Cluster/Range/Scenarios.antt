-- ===== src/Cluster/Range/Scenarios.antt =====
-- The ranges of a job with one file of 65 articles.
use nzbd.Prelude.{
  ℕ, zero, suc, ◌+◌, ◌/◌, ◌^◌, ◌<◌, ◌≡◌, refl, Bool, true, false, List, [], ◌∷◌, map, Option, none,
  some, arith, All, length, find, ◌==◌, get_elem?,
}
use nzbd.Prelude.Int.{pos}
use nzbd.Types.Job.{FileEntry, Segment, Job, nzb, pending, downloading}
use nzbd.Engine.Queue.Totals.{no_totals}
use nzbd.Cluster.Range.{
  RangeScope, scopes, is_split_candidate, is_unpaused, work_view, work_dir, chunks, number_chunks,
}
use nzbd.Cluster.Range.Split.{Increasing, flattened, articles, work_views-split}

abbrev pub articles_from : ℕ → ℕ → List Segment
articles_from zero number = []
articles_from (suc n) number =
    record { message_id = []; number = number; size = 10; state = pending }
    ∷ articles_from n (suc number)

above :
    (n number bound : ℕ)
    → bound < number
    → All (λ (t : Segment). bound < t.number) (articles_from n number)
above zero number bound h = tt
above (suc n) number bound h = (h, above n (suc number) bound (omega arith))

articles_from-Increasing : (n number : ℕ) → Increasing (articles_from n number)
articles_from-Increasing zero number = tt
articles_from-Increasing (suc n) number =
    (above n (suc number) number (omega arith), articles_from-Increasing n (suc number))

abbrev pub large_file : FileEntry
large_file = record {
  id = 3;
  subject = [];
  filename = 102 ∷ [];
  filename_confirmed = true;
  is_par2 = false;
  paused = false;
  groups = [];
  date = none;
  segments = articles_from 65 1;
  crc32 = none;
  finalized = false;
}

abbrev pub large_job : Job
large_job = record {
  id = 12;
  kind = nzb;
  name = [];
  dir_name = [];
  name_provisional = false;
  queued_at_unix = pos 0;
  original_name = [];
  category = none;
  priority = pos 0;
  dupe = record { key = []; score = pos 0; mode = none };
  params = [];
  files = record large_file { id = 2; paused = true } ∷ large_file ∷ [];
  totals = no_totals;
  status = downloading;
  torrent_record = none;
  stages = [];
}

abbrev last_range : RangeScope
last_range = record {
  job_id = 12;
  file_id = 3;
  first_article = 65;
  last_article = 65;
  range_index = 2;
  range_count = 3;
}

runs : Unit {0}
unfolding scopes is_split_candidate is_unpaused chunks number_chunks work_dir
runs = tt

three_ranges : get_elem? (scopes large_job) 2 ≡ some last_range
unfolding runs
three_ranges = refl

is_split : is_split_candidate large_job ≡ true
unfolding runs
is_split = refl

few : length (scopes large_job) < 2 ^ 32
unfolding runs
few = omega arith

fetched : find is_unpaused large_job.files ≡ some large_file
unfolding runs
fetched = refl

-- `".nzbd-cluster/range-work/job-12/file-3/65-65-fence-7"` ends in the numbers.
range_dir :
    work_dir last_range 7
    ≡ b'.' ∷ b'n' ∷ b'z' ∷ b'b' ∷ b'd' ∷ b'-' ∷ b'c' ∷ b'l' ∷ b'u' ∷ b's' ∷ b't' ∷ b'e' ∷ b'r'
      ∷ b'/' ∷ b'r' ∷ b'a' ∷ b'n' ∷ b'g' ∷ b'e' ∷ b'-' ∷ b'w' ∷ b'o' ∷ b'r' ∷ b'k' ∷ b'/' ∷ b'j'
      ∷ b'o' ∷ b'b' ∷ b'-' ∷ b'1' ∷ b'2' ∷ b'/' ∷ b'f' ∷ b'i' ∷ b'l' ∷ b'e' ∷ b'-' ∷ b'3' ∷ b'/'
      ∷ b'6' ∷ b'5' ∷ b'-' ∷ b'6' ∷ b'5' ∷ b'-' ∷ b'f' ∷ b'e' ∷ b'n' ∷ b'c' ∷ b'e' ∷ b'-' ∷ b'7'
      ∷ []
unfolding runs nzbd.Prelude.Decimal.decimal
range_dir = refl

work_views-split_example :
    (flattened (map (λ r. articles (work_view large_job r 7)) (scopes large_job))
      ≡ articles_from 65 1)
    × (length (scopes large_job) ≡ (65 + 31) / 32)
work_views-split_example =
    work_views-split large_job large_file 7 is_split fetched refl (articles_from-Increasing 65 1)
