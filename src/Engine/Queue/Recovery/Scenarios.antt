-- ===== src/Engine/Queue/Recovery/Scenarios.antt =====
-- The choice of recovery volumes for a job with three paused par2 files.
use nzbd.Prelude.{ℕ, ◌≡◌, refl, true, false, List, [], ◌∷◌, none, some, arith}
use nzbd.Prelude.Int.{pos}
use nzbd.Types.Torrent.{Text}
use nzbd.Types.Job.{FileId, FileEntry, Job, nzb, pending, queued}
use nzbd.Engine.Queue.Totals.{no_totals}
use nzbd.Engine.Queue.Recovery.{vol_par_blocks, pick_par_files}
use nzbd.Engine.Queue.Recovery.Picks.{total, Covers, picks_cover}

-- `"x.vol03+04.par2"` and `"x.vol000-003.PAR2"`.
abbrev counted_name : Text
counted_name = 120 ∷ 46 ∷ 118 ∷ 111 ∷ 108 ∷ 48 ∷ 51 ∷ 43 ∷ 48 ∷ 52 ∷ 46 ∷ 112 ∷ 97 ∷ 114 ∷ 50 ∷ []

abbrev ranged_name : Text
ranged_name =
    120 ∷ 46 ∷ 118 ∷ 111 ∷ 108 ∷ 48 ∷ 48 ∷ 48 ∷ 45 ∷ 48 ∷ 48 ∷ 51 ∷ 46 ∷ 80 ∷ 65 ∷ 82 ∷ 50 ∷ []

counted_blocks : vol_par_blocks counted_name ≡ some 4
unfolding vol_par_blocks
counted_blocks = refl

ranged_blocks : vol_par_blocks ranged_name ≡ some 4
unfolding vol_par_blocks
ranged_blocks = refl

nameless_blocks : vol_par_blocks (97 ∷ []) ≡ none
unfolding vol_par_blocks
nameless_blocks = refl

abbrev candidates : List (FileId × ℕ)
candidates = (5, 4) ∷ (6, 1) ∷ (7, 2) ∷ []

largest_first : pick_par_files candidates 5 ≡ 5 ∷ 7 ∷ []
unfolding pick_par_files
largest_first = refl

picks_cover_example : Covers candidates 0 5 (pick_par_files candidates 5)
unfolding total
picks_cover_example = picks_cover candidates 5 (omega arith) (omega arith) (omega arith)

abbrev volume : FileEntry
volume = record {
  id = 5;
  subject = [];
  filename = counted_name;
  filename_confirmed = false;
  is_par2 = true;
  paused = true;
  groups = [];
  date = none;
  segments = record { message_id = []; number = 1; size = 700; state = pending } ∷ [];
  crc32 = none;
  finalized = false;
}

abbrev job : Job
job = record {
  id = 1;
  kind = nzb;
  name = [];
  dir_name = [];
  name_provisional = false;
  queued_at_unix = pos 0;
  original_name = [];
  category = none;
  priority = pos 0;
  dupe = record { key = []; score = pos 0; mode = none };
  params = [];
  files = volume ∷ record volume { id = 6; filename = 97 ∷ [] } ∷ [];
  totals = no_totals;
  status = queued;
  torrent_record = none;
  stages = [];
}
