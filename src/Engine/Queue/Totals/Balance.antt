-- ===== src/Engine/Queue/Totals/Balance.antt =====
-- crates/nzbd-engine/src/queue.rs: the totals of a job are the sums that they stand for.
use nzbd.Prelude.{ℕ, ◌+◌, ◌≤◌, ◌≡◌, refl, Bool, true, false, List, [], ◌∷◌, if◌then◌else◌, arith}
use nzbd.Types.Job.{
  Job, JobTotals, FileEntry, Segment, SegmentState, pending, leased, done, is_done,
}
use nzbd.Engine.Queue.Totals.{
  no_totals, add_segment, add_segments, add_files, recompute_job_totals, is_open,
}

-- The bytes and the number of the segments of a state.
pub weigh : (SegmentState → Bool) → List Segment → ℕ
weigh p [] = 0
weigh p (s ∷ rest) = (if p s.state then s.size else 0) + weigh p rest

pub tally : (SegmentState → Bool) → List Segment → ℕ
tally p [] = 0
tally p (s ∷ rest) = (if p s.state then 1 else 0) + tally p rest

-- A sum over the files that pass a test.
pub over_files : (FileEntry → Bool) → (List Segment → ℕ) → List FileEntry → ℕ
over_files q g [] = 0
over_files q g (f ∷ rest) = (if q f then g f.segments else 0) + over_files q g rest

abbrev pub is_failed : SegmentState → Bool
is_failed SegmentState.failed = true
is_failed pending = false
is_failed (leased s) = false
is_failed (done o l c) = false

abbrev pub any_state : SegmentState → Bool
any_state s = true

abbrev pub every_file : FileEntry → Bool
every_file f = true

abbrev pub par_file : FileEntry → Bool
par_file f = f.is_par2

-- The totals `u` are the totals `t` and the segments' sums.
record Adds (par : Bool) (t : JobTotals) (l : List Segment) (u : JobTotals) : Type 0 where
  size : u.size ≡ t.size + weigh any_state l
  par_size : u.par_size ≡ t.par_size + (if par then weigh any_state l else 0)
  failed_size : u.failed_size ≡ t.failed_size + weigh is_failed l
  failed_par_size : u.failed_par_size ≡ t.failed_par_size + (if par then weigh is_failed l else 0)
  success_size : u.success_size ≡ t.success_size + weigh is_done l
  total_articles : u.total_articles ≡ t.total_articles + tally any_state l
  success_articles : u.success_articles ≡ t.success_articles + tally is_done l
  failed_articles : u.failed_articles ≡ t.failed_articles + tally is_failed l

add_segment-Adds :
    (par : Bool) (t : JobTotals) (s : Segment) → Adds par t (s ∷ []) (add_segment par t s)
unfolding add_segment weigh tally
add_segment-Adds par t s = ground arith

Adds-trans :
    (par : Bool) (t u v : JobTotals) (s : Segment) (rest : List Segment)
    → Adds par t (s ∷ []) u
    → Adds par u rest v
    → Adds par t (s ∷ rest) v
unfolding weigh tally
Adds-trans par t u v s rest h k = ground arith

add_segments-Adds :
    (par : Bool) (t : JobTotals) (l : List Segment) → Adds par t l (add_segments par t l)
unfolding add_segments weigh tally
add_segments-Adds par t [] = ground arith
add_segments-Adds par t (s ∷ rest) =
    Adds-trans par t (add_segment par t s) _ s rest (add_segment-Adds par t s)
      (add_segments-Adds par (add_segment par t s) rest)

-- The totals `u` are the totals `t` and the files' sums.
record AddsFiles (t : JobTotals) (l : List FileEntry) (u : JobTotals) : Type 0 where
  size : u.size ≡ t.size + over_files every_file (weigh any_state) l
  par_size : u.par_size ≡ t.par_size + over_files par_file (weigh any_state) l
  failed_size : u.failed_size ≡ t.failed_size + over_files every_file (weigh is_failed) l
  failed_par_size : u.failed_par_size ≡ t.failed_par_size + over_files par_file (weigh is_failed) l
  success_size : u.success_size ≡ t.success_size + over_files every_file (weigh is_done) l
  total_articles : u.total_articles ≡ t.total_articles + over_files every_file (tally any_state) l
  success_articles :
      u.success_articles ≡ t.success_articles + over_files every_file (tally is_done) l
  failed_articles :
      u.failed_articles ≡ t.failed_articles + over_files every_file (tally is_failed) l

AddsFiles-trans :
    (t u v : JobTotals) (f : FileEntry) (rest : List FileEntry)
    → Adds f.is_par2 t f.segments u
    → AddsFiles u rest v
    → AddsFiles t (f ∷ rest) v
unfolding over_files
AddsFiles-trans t u v f rest h k = ground arith

add_files-AddsFiles : (t : JobTotals) (l : List FileEntry) → AddsFiles t l (add_files t l)
unfolding add_files over_files
add_files-AddsFiles t [] = ground arith
add_files-AddsFiles t (f ∷ rest) =
    AddsFiles-trans t (add_segments f.is_par2 t f.segments) _ f rest
      (add_segments-Adds f.is_par2 t f.segments)
      (add_files-AddsFiles (add_segments f.is_par2 t f.segments) rest)

-- The one pass of `recompute_job_totals` computes each of the eight totals as the sum it stands for:
-- the sizes and numbers of all segments, of those done and of those failed, and, over the par2 files
-- alone, the sizes of all segments and of the failed ones.
pub totals_are_sums :
    (j : Job)
    → let t = (recompute_job_totals j).totals in
      (t.size ≡ over_files every_file (weigh any_state) j.files)
      × (t.par_size ≡ over_files par_file (weigh any_state) j.files)
      × (t.failed_size ≡ over_files every_file (weigh is_failed) j.files)
      × (t.failed_par_size ≡ over_files par_file (weigh is_failed) j.files)
      × (t.success_size ≡ over_files every_file (weigh is_done) j.files)
      × (t.total_articles ≡ over_files every_file (tally any_state) j.files)
      × (t.success_articles ≡ over_files every_file (tally is_done) j.files)
      × (t.failed_articles ≡ over_files every_file (tally is_failed) j.files)
unfolding recompute_job_totals
totals_are_sums j = let h = add_files-AddsFiles no_totals j.files in omega (arith, h)

weigh_split :
    (l : List Segment) → weigh any_state l ≡ weigh is_done l + weigh is_failed l + weigh is_open l
unfolding weigh
weigh_split [] = refl
weigh_split (s ∷ rest) = ground (arith, weigh_split rest)

files_split :
    (l : List FileEntry)
    → (over_files every_file (weigh any_state) l
        ≡ over_files every_file (weigh is_done) l
          + over_files every_file (weigh is_failed) l
          + over_files every_file (weigh is_open) l)
      × (over_files par_file (weigh is_failed) l ≤ over_files every_file (weigh is_failed) l)
      × (over_files par_file (weigh is_failed) l ≤ over_files par_file (weigh any_state) l)
      × (over_files par_file (weigh any_state) l + over_files every_file (weigh is_failed) l
          ≤ over_files every_file (weigh any_state) l + over_files par_file (weigh is_failed) l)
unfolding over_files
files_split [] = omega arith
files_split (f ∷ rest) = ground (arith, files_split rest, weigh_split f.segments)

-- The totals balance: every byte is done, failed or open, and with the par2 bytes inside the whole
-- and the failed par2 bytes inside both the failed and the par2 bytes, the failed payload is within
-- the payload.
pub totals_balance :
    (j : Job)
    → let t = (recompute_job_totals j).totals in
      (t.size ≡ t.success_size + t.failed_size + over_files every_file (weigh is_open) j.files)
      × (t.failed_par_size ≤ t.failed_size)
      × (t.failed_par_size ≤ t.par_size)
      × (t.par_size + t.failed_size ≤ t.size + t.failed_par_size)
totals_balance j = omega (arith, totals_are_sums j, files_split j.files)
