-- ===== src/Engine/Queue/Recovery.antt =====
-- crates/nzbd-engine/src/queue.rs: which paused par2 files a repair unpauses. A filename is its bytes.
pub mod Picks
pub mod Prices
mod Scenarios
use nzbd.Prelude.{
  ℕ, zero, suc, ◌+◌, ◌-◌, ◌/◌, ◌%◌, ◌^◌, max, min, Bool, true, false, ◌&&◌, List, [], ◌∷◌, ◌++◌,
  map, reverse, Option, none, some, and_then, if◌then◌else◌, leb, ltb, ◌==◌, find, select,
}
use nzbd.Prelude.Sort.{stable_sort}
use nzbd.Types.Torrent.{Text}
use nzbd.Types.Job.{FileId, FileEntry, Segment, Job}
use nzbd.Yenc.StdText.{within, digits_from, parse_unsigned}
use nzbd.Yenc.Lines.{starts_with}

-- `to_ascii_lowercase` of a byte, which leaves the bytes of longer characters alone.
abbrev pub ascii_lower : ℕ → ℕ
ascii_lower b = if within 65 90 b then b + 32 else b

-- What follows the last place where the needle starts (`rfind`), for a needle of four bytes.
unfoldable pub after_last : Text → Text → Option Text
unfolding starts_with
after_last needle [] = none
after_last needle (b ∷ bs) =
    let here = if starts_with (b ∷ bs) needle then some (drop4 (b ∷ bs)) else none in
    elim (after_last needle bs) [ some rest ↦ some rest | none ↦ here ]
  where
    drop4 : Text → Text
    drop4 (a ∷ b ∷ c ∷ d ∷ rest) = rest
    drop4 _ = []

-- The leading ASCII digits.
unfoldable pub leading_digits : Text → Text
leading_digits [] = []
leading_digits (b ∷ bs) = let rest = leading_digits bs in if within 48 57 b then b ∷ rest else []

-- `digits`: the leading digits as a `u32`.
unfoldable pub digits : Text → Option ℕ
unfolding leading_digits parse_unsigned digits_from
digits s = parse_unsigned 10 (2 ^ 32 - 1) (leading_digits s)

-- The first `+` or `-`, and what follows it.
unfoldable pub separator : Text → Option (ℕ × Text)
separator [] = none
separator (b ∷ bs) =
    let later = separator bs in
    if b == 43 then some (b, bs) else if b == 45 then some (b, bs) else later

-- `".vol"`.
abbrev vol_mark : Text
vol_mark = 46 ∷ 118 ∷ 111 ∷ 108 ∷ []

-- `checked_sub` and the `u32` sum `n + 1`.
abbrev range_blocks : ℕ → ℕ → Option ℕ
range_blocks count start = if leb start count then some ((count - start + 1) % 2 ^ 32) else none

abbrev blocks_after : Text → ℕ × Text → Option ℕ
blocks_after rest (sep, tail) =
    and_then (digits tail)
      (λ count. if sep == 43 then some count else and_then (digits rest) (range_blocks count))

unfoldable pub vol_par_blocks : Text → Option ℕ
unfolding after_last digits separator
vol_par_blocks filename =
    and_then (after_last vol_mark (map ascii_lower filename))
      (λ rest. and_then (separator rest) (blocks_after rest))

pub record ParCandidate : Type 0 where
  pub id : FileId
  pub blocks : ℕ
  pub bytes : ℕ
  pub estimated : Bool

unfoldable pub file_bytes : List Segment → ℕ
file_bytes [] = 0
file_bytes (s ∷ rest) = s.size + file_bytes rest

abbrev pub is_paused_par : FileEntry → Bool
is_paused_par f = f.paused && f.is_par2

-- The price of a file: by its name, else by its size where the block size is known and not 0.
abbrev pub price : FileEntry → ℕ → Option ℕ → Option ℕ → Option ParCandidate
price f bytes (some blocks) block_size =
    some (record { id = f.id; blocks = max blocks 1; bytes = bytes; estimated = false })
price f bytes none none = none
price f bytes none (some zero) = none
price f bytes none (some (suc b)) = some (record {
  id = f.id;
  blocks = min (max (bytes / suc b) 1) (2 ^ 32 - 1);
  bytes = bytes;
  estimated = true;
})

abbrev pub put_price :
    FileId → Option ParCandidate → List ParCandidate × List FileId → List ParCandidate × List FileId
put_price id (some c) (priced, unpriceable) = (c ∷ priced, unpriceable)
put_price id none (priced, unpriceable) = (priced, id ∷ unpriceable)

unfoldable pub price_files : Option ℕ → List FileEntry → List ParCandidate × List FileId
unfolding vol_par_blocks file_bytes
price_files block_size [] = ([], [])
price_files block_size (f ∷ rest) =
    put_price f.id (price f (file_bytes f.segments) (vol_par_blocks f.filename) block_size)
      (price_files block_size rest)

unfoldable pub price_paused_pars : Job → Option ℕ → List ParCandidate × List FileId
unfolding price_files
price_paused_pars j block_size = price_files block_size (select is_paused_par j.files)

-- `min_by_key`: the first of the files with the fewest bytes.
unfoldable pub min_by_bytes : FileEntry → List FileEntry → FileEntry
unfolding file_bytes
min_by_bytes best [] = best
min_by_bytes best (f ∷ rest) =
    min_by_bytes (if ltb (file_bytes f.segments) (file_bytes best.segments) then f else best) rest

unfoldable pub first_min : List FileEntry → Option FileId
unfolding min_by_bytes
first_min [] = none
first_min (f ∷ rest) = some (min_by_bytes f rest).id

unfoldable pub smallest_paused_par : Job → Option FileId
unfolding first_min
smallest_paused_par j = first_min (select is_paused_par j.files)

abbrev pub fewer_blocks : FileId × ℕ → FileId × ℕ → Bool
fewer_blocks a b = leb a.1 b.1

-- The loop over the sorted candidates, largest first; `have` is a `u32`.
unfoldable pub accumulate : ℕ → ℕ → List (FileId × ℕ) → List FileId
accumulate needed have [] = []
accumulate needed have ((id, blocks) ∷ rest) =
    let more = accumulate needed ((have + blocks) % 2 ^ 32) rest in
    if leb needed have then [] else id ∷ more

abbrev pub one_or_more : Option (FileId × ℕ) → List FileId → List FileId
one_or_more (some (id, blocks)) more = id ∷ []
one_or_more none more = more

unfoldable pub pick_par_files : List (FileId × ℕ) → ℕ → List FileId
unfolding accumulate stable_sort
pick_par_files candidates needed =
    let sorted = stable_sort fewer_blocks candidates in
    one_or_more (find (λ c. leb needed c.1) sorted) (accumulate needed 0 (reverse sorted))
