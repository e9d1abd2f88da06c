-- ===== src/Engine/Owner/Writers.antt =====
-- crates/nzbd-engine/src/owner.rs: allocation, the writers of files and the order to finalize one.
use nzbd.Prelude.{
  ℕ, ◌+◌, Bool, true, false, not, ◌&&◌, List, [], ◌∷◌, ◌++◌, Option, none, some, all, if◌then◌else◌,
  leb, ◌==◌, member, unwrap_or,
}
use nzbd.Prelude.Maps.{get, without}
use nzbd.Prelude.Sort.{stable_sort}
use nzbd.Types.Job.{JobId, FileId, FileEntry, Segment, done, is_done}
use nzbd.Yenc.Combine.{crc32_combine}
use nzbd.Engine.Failover.{insert}
use nzbd.Engine.Queue.Lookup.{job, file}
use nzbd.Engine.Owner.{
  Owner, World, note, allocated, writer_spawned, finalize_ordered, sent, full, closed,
}

-- `Ok(())` is `true`.
unfoldable pub ensure_allocation : World → JobId → Owner → Owner × Bool
unfolding insert
ensure_allocation w j o =
    let ok = w.allocates o.log j in
    let noted = note (allocated j ok) o in
    if member j o.retiring_writers
    then (o, false)
    else if member j o.allocated_jobs
    then (o, true)
    else elim (job o.state j) [
      | none ↦ (o, false)
      | some r ↦
          if ok
          then (record noted { allocated_jobs = insert j noted.allocated_jobs }, true)
          else (noted, false)
    ]

-- The sender that is returned is live, or (`false`) one whose channel is closed.
unfoldable pub writer_for : World → JobId → FileId → Owner → Owner × Bool
unfolding insert
writer_for w j f o =
    let (o', ok) = ensure_allocation w j o in
    let spawned = note (writer_spawned j f) o' in
    if member f o.writers && not (w.is_closed o.log f)
    then (o, true)
    else if ok
    then (record spawned { writers = insert f spawned.writers }, true)
    else (o', false)

-- The loop of `combine_crcs`, from the offset expected and the checksum so far.
unfoldable pub combine_from : ℕ → Option ℕ → List (ℕ × ℕ × ℕ) → Option ℕ
combine_from expect acc [] = acc
combine_from expect acc ((off, len, crc) ∷ rest) =
    let next : ℕ = elim acc [ none ↦ crc | some prev ↦ crc32_combine prev crc len ] in
    let later = combine_from (expect + len) (some next) rest in
    if off == expect then later else none

abbrev pub combine_crcs : List (ℕ × ℕ × ℕ) → Option ℕ
combine_crcs sorted = combine_from 0 none sorted

unfoldable pub done_parts : List Segment → List (ℕ × ℕ × ℕ)
done_parts [] = []
done_parts (s ∷ rest) =
    let later = done_parts rest in
    elim s.state [ done offset len crc ↦ (offset, len, crc) ∷ later | _ ↦ later ]

abbrev by_offset : ℕ × ℕ × ℕ → ℕ × ℕ × ℕ → Bool
by_offset a b = leb a.0 b.0

-- The whole file's checksum, where every segment is done and they are contiguous.
unfoldable pub combined_crc : FileEntry → Option ℕ
combined_crc f =
    if all (λ s. is_done s.state) f.segments
    then combine_crcs (stable_sort by_offset (done_parts f.segments))
    else none

-- `try_send` of `WriteCmd::Finalize` on the sender, and what is done with its answer.
unfoldable pub try_finalize : World → JobId → FileId → ℕ → Option ℕ → Bool → Owner → Owner
unfolding insert
try_finalize w j f size crc live o =
    let answer = if live then w.sends o.log f else closed in
    let noted = note (finalize_ordered j f size crc answer) o in
    elim answer [
      | sent ↦ record noted { finalize_sent = insert f noted.finalize_sent }
      | full ↦ record noted { pending_finalize = noted.pending_finalize ++ (j, f) ∷ [] }
      | closed ↦ record noted {
        writers = without f noted.writers;
        pending_finalize = noted.pending_finalize ++ (j, f) ∷ [];
      }
    ]

unfoldable pub send_finalize : World → JobId → FileId → Owner → Owner
send_finalize w j f o = elim (file o.state j f) [
  | none ↦ o
  | some x ↦
      let (o', live) = writer_for w j f o in
      try_finalize w j f (unwrap_or (get f o.file_sizes) 0) (combined_crc x) live o'
]
