-- ===== src/Cluster/Range/Assembly/Intact.antt =====
-- crates/nzbd-cluster/src/range.rs: the file that an assembly publishes.
use nzbd.Prelude.{
  some, ℕ, ◌+◌, ◌<◌, ◌≡◌, refl, ◌∙◌, ap, subst, not, ◌&&◌, List, [], ◌∷◌, map, arith, ltb, ◌==◌,
  All, All-of_In, All-from_In, length, length-append, find, is_empty,
}
use nzbd.Prelude.Sort.{stable_sort, stable_sort-In, In-stable_sort}
use nzbd.Types.Job.{FileEntry, Job, Segment}
use nzbd.Cluster.Range.{scopes}
use nzbd.Cluster.Range.Assembly.{
  AcceptedRange, AssembleScope, Result, ok, err, Disk, Part, part_end, is_this_file, read_ranges,
  settle_segments, starts_before, cursor_after, file_size, read_back, same_resources, resource,
  crc_agrees, assembled_job, assemble, byte_gap,
}
use nzbd.Cluster.Range.Assembly.Steps.{>>=-eq-ok, require-eq, ok_or-eq}
use nzbd.Cluster.Range.Assembly.Tiles.{joined, Tiled, read_back-joined}
use nzbd.Cluster.Range.Assembly.Reading.{IsIntact, AreFiles, read_ranges-IsIntact}
use nzbd.Cluster.Range.Assembly.Settling.{
  IsSettled, settle_segments-IsSettled, sorted-IsSettled, numbers, numbers-settle_segments,
}

cursor_after-Tiled :
    (d : Disk) (c : ℕ) (l : List Part) (end : ℕ)
    → All (IsIntact d) l
    → cursor_after c l ≡ ok end
    → Tiled c l × (end ≡ c + length (joined l))
unfolding cursor_after Tiled joined
cursor_after-Tiled d c [] end h e = (tt, omega (arith, same))
  where
    same : c ≡ end
    same = ground (arith, e)
cursor_after-Tiled d c (p ∷ l) end h e =
    let r =
      require-eq (p.start == c && ltb p.start (part_end p)) byte_gap (cursor_after (part_end p) l)
        end e in
    let there : p.start ≡ c = ground (arith, r.0) in
    let some_bytes : p.start < part_end p = ground (arith, r.0) in
    let exact : part_end p ≡ c + length p.bytes = omega (arith, there, h.0.1) in
    let next : cursor_after (c + length p.bytes) l ≡ ok end =
      subst (λ k. cursor_after k l ≡ ok end) exact r.1 in
    let (tiled, ends) = cursor_after-Tiled d (c + length p.bytes) l end h.1 next in
    (
      (there, omega (arith, some_bytes, exact, there), tiled),
      omega (arith, ends, length-append p.bytes (joined l)),
    )

-- What is published: parts that tile the file, each of them vouched for, and their articles.
pub record IsAssembled (d : Disk) (j : Job) (sc : AssembleScope) (fence : ℕ) (r : Job × List ℕ)
    : Type 0 where
  pub tiles : List Part
  pub segments : List Segment
  pub job : r.0 ≡ assembled_job sc fence segments (d.hash r.1) j
  pub bytes : r.1 ≡ joined tiles
  pub tiled : Tiled 0 tiles
  pub intact : All (IsIntact d) tiles
  pub settled : IsSettled tiles segments
  pub file : FileEntry
  pub named : find (is_this_file sc.file_id) j.files ≡ some file
  pub articles : numbers segments ≡ numbers file.segments

sorted-IsIntact :
    (d : Disk) (parts : List Part)
    → All (IsIntact d) parts
    → All (IsIntact d) (stable_sort starts_before parts)
sorted-IsIntact d parts h =
    All-from_In (IsIntact d) (stable_sort starts_before parts)
      λ p m. All-of_In (IsIntact d) parts h p (stable_sort-In starts_before parts p m)

-- An assembly publishes what its ranges vouch for, and nothing else: where it succeeds, the file's
-- bytes are those of the parts one after the other, each part starting where the one before it ended,
-- the first at 0, none empty; each part has the place, the length and the checksum of the state that
-- its range reported as done; and the job's file keeps its articles, which are exactly those of these
-- parts, with these states, and gets the checksum of the whole. No file that is read holds 2^64 bytes.
pub assemble-IsAssembled :
    (d : Disk) (j : Job) (sc : AssembleScope) (fence : ℕ) (r : Job × List ℕ)
    → AreFiles d
    → assemble d j sc fence ≡ ok r
    → IsAssembled d j sc fence r
unfolding assemble
assemble-IsAssembled d j sc fence r small e =
    let r1 = require-eq (sc.job_id == j.id) _ _ r e in
    let r2 =
      require-eq (not (is_empty (scopes j)) && length (scopes j) == length sc.ranges) _ _ r r1.1 in
    let r3 =
      require-eq
        (same_resources (map resource (scopes j))
          (map (λ (a : AcceptedRange). resource a.scope) sc.ranges))
        _ _ r r2.1 in
    let (f, e4, r4) = ok_or-eq (find (is_this_file sc.file_id) j.files) _ _ r r3.1 in
    let r5 = require-eq d.creates _ _ r r4 in
    let (parts, e6, r6) = >>=-eq-ok (read_ranges d sc j f.filename [] sc.ranges) _ r r5.1 in
    let (segments, e7, r7) = >>=-eq-ok (settle_segments parts f.segments) _ r r6 in
    let (cursor, e8, r8) = >>=-eq-ok (cursor_after 0 (stable_sort starts_before parts)) _ r r7 in
    let r9 = require-eq (cursor == file_size parts) _ _ r r8 in
    let r10 = require-eq d.publishes _ _ r r9.1 in
    let r11 =
      require-eq (crc_agrees f.crc32 (d.hash (read_back parts 0 (file_size parts)))) _ _ r r10.1 in
    published f parts segments cursor e4 (numbers-settle_segments parts f.segments segments e7)
      (read_ranges-IsIntact d sc j f.filename [] sc.ranges parts small tt e6)
      (settle_segments-IsSettled parts f.segments segments e7) e8 (ground (arith, r9.0)) r11.1
  where
    published :
        (f : FileEntry) (parts : List Part) (segments : List Segment) (cursor : ℕ)
        → find (is_this_file sc.file_id) j.files ≡ some f
        → numbers segments ≡ numbers f.segments
        → All (IsIntact d) parts
        → IsSettled parts segments
        → cursor_after 0 (stable_sort starts_before parts) ≡ ok cursor
        → cursor ≡ file_size parts
        → ok (
          assembled_job sc fence segments (d.hash (read_back parts 0 (file_size parts))) j,
          read_back parts 0 (file_size parts),
        )
          ≡ ok r
        → IsAssembled d j sc fence r
    published f parts segments cursor named articles intact settled e8 size result =
        let tiles = stable_sort starts_before parts in
        let (tiled, ends) =
          cursor_after-Tiled d 0 tiles cursor (sorted-IsIntact d parts intact) e8 in
        let whole : file_size parts ≡ length (joined tiles) = omega (arith, size, ends) in
        let back : read_back parts 0 (file_size parts) ≡ joined tiles =
          ap (read_back parts 0) whole
          ∙ read_back-joined parts tiles tiled (In-stable_sort starts_before parts)
              (stable_sort-In starts_before parts) in
        let same : (
          assembled_job sc fence segments (d.hash (read_back parts 0 (file_size parts))) j,
          read_back parts 0 (file_size parts),
        )
            ≡ r =
          unwrapped result in
        subst (IsAssembled d j sc fence) same (record {
          tiles = tiles;
          segments = segments;
          job = refl;
          bytes = back;
          tiled = tiled;
          intact = sorted-IsIntact d parts intact;
          settled = sorted-IsSettled parts segments settled;
          file = f;
          named = named;
          articles = articles;
        })
      where
        unwrapped : {q : Job × List ℕ} → ok q ≡ ok r → q ≡ r
        unwrapped x = ap (λ (m : Result (Job × List ℕ)). elim m [ ok q ↦ q | err y ↦ r ]) x
