-- ===== src/Cluster/Range/Assembly/Reading.antt =====
-- crates/nzbd-cluster/src/range.rs: the parts that are read from the accepted ranges.
use nzbd.Prelude.{
  ℕ, zero, suc, ◌+◌, ◌-◌, ◌^◌, ◌≤◌, ◌<◌, ◌≡◌, refl, sym, ◌∙◌, ap, subst, inl, inr, not, ◌&&◌, List,
  [], ◌∷◌, some, arith, Bool-cases, leb, ◌==◌, All, length, take, drop, find, bytes_eq, any,
}
use nzbd.Types.Torrent.{Text}
use nzbd.Types.Job.{Job, Segment, SegmentState, pending, leased, done, failed}
use nzbd.Cluster.Range.{RangeScope}
use nzbd.Cluster.Range.Assembly.{
  AcceptedRange, AssembleScope, ok, err, ◌>>=◌, ◌>>◌, require, Disk, Part, read_done, read_part,
  read_parts, is_this_file, read_range, read_ranges, io_failed, crc_mismatch, escaped,
  supplied_twice,
}
use nzbd.Cluster.Range.Assembly.Steps.{>>=-eq-ok, require-eq, ok_or-eq}

-- A part as its range vouches for it: its place, length and checksum are those of its state.
abbrev pub IsIntact : Disk → Part → Type 0
IsIntact d p =
    (p.state ≡ done p.start (length p.bytes) (d.hash p.bytes)) × (p.start + length p.bytes < 2 ^ 64)

-- No file holds 2^64 bytes.
abbrev pub AreFiles : Disk → Type 0
AreFiles d =
    (root name : Text) (file : List ℕ) → d.payload root name ≡ some file → length file < 2 ^ 64

length-take : (n : ℕ) (l : List ℕ) → n ≤ length l → length (take n l) ≡ n
length-take zero l h = refl
length-take (suc n) [] h = absurd (omega (arith, h))
length-take (suc n) (x ∷ l) h = omega (arith, length-take n l (omega (arith, h)))

length-drop : (n : ℕ) (l : List ℕ) → length (drop n l) ≡ length l - n
length-drop zero l = omega arith
length-drop (suc n) [] = omega arith
length-drop (suc n) (x ∷ l) = omega (arith, length-drop n l)

read_done-IsIntact :
    (d : Disk) (n : ℕ) (file : List ℕ) (s : SegmentState) (p : Part)
    → length file < 2 ^ 64
    → read_done d n file s ≡ ok p
    → IsIntact d p
read_done-IsIntact d n file pending p small h = absurd (ground (arith, h))
read_done-IsIntact d n file (leased x) p small h = absurd (ground (arith, h))
read_done-IsIntact d n file failed p small h = absurd (ground (arith, h))
read_done-IsIntact d n file (done offset len crc) p small h =
    elim (Bool-cases (leb (offset + len) (length file))) [
      | inr f ↦ absurd (let h' : err io_failed ≡ ok p = rw f at h in ground (arith, h'))
      | inl t ↦
          let fits : offset + len ≤ length file = ground (arith, t) in
          let count : length bytes ≡ len =
            length-take len (drop offset file) (omega (arith, fits, length-drop offset file)) in
          elim (Bool-cases (d.hash bytes == crc)) [
            | inr f ↦
                absurd
                  (let h' : err crc_mismatch ≡ ok p = rw f at (rw t at h) in ground (arith, h'))
            | inl u ↦ elim (Bool-cases (d.writes n)) [
              | inr f ↦ absurd (
                  let h' : err io_failed ≡ ok p = rw f at (rw u at (rw t at h)) in
                  ground (arith, h'))
              | inl w ↦
                  let h' : ok part ≡ ok p = rw w at (rw u at (rw t at h)) in
                  let same : part ≡ p = ground (arith, h') in
                  let hashed : d.hash bytes ≡ crc = ground (arith, u) in
                  subst (IsIntact d) same (
                    ap (λ l. done offset l crc) (sym count)
                        ∙ ap (done offset (length bytes)) (sym hashed),
                    omega (arith, fits, small, count),
                  )
            ]
          ]
    ]
  where
    bytes : List ℕ
    bytes = take len (drop offset file)

    part : Part
    part = record {
      number = n;
      start = offset;
      bytes = take len (drop offset file);
      state = done offset len crc;
    }

read_parts-IsIntact :
    (d : Disk) (r : RangeScope) (file : List ℕ) (parts : List Part) (l : List Segment)
    (parts' : List Part)
    → length file < 2 ^ 64
    → All (IsIntact d) parts
    → read_parts d r file parts l ≡ ok parts'
    → All (IsIntact d) parts'
unfolding read_parts read_part
read_parts-IsIntact d r file parts [] parts' small h e =
    let same : parts ≡ parts' = ground (arith, e) in subst (All (IsIntact d)) same h
read_parts-IsIntact d r file parts (s ∷ l) parts' small h e =
    let (ps, f, rest) =
      >>=-eq-ok (read_part d r file parts s) (λ qs. read_parts d r file qs l) parts' e in
    read_parts-IsIntact d r file ps l parts' small (one ps f) rest
  where
    one : (ps : List Part) → read_part d r file parts s ≡ ok ps → All (IsIntact d) ps
    one ps f =
        let a =
          require-eq (leb r.first_article s.number && leb s.number r.last_article) escaped
            (read_done d s.number file s.state >>= λ p.
              require (not (any (λ (q : Part). q.number == s.number) parts)) supplied_twice
              >> ok (p ∷ parts))
            ps f in
        let (p, g, last) =
          >>=-eq-ok (read_done d s.number file s.state)
            (λ p.
              require (not (any (λ (q : Part). q.number == s.number) parts)) supplied_twice
              >> ok (p ∷ parts))
            ps a.1 in
        let b =
          require-eq (not (any (λ (q : Part). q.number == s.number) parts)) supplied_twice
            (ok (p ∷ parts)) ps last in
        let same : p ∷ parts ≡ ps = ground (arith, b.1) in
        subst (All (IsIntact d)) same (read_done-IsIntact d s.number file s.state p small g, h)

read_range-IsIntact :
    (d : Disk) (sc : AssembleScope) (j : Job) (filename : Text) (parts : List Part)
    (a : AcceptedRange) (parts' : List Part)
    → AreFiles d
    → All (IsIntact d) parts
    → read_range d sc j filename parts a ≡ ok parts'
    → All (IsIntact d) parts'
unfolding read_range
read_range-IsIntact d sc j filename parts a parts' small h e =
    let r1 =
      require-eq (a.scope.job_id == sc.job_id && a.scope.file_id == sc.file_id) _ _ parts' e in
    let (partial, e2, r2) = ok_or-eq (d.partial a.result_ref) _ _ parts' r1.1 in
    let (f, e3, r3) = ok_or-eq (find (is_this_file sc.file_id) partial.files) _ _ parts' r2 in
    let r4 =
      require-eq (partial.id == j.id && length partial.files == 1 && bytes_eq f.filename filename) _
        _ parts' r3 in
    let (file, e5, r5) = ok_or-eq (d.payload a.result_ref f.filename) _ _ parts' r4.1 in
    read_parts-IsIntact d a.scope file parts f.segments parts'
      (small a.result_ref f.filename file e5) h r5

pub read_ranges-IsIntact :
    (d : Disk) (sc : AssembleScope) (j : Job) (filename : Text) (parts : List Part)
    (l : List AcceptedRange) (parts' : List Part)
    → AreFiles d
    → All (IsIntact d) parts
    → read_ranges d sc j filename parts l ≡ ok parts'
    → All (IsIntact d) parts'
unfolding read_ranges
read_ranges-IsIntact d sc j filename parts [] parts' small h e =
    let same : parts ≡ parts' = ground (arith, e) in subst (All (IsIntact d)) same h
read_ranges-IsIntact d sc j filename parts (a ∷ l) parts' small h e =
    let (ps, f, rest) =
      >>=-eq-ok (read_range d sc j filename parts a) (λ qs. read_ranges d sc j filename qs l) parts'
        e in
    read_ranges-IsIntact d sc j filename ps l parts' small
      (read_range-IsIntact d sc j filename parts a ps small h f) rest
