-- ===== src/Cluster/Range/Assembly/Scenarios.antt =====
-- The file of 65 articles, of a byte each, whose second range is accepted first.
use nzbd.Prelude.{
  ℕ, zero, suc, ◌+◌, ◌-◌, ◌^◌, ◌<◌, ◌≡◌, refl, ap, true, false, List, [], ◌∷◌, map, some, none,
  Option, arith, if◌then◌else◌, ◌==◌, length, take,
}
use nzbd.Types.Job.{Job, Segment, done}
use nzbd.Cluster.Range.{scopes, is_unpaused, chunks, number_chunks}
use nzbd.Cluster.Range.Scenarios.{large_file, large_job}
use nzbd.Cluster.Range.Assembly.{
  AcceptedRange, AssembleScope, Result, ok, err, overlap_or_gap, crc_mismatch, Disk, resource,
  same_resources, read_ranges, settle_segments, cursor_after, file_size, byte_at, read_back,
  private_dir, assemble,
}
use nzbd.Cluster.Range.Assembly.Reading.{AreFiles}
use nzbd.Cluster.Range.Assembly.Intact.{IsAssembled, assemble-IsAssembled}

abbrev count_up : ℕ → ℕ → List ℕ
count_up zero n = []
count_up (suc k) n = n ∷ count_up k (suc n)

abbrev fetched_from : ℕ → ℕ → List Segment
fetched_from zero number = []
fetched_from (suc n) number =
    record { message_id = []; number = number; size = 10; state = done (number - 1) 1 (number - 1) }
    ∷ fetched_from n (suc number)

-- A result is named by its first article.
abbrev partial_at : ℕ → Job
partial_at n = record large_job {
  files = record large_file { segments = fetched_from (if n == 65 then 1 else 32) n } ∷ [];
}

abbrev disk : Disk
disk = record {
  partial = λ root. elim root [ [] ↦ none | n ∷ r ↦ some (partial_at n) ];
  payload = λ root name. some (count_up 65 0);
  hash = λ l. elim l [ [] ↦ 0 | x ∷ r ↦ x ];
  creates = true;
  writes = λ n. true;
  publishes = true;
}

abbrev accepted : ℕ → ℕ → ℕ → AcceptedRange
accepted first last index = record {
  scope = record {
    job_id = 12;
    file_id = 3;
    first_article = first;
    last_article = last;
    range_index = index;
    range_count = 3;
  };
  result_ref = first ∷ [];
}

abbrev three : AssembleScope
three = record {
  job_id = 12;
  file_id = 3;
  ranges = accepted 33 64 1 ∷ accepted 1 32 0 ∷ accepted 65 65 2 ∷ [];
}

runs : Unit {0}
unfolding assemble resource same_resources read_ranges settle_segments cursor_after file_size
    byte_at read_back private_dir scopes is_unpaused chunks number_chunks
    nzbd.Prelude.Decimal.decimal
runs = tt

abbrev published : Result (Job × List ℕ) → Job × List ℕ
published (ok r) = r
published (err e) = (large_job, [])

assembles : assemble disk large_job three 7 ≡ ok (published (assemble disk large_job three 7))
unfolding runs nzbd.Prelude.Sort.stable_sort nzbd.Prelude.bytes_eq
assembles = refl

in_order : (published (assemble disk large_job three 7)).1 ≡ count_up 65 0
unfolding runs nzbd.Prelude.Sort.stable_sort nzbd.Prelude.bytes_eq
in_order = refl

disk-AreFiles : AreFiles disk
disk-AreFiles root name file e =
    let same : count_up 65 0 ≡ file = ground (arith, e) in
    let count : 65 ≡ length file = ap length same in omega (arith, count)

assemble-IsAssembled_example :
    IsAssembled disk large_job three 7 (published (assemble disk large_job three 7))
assemble-IsAssembled_example =
    assemble-IsAssembled disk large_job three 7 (published (assemble disk large_job three 7))
      disk-AreFiles assembles

-- One range twice, and another not at all.
one_twice :
    assemble disk large_job
      (record three { ranges = accepted 1 32 0 ∷ accepted 1 32 0 ∷ accepted 65 65 2 ∷ [] })
      7
    ≡ err overlap_or_gap
unfolding runs nzbd.Prelude.bytes_eq
one_twice = refl

-- A payload that is not what its range's states say.
other_bytes :
    assemble (record disk { payload = λ root name. some (count_up 65 1) }) large_job three 7
    ≡ err crc_mismatch
unfolding runs nzbd.Prelude.bytes_eq
other_bytes = refl
