-- ===== src/Cluster/Control/Publications.antt =====
-- crates/nzbd-cluster/src/control.rs: `publish_result`, with the triggers on its receipts.
use nzbd.Prelude.{
  ℕ, ◌+◌, Bool, true, false, not, ◌&&◌, [], ◌∷◌, Option, none, some, if◌then◌else◌, ◌==◌, bytes_eq,
  find, any,
}
use nzbd.Prelude.Int.{ℤ}
use nzbd.Types.Torrent.{Text}
use nzbd.Cluster.Control.{
  Result, ok, err, constraint_failed, ◌>>=◌, ◌>>◌, ControlJob, WorkLease, LeaseToken,
  PublicationReceipt, RangeResult, Database, put_text, i64_value, unix_ms, incremented, is_current,
  checked,
}
use nzbd.Cluster.Control.Leases.{with_lease, numbers_of}
use nzbd.Cluster.Control.Receipts.{MutationOutcome, applied, duplicate, conflict, with_job}

unfoldable pub publication_receipt : Text → Database → Option PublicationReceipt
publication_receipt id db =
    find (λ (p : PublicationReceipt). bytes_eq p.receipt_id id) db.publications

abbrev pub is_segment : WorkLease → Bool
is_segment l = bytes_eq l.kind (115 ∷ 101 ∷ 103 ∷ 109 ∷ 101 ∷ 110 ∷ 116 ∷ [])

-- The second check of `publication_validate`.
abbrev pub job_ready : PublicationReceipt → WorkLease → Option ControlJob → Bool
job_ready p l none = false
job_ready p l (some j) =
    bytes_eq j.incarnation l.job_incarnation
    && j.revision == p.expected_job_revision
    && not j.deleted

abbrev pub is_used : PublicationReceipt → Database → Bool
is_used p db =
    any
      (λ (q : PublicationReceipt).
        if bytes_eq q.receipt_id p.receipt_id then true else bytes_eq q.result_id p.result_id)
      db.publications

abbrev pub range_result : PublicationReceipt → WorkLease → RangeResult
range_result p l = record {
  job_id = l.job_id;
  scope_json = l.scope_json;
  result_id = p.result_id;
  result_ref = p.result_ref;
}

abbrev pub published_job : PublicationReceipt → ℕ → ControlJob → ControlJob
published_job p n j = record j {
  result_ref = some p.result_ref;
  result_id = some p.result_id;
  intent_json = p.result_job_json;
  revision = n;
}

-- The first statements of `publication_apply`: a range is recorded, or a job gets its result.
abbrev pub record_range : PublicationReceipt → WorkLease → Database → Result Database
record_range p l db = elim (db.ranges p.token.resource) [
  | some old ↦ err constraint_failed
  | none ↦ ok (record db { ranges = put_text p.token.resource (range_result p l) db.ranges })
]

abbrev pub record_result : PublicationReceipt → ℕ → Option ControlJob → Database → Result Database
record_result p id none db = ok db
record_result p id (some j) db = do
  n ← incremented j.revision
  ok (with_job id (published_job p n j) db)

unfoldable pub publication_effect : PublicationReceipt → WorkLease → Database → Result Database
publication_effect p l db =
    if is_segment l then record_range p l db else record_result p l.job_id (db.jobs l.job_id) db

abbrev pub finished : ℕ → WorkLease → WorkLease
finished n l = record l { terminal = true; revision = n }

-- The triggers and the row, of which all take effect or none.
unfoldable pub publish_all : PublicationReceipt → WorkLease → Database → Result Database
publish_all p l db = do
  db' ← publication_effect p l db
  n ← incremented l.revision
  ok (record (with_lease p.token.resource (finished n l) db') {
    publications = p ∷ db.publications;
  })

abbrev pub publish_answer :
    PublicationReceipt → Result Database → Database → Result MutationOutcome × Database
publish_answer p (err e) db = (err e, db)
publish_answer p (ok db') db = (ok (applied (p.expected_job_revision + 1)), db')

-- `publication_validate`, then the keys of the row, then `publication_apply`.
abbrev pub insert_publication :
    PublicationReceipt → Option WorkLease → Database → Result MutationOutcome × Database
insert_publication p none db = (ok conflict, db)
insert_publication p (some l) db =
    if not (is_current p.token p.accepted_at_ms l)
    then (ok conflict, db)
    else if not (job_ready p l (db.jobs l.job_id))
    then (ok conflict, db)
    else if is_used p db
    then (err constraint_failed, db)
    else publish_answer p (publish_all p l db) db

unfoldable pub publish_row :
    (ℤ → PublicationReceipt) → ℤ → Database → Result MutationOutcome × Database
publish_row p now db = insert_publication (p now) (db.leases (p now).token.resource) db

abbrev pub publish_time : ℤ → LeaseToken → ℕ → Result ℤ
publish_time clock t expected = do now ← unix_ms clock; numbers_of t; i64_value expected; ok now

-- The arguments of `publish_result`, as the row that they make at a time.
abbrev pub receipt_at : Text → LeaseToken → ℕ → Text → Text → Text → ℤ → PublicationReceipt
receipt_at id t expected result_id result_ref result_job now = record {
  receipt_id = id;
  token = t;
  expected_job_revision = expected;
  result_id = result_id;
  result_ref = result_ref;
  result_job_json = result_job;
  accepted_at_ms = now;
}

unfoldable pub publish_result :
    ℤ
    → Database
    → Text
    → LeaseToken
    → ℕ
    → Text
    → Text
    → Text
    → Database
    → Result MutationOutcome × Database
publish_result clock earlier id t expected result_id result_ref result_job db =
    elim (publication_receipt id earlier) [
      | some old ↦ (ok (duplicate (old.expected_job_revision + 1)), db)
      | none ↦
          checked (publish_time clock t expected)
            (publish_row (receipt_at id t expected result_id result_ref result_job)) db
    ]
