-- ===== src/Cluster/Control/Receipts.antt =====
-- crates/nzbd-cluster/src/control.rs: `seed_job` and `apply_command`, with the triggers on its
-- receipts.
use nzbd.Prelude.{
  ltb, ◌^◌, ℕ, ◌+◌, Bool, false, not, ◌∷◌, Option, none, some, if◌then◌else◌, ◌==◌, bytes_eq, find,
}
use nzbd.Prelude.Int.{ℤ}
use nzbd.Types.Torrent.{Text}
use nzbd.Cluster.Control.{
  Result, ok, err, constraint_failed, revision_exhausted, ◌>>=◌, ◌>>◌, ControlJob, CommandReceipt,
  Database, put_job, i64_value, unix_ms, checked,
}

pub data MutationOutcome : Type 0 where
  applied duplicate : ℕ → MutationOutcome
  conflict : MutationOutcome

abbrev pub new_job : Text → Text → ControlJob
new_job incarnation intent = record {
  incarnation = incarnation;
  revision = 1;
  intent_json = intent;
  result_ref = none;
  result_id = none;
  deleted = false;
}

abbrev pub with_job : ℕ → ControlJob → Database → Database
with_job id j db = record db { jobs = put_job id j db.jobs }

-- ON CONFLICT DO NOTHING.
unfoldable pub seed_row : ℕ → Text → Text → ℕ → Database → Result (Unit {0}) × Database
seed_row id incarnation intent _ db = elim (db.jobs id) [
  | none ↦ (ok tt, with_job id (new_job incarnation intent) db)
  | some j ↦ (ok tt, db)
]

abbrev pub seed_id : ℤ → ℕ → Result ℕ
seed_id clock id = do now ← unix_ms clock; i64_value id

unfoldable pub seed_job : ℤ → ℕ → Text → Text → Database → Result (Unit {0}) × Database
seed_job clock id incarnation intent db =
    checked (seed_id clock id) (seed_row id incarnation intent) db

-- The receipt of a command, when there is one.
unfoldable pub command_receipt : Text → Database → Option CommandReceipt
command_receipt id db = find (λ (c : CommandReceipt). bytes_eq c.command_id id) db.commands

abbrev pub commanded : CommandReceipt → ControlJob → ControlJob
commanded c j = record j {
  revision = c.applied_revision;
  intent_json = c.next_intent;
  deleted = c.deleted;
}

-- The trigger `command_validate` aborts with "stale", which the caller reads as a conflict; only then
-- does the primary key speak. `command_apply` follows the row.
abbrev pub insert_command :
    CommandReceipt → Option ControlJob → Database → Result MutationOutcome × Database
insert_command c none db = (ok conflict, db)
insert_command c (some j) db =
    if not (j.revision == c.expected_revision)
    then (ok conflict, db)
    else elim (command_receipt c.command_id db) [
      | some old ↦ (err constraint_failed, db)
      | none ↦ (
        ok (applied c.applied_revision),
        record (with_job c.job_id (commanded c j) db) { commands = c ∷ db.commands },
      )
    ]

unfoldable pub command_row : CommandReceipt → ℕ → Database → Result MutationOutcome × Database
command_row c _ db = insert_command c (db.jobs c.job_id) db

-- `checked_add` on 64 bits.
abbrev pub next_revision : ℕ → Result ℕ
next_revision n = if ltb (n + 1) (2 ^ 64) then ok (n + 1) else err revision_exhausted

abbrev pub command_number : ℤ → CommandReceipt → Result ℕ
command_number clock c = do
  now ← unix_ms clock
  next_revision c.expected_revision
  i64_value c.job_id
  i64_value c.expected_revision
  i64_value c.applied_revision

-- `earlier` is the store when the receipt is looked up, before the statement is sent.
unfoldable pub apply_command :
    ℤ → Database → Text → ℕ → ℕ → Text → Bool → Database → Result MutationOutcome × Database
apply_command clock earlier id job_id expected next deleted db =
    let c : CommandReceipt = record {
      command_id = id;
      job_id = job_id;
      expected_revision = expected;
      applied_revision = expected + 1;
      next_intent = next;
      deleted = deleted;
    } in
    elim (command_receipt id earlier) [
      | some old ↦ (ok (duplicate old.applied_revision), db)
      | none ↦ checked (command_number clock c) (command_row c) db
    ]
