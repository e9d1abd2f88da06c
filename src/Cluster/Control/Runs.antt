-- ===== src/Cluster/Control/Runs.antt =====
-- crates/nzbd-cluster/src/control.rs: whatever is asked of the store, in any order, nothing is taken
-- back of what Steps names.
pub mod Rows
pub mod Leases
pub mod Jobs
pub mod Publishing
use nzbd.Prelude.{
  ℕ, ◌+◌, ◌≤◌, ◌<◌, ◌≡◌, refl, sym, ◌∙◌, ap, subst, ◌⊎◌, inl, inr, Bool, true, false, not, ◌&&◌,
  List, [], ◌∷◌, Option, none, some, arith, Bool-cases, Option-cases, if◌then◌else◌, ◌==◌, find,
  any, bytes_eq, bytes_eq-eq, bytes_eq_comm,
}
use nzbd.Prelude.Int.{ℤ}
use nzbd.Types.Torrent.{Text}
use nzbd.Cluster.Control.{
  Result, ok, err, constraint_failed, ◌>>=◌, ControlJob, WorkLease, CommandReceipt, LeaseToken,
  PublicationReceipt, RangeResult, ScriptReceipt, started, done, Database, put_text, put_job,
  incremented, checked, is_current, names,
}
use nzbd.Cluster.Control.Leases.{
  Claim, acquire, claim_times, claim_row, upsert_lease, with_lease, renew, renewal_times, renew_row,
  write_renewal, renewed, release, release_time, release_row, write_release, released,
}
use nzbd.Cluster.Control.Receipts.{
  seed_job, seed_id, seed_row, with_job, new_job, apply_command, command_row, insert_command,
  commanded, command_number, command_receipt,
}
use nzbd.Cluster.Control.Publications.{
  publish_result, publish_time, publish_row, receipt_at, insert_publication, publish_all,
  publish_answer, publication_effect, publication_receipt, record_range, record_result, is_used,
  is_segment, published_job, finished, range_result, job_ready,
}
use nzbd.Cluster.Control.Scripts.{
  begin_script, begin_row, insert_script, script_time, finish_script, finish_row, update_script,
  guarded_lease, with_script, begun, is_started,
}
use nzbd.Cluster.Control.Steps.{
  Op, acquiring, renewing, releasing, seeding, commanding, publishing, beginning, finishing, apply,
  run, Later, LaterLease, LaterJob, LaterScript, LaterLease-refl, LaterScript-refl, Same, Grows,
  put_text-Grows, put_job-Grows, Later-refl, Later-trans,
}
use nzbd.Cluster.Control.Runs.Rows.{
  checked-Later, with_lease-Later, with_job-Later, with_script-Later, incremented-eq,
}
use nzbd.Cluster.Control.Runs.Leases.{
  upsert-LaterLease, acquire-Later, write_renewal-Later, renew-Later, write_release-Later,
  release-Later,
}
use nzbd.Cluster.Control.Runs.Jobs.{
  commanded-Later, seed_job-Later, insert_command-Later, apply_command-Later,
}
use nzbd.Cluster.Control.Runs.Publishing.{
  Effect, publication_effect-Effect, published, Publication, publish_all-Publication,
  find_none-of_unused, Publication-Later, publish_answer-Later, insert_publication-Later,
  publish_result-Later,
}

begin_script-Later :
    (clock : ℤ) (later : Database) (id : Text) (t : LeaseToken) (db : Database)
    → Later db (begin_script clock later id t db).1
unfolding begin_script begin_row
begin_script-Later clock later id t db =
    checked-Later (script_time clock t) (begin_row later id t) db
      λ now. by_rows (guarded_lease t now db) (db.scripts id) refl
  where
    by_rows :
        (l : Option WorkLease) (s : Option ScriptReceipt)
        → db.scripts id ≡ s
        → Later db (insert_script later id t l s db).1
    by_rows none s e = Later-refl db
    by_rows (some l) (some s) e = Later-refl db
    by_rows (some l) none e =
        with_script-Later id (begun t l) db λ a f. absurd (ground (arith, e, f))

finish_script-Later :
    (clock : ℤ) (later : Database) (id : Text) (t : LeaseToken) (db : Database)
    → Later db (finish_script clock later id t db).1
unfolding finish_script finish_row
finish_script-Later clock later id t db =
    checked-Later (script_time clock t) (finish_row later id t) db
      λ now. by_rows (guarded_lease t now db) (db.scripts id) refl
  where
    by_rows :
        (l : Option WorkLease) (s : Option ScriptReceipt)
        → db.scripts id ≡ s
        → Later db (update_script later id t l s db).1
    by_rows none s e = Later-refl db
    by_rows (some l) none e = Later-refl db
    by_rows (some l) (some s) e = elim (Bool-cases (is_started t s)) [
      | inr b ↦ rw b (Later-refl db)
      | inl b ↦ rw b (
          with_script-Later id (record s { state = done }) db
            λ a f.
              let same : a ≡ s = ground (arith, e, f) in (ap (λ x. x.resource) same, λ h. refl))
    ]

pub apply-Later : (op : Op) (db : Database) → Later db (apply op db)
unfolding apply
apply-Later (acquiring clock later c) db = acquire-Later clock later c db
apply-Later (renewing clock t ttl) db = renew-Later clock t ttl db
apply-Later (releasing clock t) db = release-Later clock t db
apply-Later (seeding clock id inc intent) db = seed_job-Later clock id inc intent db
apply-Later (commanding clock earlier c id e next del) db =
    apply_command-Later clock earlier c id e next del db
apply-Later (publishing clock earlier id t e r ref job) db =
    publish_result-Later clock earlier id t e r ref job db
apply-Later (beginning clock later id t) db = begin_script-Later clock later id t db
apply-Later (finishing clock later id t) db = finish_script-Later clock later id t db

pub run-Later : (ops : List Op) (db : Database) → Later db (run ops db)
unfolding run
run-Later [] db = Later-refl db
run-Later (op ∷ ops) db = Later-trans (apply-Later op db) (run-Later ops (apply op db))
