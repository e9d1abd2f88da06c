-- ===== src/Cluster/Control/Updates.antt =====
-- crates/nzbd-cluster/src/control.rs: commands are applied to the revision that they expect, and a
-- script runs once.
use nzbd.Prelude.{
  ℕ, ◌+◌, ◌≤◌, ◌<◌, ◌≡◌, refl, subst, inl, inr, Bool, true, false, List, Option, none, some, arith,
  Bool-cases, Option-cases, ◌==◌, bytes_eq_refl,
}
use nzbd.Prelude.Int.{ℤ}
use nzbd.Types.Torrent.{Text}
use nzbd.Cluster.Control.{
  Result, ok, err, ControlJob, WorkLease, LeaseToken, CommandReceipt, Database, checked,
  ScriptReceipt, unix_ms, is_current,
}
use nzbd.Cluster.Control.Holding.{Held, is_current-Held, script_time-now}
use nzbd.Cluster.Control.Receipts.{
  MutationOutcome, applied, conflict, apply_command, command_row, command_number, command_receipt,
  insert_command, commanded,
}
use nzbd.Cluster.Control.Scripts.{
  begin_script, begin_row, insert_script, script_time, guarded_lease, begun,
}
use nzbd.Cluster.Control.Steps as Steps
use nzbd.Cluster.Control.Steps.{Op, Later, LaterJob}
use nzbd.Cluster.Control.Runs.{run-Later}
use nzbd.Cluster.Control.Fencing.{is_applied, is_run}

abbrev command_at : Text → ℕ → ℕ → Text → Bool → CommandReceipt
command_at id job expected next deleted = record {
  command_id = id;
  job_id = job;
  expected_revision = expected;
  applied_revision = expected + 1;
  next_intent = next;
  deleted = deleted;
}

-- What a command that was applied found, and what it leaves.
record Commanded (c : CommandReceipt) (db : Database) (r : Result MutationOutcome × Database)
    : Type 0 where
  job : ControlJob
  there : db.jobs c.job_id ≡ some job
  expected : job.revision ≡ c.expected_revision
  answer : r.0 ≡ ok (applied c.applied_revision)
  left : r.1.jobs c.job_id ≡ some (commanded c job)

insert_command-Commanded :
    (c : CommandReceipt) (db : Database)
    → is_applied (insert_command c (db.jobs c.job_id) db).0 ≡ true
    → Commanded c db (insert_command c (db.jobs c.job_id) db)
insert_command-Commanded c db h = elim (Option-cases (db.jobs c.job_id)) [
  | inl n ↦ absurd (let h' : false ≡ true = rw n at h in ground (arith, h'))
  | inr (j, e) ↦ elim (Bool-cases (j.revision == c.expected_revision)) [
    | inr b ↦
        absurd (let h' : false ≡ true = rw b at (rw (e, insert_command) at h) in ground (arith, h'))
    | inl b ↦ elim (Option-cases (command_receipt c.command_id db)) [
      | inr (old, f) ↦ absurd (
          let h' : false ≡ true =
            rw (f, insert_command) at (rw b at (rw (e, insert_command) at h)) in
          ground (arith, h'))
      | inl fresh ↦
          rw (e, insert_command)
            (rw b (
              rw (fresh, insert_command)
                (record {
                  job = j;
                  there = e;
                  expected = ground (arith, b);
                  answer = refl;
                  left = let same : (c.job_id == c.job_id) ≡ true = ground arith in rw same refl;
                })))
    ]
  ]
]

-- A command that is out of date.
insert_command-stale :
    (c : CommandReceipt) (db : Database) (j : ControlJob)
    → db.jobs c.job_id ≡ some j
    → c.expected_revision < j.revision
    → insert_command c (db.jobs c.job_id) db ≡ (ok conflict, db)
insert_command-stale c db j e less =
    let b : (j.revision == c.expected_revision) ≡ false = ground (arith, less) in
    rw (e, insert_command) (rw b refl)

module _ (clock : ℤ) (earlier : Database) (id : Text) (job expected : ℕ) (next : Text)
    (deleted : Bool) (db : Database) where
  abbrev commanding : Result MutationOutcome × Database
  commanding = apply_command clock earlier id job expected next deleted db

  commanding-Commanded :
      is_applied commanding.0 ≡ true
      → Commanded (command_at id job expected next deleted) db commanding
  unfolding apply_command command_row
  commanding-Commanded h = elim (Option-cases (command_receipt id earlier)) [
    | inr (old, e) ↦
        absurd (let h' : false ≡ true = rw (e, apply_command) at h in ground (arith, h'))
    | inl n ↦
        rw (n, apply_command)
          (by_number (command_number clock (command_at id job expected next deleted))
            (rw (n, apply_command) at h))
  ]
    where
      c : CommandReceipt
      c = command_at id job expected next deleted

      by_number :
          (m : Result ℕ)
          → is_applied (checked m (command_row c) db).0 ≡ true
          → Commanded c db (checked m (command_row c) db)
      by_number (err x) f = absurd (ground (arith, f))
      by_number (ok n) f = insert_command-Commanded c db f

  commanding_stale :
      (j : ControlJob)
      → db.jobs job ≡ some j
      → expected < j.revision
      → (commanding.1 ≡ db) × (is_applied commanding.0 ≡ false)
  unfolding apply_command command_row
  commanding_stale j e less = elim (Option-cases (command_receipt id earlier)) [
    | inr (old, f) ↦ rw (f, apply_command) (refl, refl)
    | inl n ↦
        rw (n, apply_command)
          (by_number (command_number clock (command_at id job expected next deleted)))
  ]
    where
      c : CommandReceipt
      c = command_at id job expected next deleted

      by_number :
          (m : Result ℕ)
          → ((checked m (command_row c) db).1 ≡ db)
            × (is_applied (checked m (command_row c) db).0 ≡ false)
      by_number (err x) = (refl, refl)
      by_number (ok n) = rw (insert_command-stale c db j e less) (refl, refl)

revision-le : (j k : ControlJob) → LaterJob j k → j.revision ≤ k.revision
revision-le j k (inl e) = subst (λ x. j.revision ≤ x.revision) e (omega arith)
revision-le j k (inr h) = omega (arith, h)

-- No update is lost: a command that is applied found the job at the revision that it expected, and
-- leaves it at the next one with the intent and the deletion that it carries, which its answer names;
-- and from then on, after any operations of any nodes, a command for that job that expects this
-- revision or an earlier one is not applied and changes nothing.
pub no_update_is_lost :
    (clock clock' : ℤ) (earlier earlier' : Database) (id id' : Text) (job expected expected' : ℕ)
    (next next' : Text) (deleted deleted' : Bool) (db : Database) (ops : List Op)
    → let r = apply_command clock earlier id job expected next deleted db in
      let now = Steps.run ops r.1 in
      let again = apply_command clock' earlier' id' job expected' next' deleted' now in
      is_applied r.0 ≡ true
      → expected' ≤ expected
      → ((j : ControlJob) × (db.jobs job ≡ some j)
          × (j.revision ≡ expected)
          × (r.0 ≡ ok (applied (expected + 1)))
          × (r.1.jobs job
              ≡ some (record j { revision = expected + 1; intent_json = next; deleted = deleted })))
        × (again.1 ≡ now)
        × (is_applied again.0 ≡ false)
no_update_is_lost clock clock' earlier earlier' id id' job expected expected' next next' deleted
      deleted' db ops h le =
    let r = apply_command clock earlier id job expected next deleted db in
    let c = commanding-Commanded clock earlier id job expected next deleted db h in
    let kept =
      (run-Later ops r.1).jobs job (commanded (command_at id job expected next deleted) c.job)
        c.left in
    let grew =
      revision-le (commanded (command_at id job expected next deleted) c.job) kept.0 kept.2 in
    let s =
      commanding_stale clock' earlier' id' job expected' next' deleted' (Steps.run ops r.1) kept.0
        kept.1 (omega (arith, grew, le)) in
    ((c.job, c.there, c.expected, c.answer, c.left), s.0, s.1)

insert_script-run :
    (later db : Database) (id : Text) (t : LeaseToken) (l : Option WorkLease)
    (s : Option ScriptReceipt)
    → is_run (insert_script later id t l s db).0 ≡ true
    → (s ≡ none)
      × ((m : WorkLease) × (l ≡ some m)
          × ((insert_script later id t l s db).1.scripts id ≡ some (begun t m)))
insert_script-run later db id t none s h = absurd (ground (arith, h))
insert_script-run later db id t (some l) (some s) h = absurd (ground (arith, h))
insert_script-run later db id t (some l) none h = (refl, (l, refl, rw (bytes_eq_refl id) refl))

begin_script-run :
    (clock : ℤ) (later : Database) (id : Text) (t : LeaseToken) (db : Database)
    → is_run (begin_script clock later id t db).0 ≡ true
    → (db.scripts id ≡ none)
      × ((now : ℤ) × (l : WorkLease) × (unix_ms clock ≡ ok now)
          × (guarded_lease t now db ≡ some l)
          × ((begin_script clock later id t db).1.scripts id ≡ some (begun t l)))
unfolding begin_script begin_row
begin_script-run clock later id t db h = by_time (script_time clock t) (script_time-now clock t) h
  where
    by_time :
        (m : Result ℤ)
        → ((now : ℤ) → m ≡ ok now → unix_ms clock ≡ ok now)
        → is_run (checked m (begin_row later id t) db).0 ≡ true
        → (db.scripts id ≡ none)
          × ((now : ℤ) × (l : WorkLease) × (unix_ms clock ≡ ok now)
              × (guarded_lease t now db ≡ some l)
              × ((checked m (begin_row later id t) db).1.scripts id ≡ some (begun t l)))
    by_time (err x) g f = absurd (ground (arith, f))
    by_time (ok now) g f =
        let r = insert_script-run later db id t (guarded_lease t now db) (db.scripts id) f in
        (r.0, (now, r.1.0, g now refl, r.1.1, r.1.2))

begin_script-again :
    (clock : ℤ) (later : Database) (id : Text) (t : LeaseToken) (db : Database) (s : ScriptReceipt)
    → db.scripts id ≡ some s
    → ((begin_script clock later id t db).1 ≡ db)
      × (is_run (begin_script clock later id t db).0 ≡ false)
unfolding begin_script begin_row
begin_script-again clock later id t db s e = by_time (script_time clock t)
  where
    by_row :
        (l : Option WorkLease) (o : Option ScriptReceipt)
        → o ≡ some s
        → ((insert_script later id t l o db).1 ≡ db)
          × (is_run (insert_script later id t l o db).0 ≡ false)
    by_row none o f = (refl, ground arith)
    by_row (some l) none f = absurd (ground (arith, f))
    by_row (some l) (some u) f = (refl, ground arith)

    by_time :
        (m : Result ℤ)
        → ((checked m (begin_row later id t) db).1 ≡ db)
          × (is_run (checked m (begin_row later id t) db).0 ≡ false)
    by_time (err x) = (refl, refl)
    by_time (ok now) = by_row (guarded_lease t now db) (db.scripts id) e

guarded_lease-Held :
    (t : LeaseToken) (now : ℤ) (db : Database) (l : WorkLease)
    → guarded_lease t now db ≡ some l
    → (db.leases t.resource ≡ some l) × Held t now l
unfolding guarded_lease
guarded_lease-Held t now db l h = elim (Option-cases (db.leases t.resource)) [
  | inl n ↦ absurd (let h' : none ≡ some l = rw (n, guarded_lease) at h in ground (arith, h'))
  | inr (m, e) ↦ elim (Bool-cases (is_current t now m)) [
    | inr b ↦
        absurd (let h' : none ≡ some l = rw b at (rw (e, guarded_lease) at h) in ground (arith, h'))
    | inl b ↦
        let h' : some m ≡ some l = rw b at (rw (e, guarded_lease) at h) in
        let same : m ≡ l = ground (arith, h') in
        subst (λ x. (db.leases t.resource ≡ some x) × Held t now x) same
          (e, is_current-Held t now m b)
  ]
]

-- A script runs once: who is told to run it shows the token of its resource's lease, which has neither
-- ended nor, at the time that the clock reads, run out, and the script had no receipt; and from then on, after any operations of any nodes with any clocks, nobody is told
-- to run it again, whatever token is shown, and asking changes nothing.
pub script_runs_once :
    (clock clock' : ℤ) (later later' : Database) (id : Text) (t u : LeaseToken) (db : Database)
    (ops : List Op)
    → is_run (begin_script clock later id t db).0 ≡ true
    → let now = Steps.run ops (begin_script clock later id t db).1 in
      (db.scripts id ≡ none)
      × ((now_ms : ℤ) × (l : WorkLease) × (unix_ms clock ≡ ok now_ms)
          × (db.leases t.resource ≡ some l)
          × Held t now_ms l)
      × ((begin_script clock' later' id u now).1 ≡ now)
      × (is_run (begin_script clock' later' id u now).0 ≡ false)
script_runs_once clock clock' later later' id t u db ops h =
    let r = begin_script-run clock later id t db h in
    let db' = (begin_script clock later id t db).1 in
    let kept = (run-Later ops db').scripts id (begun t r.1.1) r.1.4 in
    let g = guarded_lease-Held t r.1.0 db r.1.1 r.1.3 in
    let s = begin_script-again clock' later' id u (Steps.run ops db') kept.0 kept.1 in
    (r.0, (r.1.0, r.1.1, r.1.2, g.0, g.1), s.0, s.1)
