-- ===== src/Cluster/Control/Runs/Jobs.antt =====
-- crates/nzbd-cluster/src/control.rs: nothing is taken back by the seeding and commanding of jobs.
use nzbd.Prelude.{
  ℕ, ◌+◌, ◌<◌, ◌≡◌, refl, sym, subst, inl, inr, Bool, ◌∷◌, none, some, arith, Bool-cases,
  Option-cases, ◌==◌, find, bytes_eq, bytes_eq-eq,
}
use nzbd.Prelude.Int.{ℤ}
use nzbd.Types.Torrent.{Text}
use nzbd.Cluster.Control.{ControlJob, CommandReceipt, Database}
use nzbd.Cluster.Control.Receipts.{
  seed_job, seed_id, seed_row, with_job, new_job, apply_command, command_row, insert_command,
  commanded, command_number, command_receipt,
}
use nzbd.Cluster.Control.Publications.{publication_receipt}
use nzbd.Cluster.Control.Steps.{Later, put_job-Grows, Later-refl}
use nzbd.Cluster.Control.Runs.Rows.{checked-Later, with_job-Later}

pub commanded-Later :
    (c : CommandReceipt) (j : ControlJob) (db : Database)
    → db.jobs c.job_id ≡ some j
    → j.revision < c.applied_revision
    → command_receipt c.command_id db ≡ none
    → Later db (record (with_job c.job_id (commanded c j) db) { commands = c ∷ db.commands })
unfolding command_receipt publication_receipt
commanded-Later c j db e up fresh =
    let old = Later-refl db in
    record {
      jobs = put_job-Grows c.job_id (commanded c j) db.jobs λ a f.
          let same : a ≡ j = ground (arith, e, f) in
          inr (subst (λ x. x.revision < c.applied_revision) (sym same) up);
      leases = old.leases;
      commands = λ id x f. elim (Bool-cases (bytes_eq c.command_id id)) [
        | inl b ↦
            let none_here : find (λ (y : CommandReceipt). bytes_eq y.command_id id) db.commands
                ≡ none =
              subst (λ k. find (λ (y : CommandReceipt). bytes_eq y.command_id k) db.commands ≡ none)
                (bytes_eq-eq c.command_id id b) fresh in
            absurd (ground (arith, none_here, f))
        | inr b ↦ (x, rw b f, refl)
      ];
      publications = old.publications;
      ranges = old.ranges;
      scripts = old.scripts;
    }

pub seed_job-Later :
    (clock : ℤ) (id : ℕ) (incarnation intent : Text) (db : Database)
    → Later db (seed_job clock id incarnation intent db).1
unfolding seed_job seed_row
seed_job-Later clock id incarnation intent db =
    checked-Later (seed_id clock id) (seed_row id incarnation intent) db λ _.
      elim (Option-cases (db.jobs id)) [
        | inl n ↦
            rw (n, seed_row)
              (with_job-Later id (new_job incarnation intent) db
                λ a f. absurd (ground (arith, n, f)))
        | inr (j, e) ↦ rw (e, seed_row) (Later-refl db)
      ]

pub insert_command-Later :
    (c : CommandReceipt) (db : Database)
    → c.applied_revision ≡ c.expected_revision + 1
    → Later db (insert_command c (db.jobs c.job_id) db).1
insert_command-Later c db up = elim (Option-cases (db.jobs c.job_id)) [
  | inl n ↦ rw n (Later-refl db)
  | inr (j, e) ↦ elim (Bool-cases (j.revision == c.expected_revision)) [
    | inr b ↦ rw (e, insert_command) (rw b (Later-refl db))
    | inl b ↦ elim (Option-cases (command_receipt c.command_id db)) [
      | inr (old, f) ↦ rw (e, insert_command) (rw b (rw (f, insert_command) (Later-refl db)))
      | inl fresh ↦
          rw (e, insert_command)
            (rw b
              (rw (fresh, insert_command) (commanded-Later c j db e (ground (arith, b, up)) fresh)))
    ]
  ]
]

pub apply_command-Later :
    (clock : ℤ) (earlier : Database) (id : Text) (job expected : ℕ) (next : Text) (deleted : Bool)
    (db : Database)
    → Later db (apply_command clock earlier id job expected next deleted db).1
unfolding apply_command command_row
apply_command-Later clock earlier id job expected next deleted db =
    elim (Option-cases (command_receipt id earlier)) [
      | inr (old, e) ↦ rw (e, apply_command) (Later-refl db)
      | inl n ↦
          let c : CommandReceipt = record {
            command_id = id;
            job_id = job;
            expected_revision = expected;
            applied_revision = expected + 1;
            next_intent = next;
            deleted = deleted;
          } in
          rw (n, apply_command)
            (checked-Later (command_number clock c) (command_row c) db
              λ _. insert_command-Later c db refl)
    ]
