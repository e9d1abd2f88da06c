-- ===== src/Cluster/Control/Runs/Rows.antt =====
-- crates/nzbd-cluster/src/control.rs: nothing is taken back by the rows that the statements write.
use nzbd.Prelude.{ℕ, ◌+◌, ◌≡◌, some, arith}
use nzbd.Types.Torrent.{Text}
use nzbd.Cluster.Control.{
  Result, ok, err, ControlJob, WorkLease, ScriptReceipt, Database, incremented, checked,
}
use nzbd.Cluster.Control.Leases.{with_lease}
use nzbd.Cluster.Control.Receipts.{with_job, command_receipt}
use nzbd.Cluster.Control.Publications.{publication_receipt}
use nzbd.Cluster.Control.Scripts.{with_script}
use nzbd.Cluster.Control.Steps.{
  Later, LaterLease, LaterJob, LaterScript, LaterLease-refl, LaterScript-refl, put_text-Grows,
  put_job-Grows, Later-refl,
}

pub checked-Later :
    {P A : Type 0} (m : Result P) (k : P → Database → Result A × Database) (db : Database)
    → ((p : P) → Later db (k p db).1)
    → Later db (checked m k db).1
checked-Later (err e) k db h = Later-refl db
checked-Later (ok p) k db h = h p

pub with_lease-Later :
    (r : Text) (l : WorkLease) (db : Database)
    → ((a : WorkLease) → db.leases r ≡ some a → LaterLease a l)
    → Later db (with_lease r l db)
unfolding command_receipt publication_receipt
with_lease-Later r l db h =
    let old = Later-refl db in
    record {
      jobs = old.jobs;
      leases = put_text-Grows LaterLease r l db.leases LaterLease-refl h;
      commands = old.commands;
      publications = old.publications;
      ranges = old.ranges;
      scripts = old.scripts;
    }

pub with_job-Later :
    (id : ℕ) (j : ControlJob) (db : Database)
    → ((a : ControlJob) → db.jobs id ≡ some a → LaterJob a j)
    → Later db (with_job id j db)
unfolding command_receipt publication_receipt
with_job-Later id j db h =
    let old = Later-refl db in
    record {
      jobs = put_job-Grows id j db.jobs h;
      leases = old.leases;
      commands = old.commands;
      publications = old.publications;
      ranges = old.ranges;
      scripts = old.scripts;
    }

pub with_script-Later :
    (id : Text) (s : ScriptReceipt) (db : Database)
    → ((a : ScriptReceipt) → db.scripts id ≡ some a → LaterScript a s)
    → Later db (with_script id s db)
unfolding command_receipt publication_receipt
with_script-Later id s db h =
    let old = Later-refl db in
    record {
      jobs = old.jobs;
      leases = old.leases;
      commands = old.commands;
      publications = old.publications;
      ranges = old.ranges;
      scripts = put_text-Grows LaterScript id s db.scripts LaterScript-refl h;
    }

pub incremented-eq : (n m : ℕ) → incremented n ≡ ok m → m ≡ n + 1
unfolding incremented
incremented-eq n m e = ground (arith, e)
