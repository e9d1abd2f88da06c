-- ===== src/Cluster/Control/Runs/Leases.antt =====
-- crates/nzbd-cluster/src/control.rs: nothing is taken back by the operations on leases.
use nzbd.Prelude.{
  ℕ, ◌<◌, ◌≡◌, refl, sym, subst, inl, inr, not, ◌&&◌, Option, none, some, arith, Bool-cases,
  Option-cases,
}
use nzbd.Prelude.Int.{ℤ}
use nzbd.Types.Torrent.{Text}
use nzbd.Cluster.Control.{
  Result, ok, err, WorkLease, LeaseToken, Database, incremented, is_current, names,
}
use nzbd.Cluster.Control.Leases.{
  Claim, acquire, claim_times, claim_row, upsert_lease, renew, renewal_times, renew_row,
  write_renewal, renewed, release, release_time, release_row, write_release, released,
}
use nzbd.Cluster.Control.Steps.{Later, LaterLease, Later-refl}
use nzbd.Cluster.Control.Runs.Rows.{checked-Later, with_lease-Later, incremented-eq}

pub upsert-LaterLease :
    (c : Claim) (now expires : ℤ) (o : Option WorkLease) (l : WorkLease)
    → upsert_lease c now expires o ≡ some l
    → (a : WorkLease) → o ≡ some a
    → a.fence < l.fence
unfolding upsert_lease
upsert-LaterLease c now expires none l e a f = absurd (ground (arith, f))
upsert-LaterLease c now expires (some b) l e a f = ground (arith, e, f)

pub acquire-Later :
    (clock : ℤ) (later : Database) (c : Claim) (db : Database)
    → Later db (acquire clock later c db).1
unfolding acquire claim_row
acquire-Later clock later c db = checked-Later (claim_times clock c) (claim_row later c) db λ times.
    elim (Option-cases (upsert_lease c times.0 times.1 (db.leases c.resource))) [
      | inl n ↦ rw (n, claim_row) (Later-refl db)
      | inr (l, e) ↦
          rw (e, claim_row)
            (with_lease-Later c.resource l db
              λ a f. inl (upsert-LaterLease c times.0 times.1 (db.leases c.resource) l e a f))
    ]

pub write_renewal-Later :
    (r : Text) (expires : ℤ) (l : WorkLease) (db : Database)
    → db.leases r ≡ some l
    → Later db (write_renewal r (renewed expires (incremented l.revision) l) db).1
write_renewal-Later r expires l db e = by_number (incremented l.revision) refl
  where
    by_number :
        (m : Result ℕ)
        → incremented l.revision ≡ m
        → Later db (write_renewal r (renewed expires m l) db).1
    by_number (err x) i = Later-refl db
    by_number (ok n) i =
        let up = incremented-eq l.revision n i in
        with_lease-Later r (record l { expires_at_ms = expires; revision = n }) db
          λ a f.
            let same : a ≡ l = ground (arith, e, f) in
            subst (λ x. LaterLease x (record l { expires_at_ms = expires; revision = n }))
              (sym same) (inr (refl, omega (arith, up), λ h. h))

pub renew-Later :
    (clock : ℤ) (t : LeaseToken) (ttl : ℕ) (db : Database) → Later db (renew clock t ttl db).1
unfolding renew renew_row
renew-Later clock t ttl db = checked-Later (renewal_times clock t ttl) (renew_row t) db λ times.
    elim (Option-cases (db.leases t.resource)) [
      | inl n ↦ rw (n, renew_row) (Later-refl db)
      | inr (l, e) ↦ elim (Bool-cases (is_current t times.0 l)) [
        | inl b ↦ rw (e, renew_row) (rw b (write_renewal-Later t.resource times.1 l db e))
        | inr b ↦ rw (e, renew_row) (rw b (Later-refl db))
      ]
    ]

pub write_release-Later :
    (r : Text) (now : ℤ) (l : WorkLease) (db : Database)
    → db.leases r ≡ some l
    → Later db (write_release r now l (incremented l.revision) db).1
write_release-Later r now l db e = by_number (incremented l.revision) refl
  where
    by_number :
        (m : Result ℕ) → incremented l.revision ≡ m → Later db (write_release r now l m db).1
    by_number (err x) i = Later-refl db
    by_number (ok n) i =
        let up = incremented-eq l.revision n i in
        with_lease-Later r (released now n l) db λ a f.
          let same : a ≡ l = ground (arith, e, f) in
          subst (λ x. LaterLease x (released now n l)) (sym same)
            (inr (refl, omega (arith, up), λ h. refl))

pub release-Later : (clock : ℤ) (t : LeaseToken) (db : Database) → Later db (release clock t db).1
unfolding release release_row
release-Later clock t db = checked-Later (release_time clock t) (release_row t) db λ now.
    elim (Option-cases (db.leases t.resource)) [
      | inl n ↦ rw (n, release_row) (Later-refl db)
      | inr (l, e) ↦ elim (Bool-cases (names t l && not l.terminal)) [
        | inl b ↦ rw (e, release_row) (rw b (write_release-Later t.resource now l db e))
        | inr b ↦ rw (e, release_row) (rw b (Later-refl db))
      ]
    ]
