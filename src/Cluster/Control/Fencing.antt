-- ===== src/Cluster/Control/Fencing.antt =====
-- crates/nzbd-cluster/src/control.rs: a token that another lease has followed, or whose lease has
-- ended, is good for nothing.
use nzbd.Prelude.{
  ℕ, ◌≤◌, ◌<◌, ◌≡◌, refl, sym, ◌∙◌, ap, subst, ◌⊎◌, inl, inr, Bool, true, false, not, ◌&&◌, List,
  Option, none, some, arith, Option-cases, ◌==◌, bytes_eq_refl,
}
use nzbd.Prelude.Int.{ℤ}
use nzbd.Types.Torrent.{Text}
use nzbd.Cluster.Control.{
  ControlError, Result, ok, err, WorkLease, LeaseToken, Database, checked, is_current, names,
}
use nzbd.Cluster.Control.Leases.{
  Claim, acquired, acquire, claim_times, claim_row, upsert_lease, token_of, held_by, current_lease,
  renew, renewal_times, renew_row, release, release_time, release_row,
}
use nzbd.Cluster.Control.Receipts.{MutationOutcome, applied, duplicate, conflict}
use nzbd.Cluster.Control.Publications.{
  publish_result, publish_time, publish_row, receipt_at, insert_publication, publication_receipt,
}
use nzbd.Cluster.Control.Scripts.{
  ScriptReceiptOutcome, run, already_done, ambiguous, script_conflict, begin_script, begin_row,
  insert_script, script_time, guarded_lease, standing, finish_script, finish_row, update_script,
}
use nzbd.Cluster.Control.Steps as Steps
use nzbd.Cluster.Control.Steps.{Op, Later}
use nzbd.Cluster.Control.Runs.{run-Later}
use nzbd.Cluster.Control.Runs.Leases.{upsert-LaterLease}

-- Does the answer say that the operation was done?
abbrev pub is_renewed : Result (Option LeaseToken) → Bool
is_renewed (ok (some t)) = true
is_renewed (ok none) = false
is_renewed (err e) = false

abbrev pub is_released : Result Bool → Bool
is_released (ok b) = b
is_released (err e) = false

abbrev pub is_applied : Result MutationOutcome → Bool
is_applied (ok (applied n)) = true
is_applied (ok (duplicate n)) = false
is_applied (ok conflict) = false
is_applied (err e) = false

abbrev pub is_run : Result ScriptReceiptOutcome → Bool
is_run (ok run) = true
is_run (ok already_done) = false
is_run (ok ambiguous) = false
is_run (ok script_conflict) = false
is_run (err e) = false

-- The lease of the token's resource is a later one, or the same and at its end.
abbrev pub Spent : LeaseToken → Database → Type 0
Spent t db =
    (l : WorkLease) × (db.leases t.resource ≡ some l)
    × ((t.fence < l.fence) ⊎ ((t.fence ≡ l.fence) × (l.terminal ≡ true)))

pub Spent-Later : (t : LeaseToken) (db db' : Database) → Spent t db → Later db db' → Spent t db'
Spent-Later t db db' (l, e, h) later =
    let m = later.leases t.resource l e in (m.0, m.1, still m.0 h m.2)
  where
    still :
        (m : WorkLease)
        → (t.fence < l.fence) ⊎ ((t.fence ≡ l.fence) × (l.terminal ≡ true))
        → Steps.LaterLease l m
        → (t.fence < m.fence) ⊎ ((t.fence ≡ m.fence) × (m.terminal ≡ true))
    still m (inl a) (inl b) = inl (omega (arith, a, b))
    still m (inl a) (inr b) = inl (omega (arith, a, b.0))
    still m (inr a) (inl b) = inl (omega (arith, a.0, b))
    still m (inr a) (inr b) = inr (a.0 ∙ b.0, b.2 a.1)

spent-names :
    (t : LeaseToken) (l : WorkLease)
    → (t.fence < l.fence) ⊎ ((t.fence ≡ l.fence) × (l.terminal ≡ true))
    → (names t l && not l.terminal) ≡ false
unfolding names
spent-names t l (inl a) =
    let n : (l.fence == t.fence) ≡ false = ground (arith, a) in rw n (ground arith)
spent-names t l (inr a) = rw a.1 (ground arith)

spent-is_current :
    (t : LeaseToken) (l : WorkLease) (now : ℤ)
    → (t.fence < l.fence) ⊎ ((t.fence ≡ l.fence) × (l.terminal ≡ true))
    → is_current t now l ≡ false
spent-is_current t l now h = let n = spent-names t l h in ground (arith, n)

checked-Refused :
    {P A : Type 0} (done : Result A → Bool) (m : Result P) (k : P → Database → Result A × Database)
    (db : Database)
    → ((e : ControlError) → done (err e) ≡ false)
    → ((p : P) → ((k p db).1 ≡ db) × (done (k p db).0 ≡ false))
    → ((checked m k db).1 ≡ db) × (done (checked m k db).0 ≡ false)
checked-Refused done (err e) k db f h = (refl, f e)
checked-Refused done (ok p) k db f h = h p

renew-Spent :
    (clock : ℤ) (t : LeaseToken) (ttl : ℕ) (db : Database)
    → Spent t db
    → ((renew clock t ttl db).1 ≡ db) × (is_renewed (renew clock t ttl db).0 ≡ false)
unfolding renew renew_row
renew-Spent clock t ttl db (l, e, h) =
    checked-Refused is_renewed (renewal_times clock t ttl) (renew_row t) db (λ _. refl)
      λ times. rw (e, renew_row) (rw (spent-is_current t l times.0 h) (refl, refl))

release-Spent :
    (clock : ℤ) (t : LeaseToken) (db : Database)
    → Spent t db
    → ((release clock t db).1 ≡ db) × (is_released (release clock t db).0 ≡ false)
unfolding release release_row
release-Spent clock t db (l, e, h) =
    checked-Refused is_released (release_time clock t) (release_row t) db (λ _. refl)
      λ now. rw (e, release_row) (rw (spent-names t l h) (refl, refl))

publish-Spent :
    (clock : ℤ) (earlier : Database) (id : Text) (t : LeaseToken) (expected : ℕ)
    (result_id result_ref result_job : Text) (db : Database)
    → Spent t db
    → let r = publish_result clock earlier id t expected result_id result_ref result_job db in
      (r.1 ≡ db) × (is_applied r.0 ≡ false)
unfolding publish_result publish_row
publish-Spent clock earlier id t expected result_id result_ref result_job db (l, e, h) =
    elim (Option-cases (publication_receipt id earlier)) [
      | inr (old, f) ↦ rw (f, publish_result) (refl, refl)
      | inl n ↦
          let p = receipt_at id t expected result_id result_ref result_job in
          rw (n, publish_result)
            (checked-Refused is_applied (publish_time clock t expected) (publish_row p) db
              (λ _. refl)
              λ now. rw (e, insert_publication) (rw (spent-is_current t l now h) (refl, refl)))
    ]

guarded_lease-Spent :
    (t : LeaseToken) (now : ℤ) (db : Database) → Spent t db → guarded_lease t now db ≡ none
guarded_lease-Spent t now db (l, e, h) =
    rw (e, guarded_lease) (rw (spent-is_current t l now h) refl)

standing-is_run : (db : Database) (id : Text) → is_run (ok (standing (db.scripts id))) ≡ false
standing-is_run db id = ground arith

begin-Spent :
    (clock : ℤ) (later : Database) (id : Text) (t : LeaseToken) (db : Database)
    → Spent t db
    → ((begin_script clock later id t db).1 ≡ db)
      × (is_run (begin_script clock later id t db).0 ≡ false)
unfolding begin_script begin_row
begin-Spent clock later id t db s =
    checked-Refused is_run (script_time clock t) (begin_row later id t) db (λ _. refl)
      λ now. rw (guarded_lease-Spent t now db s, insert_script) (refl, standing-is_run later id)

finish-Spent :
    (clock : ℤ) (later : Database) (id : Text) (t : LeaseToken) (db : Database)
    → Spent t db
    → (finish_script clock later id t db).1 ≡ db
unfolding finish_script finish_row
finish-Spent clock later id t db s = by_time (script_time clock t)
  where
    by_time : (m : Result ℤ) → (checked m (finish_row later id t) db).1 ≡ db
    by_time (err e) = refl
    by_time (ok now) = rw (guarded_lease-Spent t now db s, update_script) refl

-- The token that an operation shows, and whether it answers that it was done; `finish_script` answers
-- alike whoever finished.
abbrev pub shown : Op → Option LeaseToken
shown (Steps.renewing clock t ttl) = some t
shown (Steps.releasing clock t) = some t
shown (Steps.publishing clock earlier id t e r ref job) = some t
shown (Steps.beginning clock later id t) = some t
shown (Steps.finishing clock later id t) = some t
shown (Steps.acquiring clock later c) = none
shown (Steps.seeding clock id inc intent) = none
shown (Steps.commanding clock earlier c id e next del) = none

unfoldable pub is_done : Op → Database → Bool
is_done (Steps.renewing clock t ttl) db = is_renewed (renew clock t ttl db).0
is_done (Steps.releasing clock t) db = is_released (release clock t db).0
is_done (Steps.publishing clock earlier id t e r ref job) db =
    is_applied (publish_result clock earlier id t e r ref job db).0
is_done (Steps.beginning clock later id t) db = is_run (begin_script clock later id t db).0
is_done _ db = false

Spent-of_shown : (u t : LeaseToken) (db : Database) → some u ≡ some t → Spent t db → Spent u db
Spent-of_shown u t db e s = let same : t ≡ u = ground (arith, e) in subst (λ x. Spent x db) same s

pub Spent-Refused :
    (op : Op) (t : LeaseToken) (db : Database)
    → shown op ≡ some t
    → Spent t db
    → (Steps.apply op db ≡ db) × (is_done op db ≡ false)
unfolding Steps.apply is_done
Spent-Refused (Steps.renewing clock u ttl) t db e s =
    renew-Spent clock u ttl db (Spent-of_shown u t db e s)
Spent-Refused (Steps.releasing clock u) t db e s =
    release-Spent clock u db (Spent-of_shown u t db e s)
Spent-Refused (Steps.publishing clock earlier id u n r ref job) t db e s =
    publish-Spent clock earlier id u n r ref job db (Spent-of_shown u t db e s)
Spent-Refused (Steps.beginning clock later id u) t db e s =
    begin-Spent clock later id u db (Spent-of_shown u t db e s)
Spent-Refused (Steps.finishing clock later id u) t db e s =
    (finish-Spent clock later id u db (Spent-of_shown u t db e s), refl)
Spent-Refused (Steps.acquiring clock later c) t db e s = absurd (ground (arith, e))
Spent-Refused (Steps.seeding clock id inc intent) t db e s = absurd (ground (arith, e))
Spent-Refused (Steps.commanding clock earlier c id n next del) t db e s = absurd (ground (arith, e))

-- What a successful claim leaves: the lease of its token, later than the one before.
pub record Granted (r : Text) (t : LeaseToken) (db db' : Database) : Type 0 where
  pub lease : WorkLease
  pub there : db'.leases r ≡ some lease
  pub token : t ≡ token_of r lease
  pub later : (a : WorkLease) → db.leases r ≡ some a → a.fence < lease.fence

acquire-Granted :
    (clock : ℤ) (later : Database) (c : Claim) (db : Database) (t : LeaseToken)
    → (acquire clock later c db).0 ≡ ok (acquired t)
    → Granted c.resource t db (acquire clock later c db).1
unfolding acquire claim_row
acquire-Granted clock later c db t e = by_times (claim_times clock c) e
  where
    by_row :
        (times : ℤ × ℤ) (o : Option WorkLease)
        → upsert_lease c times.0 times.1 (db.leases c.resource) ≡ o
        → (claim_row later c times db).0 ≡ ok (acquired t)
        → Granted c.resource t db (claim_row later c times db).1
    by_row times none i f =
        let f' : held_by (current_lease c.resource later) ≡ ok (acquired t) =
          rw (i, claim_row) at f in
        absurd (ground (arith, f'))
    by_row times (some l) i f =
        let f' : ok (acquired (token_of c.resource l)) ≡ ok (acquired t) = rw (i, claim_row) at f in
        rw (i, claim_row)
          (record {
            lease = l;
            there = rw (bytes_eq_refl c.resource) refl;
            token = sym (ground (arith, f'));
            later = upsert-LaterLease c times.0 times.1 (db.leases c.resource) l i;
          })

    by_times :
        (m : Result (ℤ × ℤ))
        → (checked m (claim_row later c) db).0 ≡ ok (acquired t)
        → Granted c.resource t db (checked m (claim_row later c) db).1
    by_times (err x) f = absurd (ground (arith, f))
    by_times (ok times) f =
        by_row times (upsert_lease c times.0 times.1 (db.leases c.resource)) refl f

-- Fencing: when a lease was acquired, and later, after any operations of any nodes with any clocks,
-- its resource was acquired again, the second token has the greater fence; and from then on, after any
-- further operations, whatever shows the first token (a renewal, a release, a publication, the begin
-- or the end of a script) changes nothing in the store, and no such renewal, release, publication or
-- begin is answered as done.
pub stale_token_is_fenced :
    (k k' : ℤ) (later later' : Database) (c c' : Claim) (db : Database) (ops ops' : List Op)
    (t u : LeaseToken) (op : Op)
    → (acquire k later c db).0 ≡ ok (acquired t)
    → (acquire k' later' c' (Steps.run ops (acquire k later c db).1)).0 ≡ ok (acquired u)
    → c'.resource ≡ c.resource
    → shown op ≡ some t
    → let now = Steps.run ops' (acquire k' later' c' (Steps.run ops (acquire k later c db).1)).1 in
      (t.fence < u.fence) × (Steps.apply op now ≡ now) × (is_done op now ≡ false)
stale_token_is_fenced k k' later later' c c' db ops ops' t u op e f same shows =
    let db1 = (acquire k later c db).1 in
    let db2 = Steps.run ops db1 in
    let db3 = (acquire k' later' c' db2).1 in
    let first = acquire-Granted k later c db t e in
    let second = acquire-Granted k' later' c' db2 u f in
    let kept = (run-Later ops db1).leases c.resource first.lease first.there in
    let grew = second.later kept.0 (subst (λ r. db2.leases r ≡ some kept.0) (sym same) kept.1) in
    let le = fence_le first.lease kept.0 kept.2 in
    let tf : t.fence ≡ first.lease.fence = ap (λ (x : LeaseToken). x.fence) first.token in
    let uf : u.fence ≡ second.lease.fence = ap (λ (x : LeaseToken). x.fence) second.token in
    let tr : t.resource ≡ c'.resource =
      ap (λ (x : LeaseToken). x.resource) first.token ∙ sym same in
    let less : t.fence < second.lease.fence = omega (arith, tf, le, grew) in
    let spent : Spent t db3 = (
      second.lease,
      subst (λ r. db3.leases r ≡ some second.lease) (sym tr) second.there,
      inl less,
    ) in
    let r =
      Spent-Refused op t (Steps.run ops' db3) shows
        (Spent-Later t db3 (Steps.run ops' db3) spent (run-Later ops' db3)) in
    (omega (arith, less, uf), r.0, r.1)
  where
    fence_le : (l m : WorkLease) → Steps.LaterLease l m → l.fence ≤ m.fence
    fence_le l m (inl h) = omega (arith, h)
    fence_le l m (inr h) = omega (arith, h.0)
