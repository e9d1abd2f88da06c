-- ===== src/Cluster/Control/Commits.antt =====
-- crates/nzbd-cluster/src/control.rs: what was committed stays committed, and is committed once.
use nzbd.Prelude.{
  ℕ, ◌+◌, ◌≤◌, ◌<◌, ◌≡◌, refl, sym, ◌∙◌, ap, subst, ◌⊎◌, inl, inr, true, false, List, some, ◌∷◌,
  arith, Bool-cases, Option-cases, ◌==◌, bytes_eq, bytes_eq_refl,
}
use nzbd.Prelude.Int.{ℤ}
use nzbd.Types.Torrent.{Text}
use nzbd.Cluster.Control.{
  Result, ok, err, WorkLease, LeaseToken, PublicationReceipt, Database, put_text, checked,
  is_current, names, unix_ms,
}
use nzbd.Cluster.Control.Receipts.{MutationOutcome, applied, duplicate}
use nzbd.Cluster.Control.Publications.{
  publish_result, publish_time, publish_row, receipt_at, insert_publication, publication_receipt,
  publish_all, publish_answer, job_ready, is_used, finished,
}
use nzbd.Cluster.Control.Holding.{Held, is_current-Held, publish_time-now}
use nzbd.Cluster.Control.Steps as Steps
use nzbd.Cluster.Control.Steps.{Op, Later}
use nzbd.Cluster.Control.Runs.{run-Later}
use nzbd.Cluster.Control.Runs.Publishing.{Publication, published, publish_all-Publication}
use nzbd.Cluster.Control.Fencing.{is_applied, is_done, shown, Spent, Spent-Later, Spent-Refused}

-- What a publication that was applied found, and what it leaves.
pub record Published (clock : ℤ) (id : Text) (t : LeaseToken) (expected : ℕ) (db : Database)
    (r : Result MutationOutcome × Database) : Type 0 where
  pub lease : WorkLease
  pub now : ℤ
  pub there : db.leases t.resource ≡ some lease
  pub current : is_current t now lease ≡ true
  pub on_time : unix_ms clock ≡ ok now
  pub row : PublicationReceipt
  pub about : (row.receipt_id ≡ id) × (row.expected_job_revision ≡ expected)
  pub ready : job_ready row lease (db.jobs lease.job_id) ≡ true
  pub publication : Publication row lease db r.1
  pub answer : r.0 ≡ ok (applied (expected + 1))
  pub token : row.token ≡ t

module _ (clock : ℤ) (earlier : Database) (id : Text) (t : LeaseToken) (expected : ℕ)
    (result_id result_ref result_job : Text) (db : Database) where
  abbrev publishing : Result MutationOutcome × Database
  publishing = publish_result clock earlier id t expected result_id result_ref result_job db

  insert_publication-Published :
      (now : ℤ)
      → unix_ms clock ≡ ok now
      → let p = receipt_at id t expected result_id result_ref result_job now in
        is_applied (insert_publication p (db.leases t.resource) db).0 ≡ true
        → Published clock id t expected db (insert_publication p (db.leases t.resource) db)
  insert_publication-Published now time h =
      let p = receipt_at id t expected result_id result_ref result_job now in
      elim (Option-cases (db.leases t.resource)) [
        | inl n ↦ absurd (let h' : false ≡ true = rw n at h in ground (arith, h'))
        | inr (l, e) ↦ elim (Bool-cases (is_current t now l)) [
          | inr b ↦ absurd (
              let h' : false ≡ true = rw b at (rw (e, insert_publication) at h) in
              ground (arith, h'))
          | inl b ↦ elim (Bool-cases (job_ready p l (db.jobs l.job_id))) [
            | inr c ↦ absurd (
                let h' : false ≡ true = rw c at (rw b at (rw (e, insert_publication) at h)) in
                ground (arith, h'))
            | inl c ↦ elim (Bool-cases (is_used p db)) [
              | inl d ↦ absurd (
                  let h' : false ≡ true =
                    rw d at (rw c at (rw b at (rw (e, insert_publication) at h))) in
                  ground (arith, h'))
              | inr d ↦
                  rw (e, insert_publication)
                    (rw b (
                      rw c (
                        rw d (
                          by_result l e b c (publish_all p l db) refl
                            (rw d at (rw c at (rw b at (rw (e, insert_publication) at h))))))))
            ]
          ]
        ]
      ]
    where
      by_result :
          (l : WorkLease)
          → let p = receipt_at id t expected result_id result_ref result_job now in
            db.leases t.resource ≡ some l
            → is_current t now l ≡ true
            → job_ready p l (db.jobs l.job_id) ≡ true
            → (m : Result Database) → publish_all p l db ≡ m
            → is_applied (publish_answer p m db).0 ≡ true
            → Published clock id t expected db (publish_answer p m db)
      by_result l e b c (err x) i f = absurd (ground (arith, f))
      by_result l e b c (ok db') i f = record {
        lease = l;
        now = now;
        there = e;
        current = b;
        on_time = time;
        row = receipt_at id t expected result_id result_ref result_job now;
        about = (refl, refl);
        ready = c;
        publication =
            publish_all-Publication (receipt_at id t expected result_id result_ref result_job now) l
              db db' i;
        answer = refl;
        token = refl;
      }

  publishing-Published :
      is_applied publishing.0 ≡ true → Published clock id t expected db publishing
  unfolding publish_result publish_row
  publishing-Published h = elim (Option-cases (publication_receipt id earlier)) [
    | inr (old, e) ↦
        absurd (let h' : false ≡ true = rw (e, publish_result) at h in ground (arith, h'))
    | inl n ↦
        rw (n, publish_result)
          (by_time (publish_time clock t expected) (publish_time-now clock t expected)
            (rw (n, publish_result) at h))
  ]
    where
      rows : ℤ → Database → Result MutationOutcome × Database
      rows = publish_row (receipt_at id t expected result_id result_ref result_job)

      by_time :
          (m : Result ℤ)
          → ((now : ℤ) → m ≡ ok now → unix_ms clock ≡ ok now)
          → is_applied (checked m rows db).0 ≡ true
          → Published clock id t expected db (checked m rows db)
      by_time (err x) g f = absurd (ground (arith, f))
      by_time (ok now) g f = insert_publication-Published now (g now refl) f

  Published-Spent :
      (r : Result MutationOutcome × Database) (u : LeaseToken)
      → Published clock id t expected db r
      → u.resource ≡ t.resource
      → u.fence ≤ t.fence
      → Spent u r.1
  unfolding names
  Published-Spent r u p same le =
      let v = p.publication in
      let l = finished v.number p.lease in
      let ur : u.resource ≡ p.row.token.resource =
        same ∙ ap (λ (x : LeaseToken). x.resource) (sym p.token) in
      let here : put_text p.row.token.resource l v.between.leases u.resource ≡ some l =
        rw ur (rw (bytes_eq_refl p.row.token.resource) refl) in
      let fence : p.lease.fence ≡ t.fence = ground (arith, p.current) in
      (
        l,
        subst (λ d. d.leases u.resource ≡ some l) (sym v.result) here,
        ended u.fence (omega (arith, fence, le)),
      )
    where
      ended :
          (n : ℕ) → n ≤ p.lease.fence → (n < p.lease.fence) ⊎ ((n ≡ p.lease.fence) × (true ≡ true))
      ended n h = elim (Bool-cases (n == p.lease.fence)) [
        | inl b ↦ inr (ground (arith, b), refl)
        | inr b ↦ inl (ground (arith, b, h))
      ]

  Published-receipt :
      (r : Result MutationOutcome × Database)
      → (p : Published clock id t expected db r) → publication_receipt id r.1 ≡ some p.row
  unfolding publication_receipt
  Published-receipt r p =
      let v = p.publication in
      let same : bytes_eq p.row.receipt_id id ≡ true = rw p.about.0 (bytes_eq_refl id) in
      let here : publication_receipt id (record (published p.row p.lease v.number v.between) {
        publications = p.row ∷ db.publications;
      })
          ≡ some p.row =
        rw same refl in
      subst (λ d. publication_receipt id d ≡ some p.row) (sym v.result) here

  -- A result is published once for a lease: where a publication is applied, its token was that of the
  -- resource's lease, which had neither ended nor, at the time that the publisher's clock read, run
  -- out; and from then on, after any operations of
  -- any nodes with any clocks, whatever shows a token of that resource with no greater fence changes
  -- nothing in the store, and no such renewal, release, publication or begin of a script is answered
  -- as done.
  pub one_publication_per_lease :
      (ops : List Op) (op : Op) (u : LeaseToken)
      → is_applied publishing.0 ≡ true
      → shown op ≡ some u
      → u.resource ≡ t.resource
      → u.fence ≤ t.fence
      → let now = Steps.run ops publishing.1 in
        ((l : WorkLease) × (now_ms : ℤ) × (unix_ms clock ≡ ok now_ms)
          × (db.leases t.resource ≡ some l)
          × Held t now_ms l)
        × (Steps.apply op now ≡ now)
        × (is_done op now ≡ false)
  one_publication_per_lease ops op u h shows same le =
      let p = publishing-Published h in
      let db' = publishing.1 in
      let r = Spent-Refused op u (Steps.run ops db') shows (
        Spent-Later u db' (Steps.run ops db') (Published-Spent publishing u p same le)
          (run-Later ops db')) in
      ((p.lease, p.now, p.on_time, p.there, is_current-Held t p.now p.lease p.current), r.0, r.1)

  -- A publication that took effect is safe to repeat, also where its answer was lost: from then on,
  -- after any operations, a caller that repeats it under its receipt's identifier, with whatever token
  -- and result, is told that it is a duplicate, with the revision that the first answer named, and
  -- changes nothing.
  pub retry_answers_duplicate :
      (ops : List Op) (clock' : ℤ) (u : LeaseToken) (n : ℕ) (r_id r_ref r_job : Text)
      (db'' : Database)
      → is_applied publishing.0 ≡ true
      → let again =
          publish_result clock' (Steps.run ops publishing.1) id u n r_id r_ref r_job db'' in
        (publishing.0 ≡ ok (applied (expected + 1)))
        × (again ≡ (ok (duplicate (expected + 1)), db''))
  unfolding publish_result
  retry_answers_duplicate ops clock' u n r_id r_ref r_job db'' h =
      let p = publishing-Published h in
      let db' = publishing.1 in
      let kept = (run-Later ops db').publications id p.row (Published-receipt publishing p) in
      let found : publication_receipt id (Steps.run ops db') ≡ some p.row =
        kept.1 ∙ ap (λ x. some x) (sym kept.2) in
      (p.answer, rw (found, publish_result) (rw p.about.1 refl))
