-- ===== src/Cluster/Control/Runs/Publishing.antt =====
-- crates/nzbd-cluster/src/control.rs: nothing is taken back by the publication of a result.
use nzbd.Prelude.{
  ℕ, ◌+◌, ◌<◌, ◌≡◌, refl, sym, subst, inl, inr, true, false, List, [], ◌∷◌, none, some, arith,
  Bool-cases, Option-cases, if◌then◌else◌, find, any, bytes_eq, bytes_eq-eq,
}
use nzbd.Prelude.Int.{ℤ}
use nzbd.Types.Torrent.{Text}
use nzbd.Cluster.Control.{
  Result, ok, err, constraint_failed, ◌>>=◌, ControlJob, WorkLease, LeaseToken, PublicationReceipt,
  Database, put_text, incremented, is_current,
}
use nzbd.Cluster.Control.Leases.{with_lease}
use nzbd.Cluster.Control.Receipts.{with_job, command_receipt}
use nzbd.Cluster.Control.Publications.{
  publish_result, publish_time, publish_row, receipt_at, insert_publication, publish_all,
  publish_answer, publication_effect, publication_receipt, record_range, record_result, is_used,
  is_segment, published_job, finished, range_result, job_ready,
}
use nzbd.Cluster.Control.Steps.{Later, LaterLease, Same, put_text-Grows, Later-refl, Later-trans}
use nzbd.Cluster.Control.Runs.Rows.{checked-Later, with_lease-Later, with_job-Later, incremented-eq}

-- What the triggers do before the lease is finished leaves leases and receipts alone.
pub record Effect (db db' : Database) : Type 0 where
  pub later : Later db db'
  pub leases : db'.leases ≡ db.leases
  pub publications : db'.publications ≡ db.publications

record_result-Effect :
    (p : PublicationReceipt) (id : ℕ) (db db' : Database)
    → record_result p id (db.jobs id) db ≡ ok db'
    → Effect db db'
record_result-Effect p id db db' h = elim (Option-cases (db.jobs id)) [
  | inl n ↦ let same : ok db ≡ ok db' = rw n at h in of_same (ground (arith, same))
  | inr (j, e) ↦
      let h' : (incremented j.revision >>= λ n. ok (with_job id (published_job p n j) db))
          ≡ ok db' =
        rw (e, record_result) at h in
      by_number j e (incremented j.revision) refl h'
]
  where
    of_same : db ≡ db' → Effect db db'
    of_same q =
        subst (λ d. Effect db d) q
          (record { later = Later-refl db; leases = refl; publications = refl })

    by_number :
        (j : ControlJob)
        → db.jobs id ≡ some j
        → (m : Result ℕ) → incremented j.revision ≡ m
        → (m >>= λ n. ok (with_job id (published_job p n j) db)) ≡ ok db'
        → Effect db db'
    by_number j e (err x) i f = absurd (ground (arith, f))
    by_number j e (ok n) i f =
        let up = incremented-eq j.revision n i in
        subst (λ d. Effect db d) (ground (arith, f))
          (record {
            later = with_job-Later id (published_job p n j) db λ a g.
                let same : a ≡ j = ground (arith, e, g) in
                inr (subst (λ x. x.revision < n) (sym same) (omega (arith, up)));
            leases = refl;
            publications = refl;
          })

record_range-Effect :
    (p : PublicationReceipt) (l : WorkLease) (db db' : Database)
    → record_range p l db ≡ ok db'
    → Effect db db'
unfolding command_receipt publication_receipt
record_range-Effect p l db db' h = elim (Option-cases (db.ranges p.token.resource)) [
  | inr (old, e) ↦
      let no : err constraint_failed ≡ ok db' = rw (e, record_range) at h in
      absurd (ground (arith, no))
  | inl n ↦
      let r = put_text p.token.resource (range_result p l) db.ranges in
      let same : ok (record db { ranges = r }) ≡ ok db' = rw (n, record_range) at h in
      let old = Later-refl db in
      subst (λ d. Effect db d) (ground (arith, same))
        (record {
          later = record {
            jobs = old.jobs;
            leases = old.leases;
            commands = old.commands;
            publications = old.publications;
            ranges =
                put_text-Grows Same p.token.resource (range_result p l) db.ranges (λ x. refl)
                  (λ a f. absurd (ground (arith, n, f)));
            scripts = old.scripts;
          };
          leases = refl;
          publications = refl;
        })
]

pub publication_effect-Effect :
    (p : PublicationReceipt) (l : WorkLease) (db db' : Database)
    → publication_effect p l db ≡ ok db'
    → Effect db db'
unfolding publication_effect
publication_effect-Effect p l db db' h = elim (Bool-cases (is_segment l)) [
  | inl b ↦ record_range-Effect p l db db' (rw b at h)
  | inr b ↦ record_result-Effect p l.job_id db db' (rw b at h)
]

abbrev pub published : PublicationReceipt → WorkLease → ℕ → Database → Database
published p l n db = record (with_lease p.token.resource (finished n l) db) {
  publications = p ∷ db.publications;
}

pub record Publication (p : PublicationReceipt) (l : WorkLease) (db db' : Database) : Type 0 where
  pub between : Database
  pub effect : Effect db between
  pub number : ℕ
  pub next : number ≡ l.revision + 1
  pub result : db' ≡ record (published p l number between) { publications = p ∷ db.publications }

pub publish_all-Publication :
    (p : PublicationReceipt) (l : WorkLease) (db db' : Database)
    → publish_all p l db ≡ ok db'
    → Publication p l db db'
unfolding publish_all
publish_all-Publication p l db db' h = by_effect (publication_effect p l db) refl h
  where
    finish : Database → ℕ → Result Database
    finish mid n = ok (record (with_lease p.token.resource (finished n l) mid) {
      publications = p ∷ db.publications;
    })

    by_number :
        (mid : Database)
        → Effect db mid
        → (m : Result ℕ) → incremented l.revision ≡ m
        → (m >>= finish mid) ≡ ok db'
        → Publication p l db db'
    by_number mid eff (err x) i f = absurd (ground (arith, f))
    by_number mid eff (ok n) i f = record {
      between = mid;
      effect = eff;
      number = n;
      next = incremented-eq l.revision n i;
      result = sym (ground (arith, f));
    }

    by_effect :
        (m : Result Database)
        → publication_effect p l db ≡ m
        → (m >>= λ mid. incremented l.revision >>= finish mid) ≡ ok db'
        → Publication p l db db'
    by_effect (err x) i f = absurd (ground (arith, f))
    by_effect (ok mid) i f =
        by_number mid (publication_effect-Effect p l db mid i) (incremented l.revision) refl f

pub find_none-of_unused :
    (p : PublicationReceipt) (db : Database) (id : Text)
    → is_used p db ≡ false
    → bytes_eq p.receipt_id id ≡ true
    → publication_receipt id db ≡ none
unfolding publication_receipt
find_none-of_unused p db id unused same = in_list db.publications unused
  where
    in_list :
        (l : List PublicationReceipt)
        → any
            (λ (q : PublicationReceipt).
              if bytes_eq q.receipt_id p.receipt_id then true else bytes_eq q.result_id p.result_id)
            l
          ≡ false
        → find (λ (q : PublicationReceipt). bytes_eq q.receipt_id id) l ≡ none
    in_list [] h = refl
    in_list (q ∷ l) h = elim (Bool-cases (bytes_eq q.receipt_id id)) [
      | inl b ↦
          let id_eq : p.receipt_id ≡ id = bytes_eq-eq p.receipt_id id same in
          let b' : bytes_eq q.receipt_id p.receipt_id ≡ true =
            subst (λ x. bytes_eq q.receipt_id x ≡ true) (sym id_eq) b in
          absurd (ground (arith, b', h))
      | inr b ↦ rw b (in_list l (ground (arith, h)))
    ]

pub Publication-Later :
    (p : PublicationReceipt) (l : WorkLease) (db db' : Database)
    → db.leases p.token.resource ≡ some l
    → is_used p db ≡ false
    → Publication p l db db'
    → Later db db'
unfolding command_receipt publication_receipt
Publication-Later p l db db' e unused v =
    let mid = v.between in
    let later = v.effect.later in
    let finish = with_lease-Later p.token.resource (finished v.number l) mid λ a f.
      let same : a ≡ l = ground (arith, e, f, v.effect.leases) in
      subst (λ x. LaterLease x (finished v.number l)) (sym same)
        (inr (refl, omega (arith, v.next), λ h. refl)) in
    let both = Later-trans later finish in
    subst (λ d. Later db d) (sym v.result)
      (record {
        jobs = both.jobs;
        leases = both.leases;
        commands = both.commands;
        publications = λ id x f. elim (Bool-cases (bytes_eq p.receipt_id id)) [
          | inl b ↦ absurd (ground (arith, f, find_none-of_unused p db id unused b))
          | inr b ↦ (x, rw b f, refl)
        ];
        ranges = both.ranges;
        scripts = both.scripts;
      })

pub publish_answer-Later :
    (p : PublicationReceipt) (l : WorkLease) (db : Database)
    → db.leases p.token.resource ≡ some l
    → is_used p db ≡ false
    → Later db (publish_answer p (publish_all p l db) db).1
publish_answer-Later p l db e unused = by_result (publish_all p l db) refl
  where
    by_result : (m : Result Database) → publish_all p l db ≡ m → Later db (publish_answer p m db).1
    by_result (err x) i = Later-refl db
    by_result (ok db') i =
        Publication-Later p l db db' e unused (publish_all-Publication p l db db' i)

pub insert_publication-Later :
    (p : PublicationReceipt) (db : Database)
    → Later db (insert_publication p (db.leases p.token.resource) db).1
insert_publication-Later p db = elim (Option-cases (db.leases p.token.resource)) [
  | inl n ↦ rw n (Later-refl db)
  | inr (l, e) ↦ elim (Bool-cases (is_current p.token p.accepted_at_ms l)) [
    | inr b ↦ rw (e, insert_publication) (rw b (Later-refl db))
    | inl b ↦ elim (Bool-cases (job_ready p l (db.jobs l.job_id))) [
      | inr c ↦ rw (e, insert_publication) (rw b (rw c (Later-refl db)))
      | inl c ↦ elim (Bool-cases (is_used p db)) [
        | inl d ↦ rw (e, insert_publication) (rw b (rw c (rw d (Later-refl db))))
        | inr d ↦ rw (e, insert_publication) (rw b (rw c (rw d (publish_answer-Later p l db e d))))
      ]
    ]
  ]
]

pub publish_result-Later :
    (clock : ℤ) (earlier : Database) (id : Text) (t : LeaseToken) (expected : ℕ)
    (result_id result_ref result_job : Text) (db : Database)
    → Later db (publish_result clock earlier id t expected result_id result_ref result_job db).1
unfolding publish_result publish_row
publish_result-Later clock earlier id t expected result_id result_ref result_job db =
    elim (Option-cases (publication_receipt id earlier)) [
      | inr (old, e) ↦ rw (e, publish_result) (Later-refl db)
      | inl n ↦
          let p = receipt_at id t expected result_id result_ref result_job in
          rw (n, publish_result)
            (checked-Later (publish_time clock t expected) (publish_row p) db
              λ now. insert_publication-Later (p now) db)
    ]
