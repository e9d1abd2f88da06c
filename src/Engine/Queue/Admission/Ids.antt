-- ===== src/Engine/Queue/Admission/Ids.antt =====
-- crates/nzbd-engine/src/queue.rs: the identifiers of jobs and reservations stay unique.
use nzbd.Prelude.{
  ℕ, ◌+◌, ◌%◌, ◌^◌, ◌≤◌, ◌<◌, ◌≡◌, inl, inr, refl, subst, ap, ◌∙◌, true, false, List, [], ◌∷◌, ◌++◌,
  Option, none, some, arith, if◌then◌else◌, Bool-cases, ◌==◌, any, find, length,
}
use nzbd.Prelude.Int.{ℤ}
use nzbd.Types.Torrent.{Text, TorrentSource}
use nzbd.Types.Job.{Job, JobId}
use nzbd.State.{PendingAdmission}
use nzbd.Engine.Queue.{QueueState}
use nzbd.Engine.Queue.Admission.{
  AddOpts, TorrentAdmissionCommit, reserve_torrent_admission, without, cancel_torrent_admission,
  holds, merge_params, commit_known, commit_torrent_admission, new_pending, new_job,
  unique_dir_name, sanitize_name,
}

-- How often an identifier is reserved, and how often it is a job's.
unfoldable pub reservations : ℕ → List PendingAdmission → ℕ
reservations i [] = 0
reservations i (p ∷ l) = (if p.job_id == i then 1 else 0) + reservations i l

unfoldable pub owners : ℕ → List Job → ℕ
owners i [] = 0
owners i (j ∷ l) = (if j.id == i then 1 else 0) + owners i l

-- An identifier is reserved or a job's, once at most, and none is in use past the last one given.
pub record UniqueIds (q : QueueState) : Type 0 where
  pub once : (i : ℕ) → reservations i q.pending_admissions + owners i q.jobs ≤ 1
  pub given :
      (i : ℕ) → q.next_job_id < i → reservations i q.pending_admissions + owners i q.jobs ≡ 0

reservations-append :
    (i : ℕ) (l : List PendingAdmission) (p : PendingAdmission)
    → reservations i (l ++ p ∷ []) ≡ reservations i l + (if p.job_id == i then 1 else 0)
unfolding reservations
reservations-append i [] p = ground arith
reservations-append i (x ∷ l) p = omega (arith, reservations-append i l p)

owners-append :
    (i : ℕ) (l : List Job) (j : Job)
    → owners i (l ++ j ∷ []) ≡ owners i l + (if j.id == i then 1 else 0)
unfolding owners
owners-append i [] j = ground arith
owners-append i (x ∷ l) j = omega (arith, owners-append i l j)

reservations-without :
    (i id : ℕ) (l : List PendingAdmission)
    → reservations i (without id l) ≡ (if id == i then 0 else reservations i l)
unfolding reservations without
reservations-without i id [] = ground arith
reservations-without i id (p ∷ l) = ground (arith, reservations-without i id l)

owners-merge_params :
    (i : ℕ) (h : Text) (ps : List (Text × Text)) (l : List Job)
    → owners i (merge_params h ps l) ≡ owners i l
unfolding owners merge_params
owners-merge_params i h ps [] = refl
owners-merge_params i h ps (j ∷ l) =
    let r = owners-merge_params i h ps l in
    elim (Bool-cases (holds h j)) [ inl t ↦ rw t refl | inr f ↦ rw f (omega (arith, r)) ]

any-reservations :
    (id : ℕ) (l : List PendingAdmission)
    → any (λ (p : PendingAdmission). p.job_id == id) l ≡ true
    → 1 ≤ reservations id l
unfolding reservations
any-reservations id [] h = absurd (ground arith)
any-reservations id (p ∷ l) h = ground (arith, any-reservations id l)

pub data Operation : Type 0 where
  reserve : TorrentSource → AddOpts → Operation
  cancel : JobId → Operation
  commit : JobId → TorrentAdmissionCommit → ℤ → Operation

unfoldable pub apply : Operation → QueueState → QueueState
apply (reserve source opts) q = (reserve_torrent_admission source opts q).0
apply (cancel id) q = cancel_torrent_admission id q
apply (commit id c now_unix) q = (commit_torrent_admission id c now_unix q).0

unfoldable pub apply_all : List Operation → QueueState → QueueState
apply_all [] q = q
apply_all (o ∷ os) q = apply_all os (apply o q)

reserve-UniqueIds :
    (source : TorrentSource) (opts : AddOpts) (q : QueueState)
    → q.next_job_id + 1 < 2 ^ 32
    → UniqueIds q
    → UniqueIds (reserve_torrent_admission source opts q).0
unfolding reserve_torrent_admission
reserve-UniqueIds source opts q b u =
    let id = (q.next_job_id + 1) % 2 ^ 32 in
    let e : id ≡ q.next_job_id + 1 = omega arith in
    let r = λ (i : ℕ). reservations-append i q.pending_admissions (new_pending id source opts) in
    record {
      once = λ i. ground (arith, e, u.once i, u.given i, r i);
      given = λ i h. ground (arith, e, u.given i, r i);
    }

cancel-UniqueIds :
    (id : JobId) (q : QueueState) → UniqueIds q → UniqueIds (cancel_torrent_admission id q)
unfolding cancel_torrent_admission
cancel-UniqueIds id q u = record {
  once = λ i. ground (arith, u.once i, reservations-without i id q.pending_admissions);
  given = λ i h. ground (arith, u.given i h, reservations-without i id q.pending_admissions);
}

commit_known-UniqueIds :
    (id : JobId) (c : TorrentAdmissionCommit) (now_unix : ℤ) (q : QueueState) (o : Option Job)
    → 1 ≤ reservations id q.pending_admissions
    → UniqueIds q
    → UniqueIds (commit_known id c now_unix q o).0
unfolding cancel_torrent_admission owners
commit_known-UniqueIds id c now_unix q (some j) p u = record {
  once = λ i. ground (
    arith,
    u.once i,
    reservations-without i id q.pending_admissions,
    owners-merge_params i c.torrent_record.info_hash_v1 c.params q.jobs,
  );
  given = λ i h. ground (
    arith,
    u.given i h,
    reservations-without i id q.pending_admissions,
    owners-merge_params i c.torrent_record.info_hash_v1 c.params q.jobs,
  );
}
commit_known-UniqueIds id c now_unix q none p u =
    let j = new_job id c (unique_dir_name q.jobs id (sanitize_name c.name)) now_unix in
    let w = λ (i : ℕ). reservations-without i id q.pending_admissions in
    let a = λ (i : ℕ). owners-append i q.jobs j in
    let n = u.once id in
    record {
      once = λ i. elim (Bool-cases (id == i)) [
        | inl t ↦
            let e : id ≡ i = ground (arith, t) in
            let m = subst (λ x. reservations x q.pending_admissions + owners x q.jobs ≤ 1) e n in
            let k = subst (λ x. 1 ≤ reservations x q.pending_admissions) e p in
            ground (arith, t, m, k, w i, a i)
        | inr f ↦ ground (arith, f, u.once i, w i, a i)
      ];
      given = λ i h. elim (Bool-cases (id == i)) [
        | inl t ↦
            let e : id ≡ i = ground (arith, t) in
            let k = subst (λ x. 1 ≤ reservations x q.pending_admissions) e p in
            absurd (ground (arith, k, u.given i h))
        | inr f ↦ ground (arith, f, u.given i h, w i, a i)
      ];
    }

commit-UniqueIds :
    (id : JobId) (c : TorrentAdmissionCommit) (now_unix : ℤ) (q : QueueState)
    → UniqueIds q
    → UniqueIds (commit_torrent_admission id c now_unix q).0
unfolding commit_torrent_admission
commit-UniqueIds id c now_unix q u =
    elim (Bool-cases (any (λ (p : PendingAdmission). p.job_id == id) q.pending_admissions)) [
      | inl t ↦ rw t (
          commit_known-UniqueIds id c now_unix q (find (holds c.torrent_record.info_hash_v1) q.jobs)
            (any-reservations id q.pending_admissions t) u)
      | inr f ↦ rw f u
    ]

commit_known-next :
    (id : JobId) (c : TorrentAdmissionCommit) (now_unix : ℤ) (q : QueueState) (o : Option Job)
    → (commit_known id c now_unix q o).0.next_job_id ≡ q.next_job_id
unfolding cancel_torrent_admission
commit_known-next id c now_unix q none = refl
commit_known-next id c now_unix q (some j) = refl

apply-next :
    (o : Operation) (q : QueueState)
    → q.next_job_id + 1 < 2 ^ 32
    → (apply o q).next_job_id ≤ q.next_job_id + 1
unfolding apply reserve_torrent_admission cancel_torrent_admission commit_torrent_admission
apply-next (reserve source opts) q b = omega arith
apply-next (cancel id) q b = omega arith
apply-next (commit id c now_unix) q b =
    ground
      (arith, commit_known-next id c now_unix q (find (holds c.torrent_record.info_hash_v1) q.jobs))

apply-UniqueIds :
    (o : Operation) (q : QueueState)
    → q.next_job_id + 1 < 2 ^ 32
    → UniqueIds q
    → UniqueIds (apply o q)
unfolding apply
apply-UniqueIds (reserve source opts) q b u = reserve-UniqueIds source opts q b u
apply-UniqueIds (cancel id) q b u = cancel-UniqueIds id q u
apply-UniqueIds (commit id c now_unix) q b u = commit-UniqueIds id c now_unix q u

apply_all-UniqueIds :
    (os : List Operation) (q : QueueState)
    → q.next_job_id + length os < 2 ^ 32
    → UniqueIds q
    → UniqueIds (apply_all os q)
unfolding apply_all
apply_all-UniqueIds [] q b u = u
apply_all-UniqueIds (o ∷ os) q b u =
    apply_all-UniqueIds os (apply o q) (omega (arith, apply-next o q (omega arith)))
      (apply-UniqueIds o q (omega arith) u)

-- The identifiers that a sequence of operations hands out, in order.
abbrev pub given_by : Operation → QueueState → List ℕ
given_by (reserve source opts) q = (reserve_torrent_admission source opts q).1 ∷ []
given_by (cancel id) q = []
given_by (commit id c now_unix) q = []

unfoldable pub given_in : List Operation → QueueState → List ℕ
given_in [] q = []
given_in (o ∷ os) q = given_by o q ++ given_in os (apply o q)

-- Each is greater than the one before it, and the first than `n`.
abbrev pub Ascends : ℕ → List ℕ → Type 0
Ascends n [] = Unit
Ascends n (i ∷ l) = (n < i) × Ascends i l

commit-next :
    (id : JobId) (c : TorrentAdmissionCommit) (now_unix : ℤ) (q : QueueState)
    → (commit_torrent_admission id c now_unix q).0.next_job_id ≡ q.next_job_id
unfolding commit_torrent_admission
commit-next id c now_unix q =
    ground
      (arith, commit_known-next id c now_unix q (find (holds c.torrent_record.info_hash_v1) q.jobs))

given_in-Ascends :
    (os : List Operation) (q : QueueState)
    → q.next_job_id + length os < 2 ^ 32
    → Ascends q.next_job_id (given_in os q)
unfolding given_in apply reserve_torrent_admission cancel_torrent_admission
given_in-Ascends [] q b = tt
given_in-Ascends (reserve source opts ∷ os) q b =
    let e : (q.next_job_id + 1) % 2 ^ 32 ≡ q.next_job_id + 1 = omega (arith, b) in
    (omega (arith, e), given_in-Ascends os (apply (reserve source opts) q) (omega (arith, e, b)))
given_in-Ascends (cancel id ∷ os) q b = given_in-Ascends os (apply (cancel id) q) (omega (arith, b))
given_in-Ascends (commit id c now_unix ∷ os) q b =
    let e = commit-next id c now_unix q in
    subst (λ n. Ascends n (given_in os (apply (commit id c now_unix) q))) e
      (given_in-Ascends os (apply (commit id c now_unix) q) (omega (arith, e, b)))

-- Through any sequence of reservations, cancellations and commitments, for which the identifiers last,
-- no identifier is given twice: each that is given is greater than all given before, also those that
-- were cancelled since; and at the end an identifier is that of one reservation or of one job at most,
-- and none past the last one given is in use.
pub ids_stay_unique :
    (os : List Operation) (q : QueueState)
    → q.next_job_id + length os < 2 ^ 32
    → UniqueIds q
    → Ascends q.next_job_id (given_in os q) × UniqueIds (apply_all os q)
ids_stay_unique os q b u = (given_in-Ascends os q b, apply_all-UniqueIds os q b u)

without-none : (id : ℕ) (l : List PendingAdmission) → reservations id l ≡ 0 → without id l ≡ l
unfolding reservations without
without-none id [] h = refl
without-none id (p ∷ l) h =
    let f : (p.job_id == id) ≡ false = ground (arith, h) in
    rw f (ap (λ k. p ∷ k) (without-none id l (omega (arith, h))))

without-append :
    (id : ℕ) (l : List PendingAdmission) (p : PendingAdmission)
    → p.job_id ≡ id
    → without id (l ++ p ∷ []) ≡ without id l
unfolding without
without-append id [] p e = let t : (p.job_id == id) ≡ true = ground (arith, e) in rw t refl
without-append id (x ∷ l) p e =
    let r = without-append id l p e in
    elim (Bool-cases (x.job_id == id)) [ inl t ↦ rw t r | inr f ↦ rw f (ap (λ k. x ∷ k) r) ]

-- A reservation that is cancelled leaves the queue's reservations and jobs as they were, where the
-- identifiers are unique and there is one left to give.
cancel-reserve :
    (source : TorrentSource) (opts : AddOpts) (q : QueueState)
    → q.next_job_id + 1 < 2 ^ 32
    → UniqueIds q
    → let r = reserve_torrent_admission source opts q in
      ((cancel_torrent_admission r.1 r.0).pending_admissions ≡ q.pending_admissions)
      × ((cancel_torrent_admission r.1 r.0).jobs ≡ q.jobs)
unfolding reserve_torrent_admission cancel_torrent_admission
cancel-reserve source opts q b u =
    let id = (q.next_job_id + 1) % 2 ^ 32 in
    (
      without-append id q.pending_admissions (new_pending id source opts) refl
          ∙ without-none id q.pending_admissions (omega (arith, u.given id (omega arith))),
      refl,
    )
