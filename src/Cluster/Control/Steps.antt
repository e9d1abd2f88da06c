-- ===== src/Cluster/Control/Steps.antt =====
-- crates/nzbd-cluster/src/control.rs: what no operation of the store takes back. The operations of all
-- nodes come in one order, that of the replicated log; each node's clock says what it likes.
use nzbd.Prelude.{
  ℕ, ◌≤◌, ◌<◌, ◌≡◌, refl, sym, ◌∙◌, subst, ◌⊎◌, inl, inr, Bool, true, List, [], ◌∷◌, Option, some,
  arith, Bool-cases, ◌==◌, bytes_eq, bytes_eq-eq,
}
use nzbd.Prelude.Int.{ℤ}
use nzbd.Types.Torrent.{Text}
use nzbd.Cluster.Control.{
  ControlJob, WorkLease, LeaseToken, ScriptReceipt, done, Database, put_text, put_job,
}
use nzbd.Cluster.Control.Leases.{Claim, acquire, renew, release}
use nzbd.Cluster.Control.Receipts.{seed_job, apply_command, command_receipt}
use nzbd.Cluster.Control.Publications.{publish_result, publication_receipt}
use nzbd.Cluster.Control.Scripts.{begin_script, finish_script}

pub data Op : Type 0 where
  acquiring : ℤ → Database → Claim → Op
  renewing : ℤ → LeaseToken → ℕ → Op
  releasing : ℤ → LeaseToken → Op
  seeding : ℤ → ℕ → Text → Text → Op
  commanding : ℤ → Database → Text → ℕ → ℕ → Text → Bool → Op
  publishing : ℤ → Database → Text → LeaseToken → ℕ → Text → Text → Text → Op
  beginning finishing : ℤ → Database → Text → LeaseToken → Op

unfoldable pub apply : Op → Database → Database
apply (acquiring clock later c) db = (acquire clock later c db).1
apply (renewing clock t ttl) db = (renew clock t ttl db).1
apply (releasing clock t) db = (release clock t db).1
apply (seeding clock id inc intent) db = (seed_job clock id inc intent db).1
apply (commanding clock earlier c id e next del) db =
    (apply_command clock earlier c id e next del db).1
apply (publishing clock earlier id t e r ref job) db =
    (publish_result clock earlier id t e r ref job db).1
apply (beginning clock later id t) db = (begin_script clock later id t db).1
apply (finishing clock later id t) db = (finish_script clock later id t db).1

unfoldable pub run : List Op → Database → Database
run [] db = db
run (op ∷ ops) db = run ops (apply op db)

-- A row stays, and what follows it is related to it.
abbrev pub Grows : {K A : Type 0} → (A → A → Type 0) → (K → Option A) → (K → Option A) → Type 0
Grows {K} {A} R t t' = (k : K) (a : A) → t k ≡ some a → (b : A) × (t' k ≡ some b) × R a b

-- A new lease of the resource has a greater fence; within one, the revision does not fall and the end
-- is final.
abbrev pub LaterLease : WorkLease → WorkLease → Type 0
LaterLease l m =
    (l.fence < m.fence)
    ⊎ ((l.fence ≡ m.fence) × (l.revision ≤ m.revision) × (l.terminal ≡ true → m.terminal ≡ true))

-- A change of a job shows in its revision.
abbrev pub LaterJob : ControlJob → ControlJob → Type 0
LaterJob j k = (j ≡ k) ⊎ (j.revision < k.revision)

abbrev pub LaterScript : ScriptReceipt → ScriptReceipt → Type 0
LaterScript s u = (s.resource ≡ u.resource) × (s.state ≡ done → u.state ≡ done)

abbrev pub Same : {A : Type 0} → A → A → Type 0
Same a b = a ≡ b

pub record Later (db db' : Database) : Type 0 where
  pub jobs : Grows LaterJob db.jobs db'.jobs
  pub leases : Grows LaterLease db.leases db'.leases
  pub commands : Grows Same (λ id. command_receipt id db) (λ id. command_receipt id db')
  pub publications : Grows Same (λ id. publication_receipt id db) (λ id. publication_receipt id db')
  pub ranges : Grows Same db.ranges db'.ranges
  pub scripts : Grows LaterScript db.scripts db'.scripts

Grows-refl :
    {K A : Type 0} (R : A → A → Type 0) (t : K → Option A) → ((a : A) → R a a) → Grows R t t
Grows-refl R t r k a e = (a, e, r a)

Grows-trans :
    {K A : Type 0} (R : A → A → Type 0) (t u v : K → Option A)
    → ((a b c : A) → R a b → R b c → R a c)
    → Grows R t u
    → Grows R u v
    → Grows R t v
Grows-trans R t u v tr g h k a e =
    let m = g k a e in let n = h k m.0 m.1 in (n.0, n.1, tr a m.0 n.0 m.2 n.2)

pub put_text-Grows :
    {A : Type 0} (R : A → A → Type 0) (k : Text) (b : A) (t : Text → Option A)
    → ((a : A) → R a a)
    → ((a : A) → t k ≡ some a → R a b)
    → Grows R t (put_text k b t)
put_text-Grows R k b t r h j a e = elim (Bool-cases (bytes_eq j k)) [
  | inl same ↦
      let at_k : t k ≡ some a = subst (λ x. t x ≡ some a) (bytes_eq-eq j k same) e in
      (b, rw same refl, h a at_k)
  | inr other ↦ (a, rw other e, r a)
]

pub put_job-Grows :
    (k : ℕ) (b : ControlJob) (t : ℕ → Option ControlJob)
    → ((a : ControlJob) → t k ≡ some a → LaterJob a b)
    → Grows LaterJob t (put_job k b t)
put_job-Grows k b t h j a e = elim (Bool-cases (j == k)) [
  | inl same ↦
      let jk : j ≡ k = ground (arith, same) in
      let at_k : t k ≡ some a = subst (λ x. t x ≡ some a) jk e in (b, rw same refl, h a at_k)
  | inr other ↦ (a, rw other e, inl refl)
]

pub LaterLease-refl : (l : WorkLease) → LaterLease l l
LaterLease-refl l = inr (refl, omega arith, λ h. h)

LaterLease-trans : (l m n : WorkLease) → LaterLease l m → LaterLease m n → LaterLease l n
LaterLease-trans l m n (inl a) (inl b) = inl (omega arith)
LaterLease-trans l m n (inl a) (inr b) = inl (omega (arith, b.0))
LaterLease-trans l m n (inr a) (inl b) = inl (omega (arith, a.0))
LaterLease-trans l m n (inr a) (inr b) = inr (a.0 ∙ b.0, omega (arith, a.1, b.1), λ h. b.2 (a.2 h))

LaterJob-trans : (j k m : ControlJob) → LaterJob j k → LaterJob k m → LaterJob j m
LaterJob-trans j k m (inl a) (inl b) = inl (a ∙ b)
LaterJob-trans j k m (inl a) (inr b) = inr (subst (λ x. x.revision < m.revision) (sym a) b)
LaterJob-trans j k m (inr a) (inl b) = inr (subst (λ x. j.revision < x.revision) b a)
LaterJob-trans j k m (inr a) (inr b) = inr (omega arith)

pub LaterScript-refl : (s : ScriptReceipt) → LaterScript s s
LaterScript-refl s = (refl, λ h. h)

LaterScript-trans : (s u v : ScriptReceipt) → LaterScript s u → LaterScript u v → LaterScript s v
LaterScript-trans s u v a b = (a.0 ∙ b.0, λ h. b.1 (a.1 h))

pub Later-refl : (db : Database) → Later db db
Later-refl db = record {
  jobs = Grows-refl LaterJob db.jobs (λ j. inl refl);
  leases = Grows-refl LaterLease db.leases LaterLease-refl;
  commands = λ id c e. (c, e, refl);
  publications = λ id c e. (c, e, refl);
  ranges = λ id c e. (c, e, refl);
  scripts = Grows-refl LaterScript db.scripts LaterScript-refl;
}

pub Later-trans : {db db' db'' : Database} → Later db db' → Later db' db'' → Later db db''
Later-trans {db} {db'} {db''} a b = record {
  jobs = Grows-trans LaterJob db.jobs db'.jobs db''.jobs LaterJob-trans a.jobs b.jobs;
  leases =
      Grows-trans LaterLease db.leases db'.leases db''.leases LaterLease-trans a.leases b.leases;
  commands = Grows-trans Same _ _ _ (λ x y z p q. p ∙ q) a.commands b.commands;
  publications = Grows-trans Same _ _ _ (λ x y z p q. p ∙ q) a.publications b.publications;
  ranges = Grows-trans Same _ _ _ (λ x y z p q. p ∙ q) a.ranges b.ranges;
  scripts =
      Grows-trans LaterScript db.scripts db'.scripts db''.scripts LaterScript-trans a.scripts
        b.scripts;
}
