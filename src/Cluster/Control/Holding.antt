-- ===== src/Cluster/Control/Holding.antt =====
-- crates/nzbd-cluster/src/control.rs: what the guard of a statement says of the lease, and of its time.
use nzbd.Prelude.{ℕ, ◌≡◌, refl, ◌∙◌, ap, true, false, arith, bytes_eq-eq}
use nzbd.Prelude.Int.{ℤ, ltb_ℤ}
use nzbd.Cluster.Control.{
  Result, ok, err, ◌>>=◌, ◌>>◌, WorkLease, LeaseToken, is_current, names, unix_ms, i64_value,
}
use nzbd.Cluster.Control.Leases.{numbers_of}
use nzbd.Cluster.Control.Publications.{publish_time}
use nzbd.Cluster.Control.Scripts.{script_time}

bound :
    {A B : Type 0} (m : Result A) (f : A → Result B) (b : B)
    → (m >>= f) ≡ ok b
    → (a : A) × (m ≡ ok a) × (f a ≡ ok b)
bound (ok a) f b h = (a, refl, h)
bound (err x) f b h = absurd (ground (arith, h))

-- The lease of a token, as it is held at a time: not ended, and not run out.
pub record Held (t : LeaseToken) (now : ℤ) (l : WorkLease) : Type 0 where
  pub owner : l.owner_node_id ≡ t.owner_node_id
  pub incarnation : l.owner_incarnation ≡ t.owner_incarnation
  pub fence : l.fence ≡ t.fence
  pub revision : l.revision ≡ t.revision
  pub live : l.terminal ≡ false
  pub in_time : ltb_ℤ now l.expires_at_ms ≡ true

pub is_current-Held :
    (t : LeaseToken) (now : ℤ) (l : WorkLease) → is_current t now l ≡ true → Held t now l
unfolding names
is_current-Held t now l h = record {
  owner = bytes_eq-eq l.owner_node_id t.owner_node_id (ground (arith, h));
  incarnation = bytes_eq-eq l.owner_incarnation t.owner_incarnation (ground (arith, h));
  fence = ground (arith, h);
  revision = ground (arith, h);
  live = ground (arith, h);
  in_time = ground (arith, h);
}

pub publish_time-now :
    (clock : ℤ) (t : LeaseToken) (expected : ℕ) (now : ℤ)
    → publish_time clock t expected ≡ ok now
    → unix_ms clock ≡ ok now
publish_time-now clock t expected now h =
    let r = bound (unix_ms clock) (λ m. numbers_of t >> (i64_value expected >> ok m)) now h in
    let s = bound (numbers_of t) (λ u. i64_value expected >> ok r.0) now r.2 in
    let u = bound (i64_value expected) (λ k. ok r.0) now s.2 in
    let same : r.0 ≡ now = ground (arith, u.2) in r.1 ∙ ap (λ x. ok x) same

pub script_time-now :
    (clock : ℤ) (t : LeaseToken) (now : ℤ) → script_time clock t ≡ ok now → unix_ms clock ≡ ok now
script_time-now clock t now h =
    let r = bound (unix_ms clock) (λ m. numbers_of t >> ok m) now h in
    let s = bound (numbers_of t) (λ u. ok r.0) now r.2 in
    let same : r.0 ≡ now = ground (arith, s.2) in r.1 ∙ ap (λ x. ok x) same
