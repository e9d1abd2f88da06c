-- ===== src/Cluster/Control/Leases.antt =====
-- crates/nzbd-cluster/src/control.rs: `acquire`, `renew`, `release` and the reads of a lease.
use nzbd.Prelude.{
  ℕ, ◌+◌, ◌-◌, ◌^◌, Bool, true, false, not, ◌&&◌, Option, none, some, if◌then◌else◌, ltb,
}
use nzbd.Prelude.Int.{ℤ, leb_ℤ}
use nzbd.Types.Torrent.{Text}
use nzbd.Cluster.Control.{
  Result, ok, err, lease_disappeared, ◌>>=◌, ◌>>◌, WorkLease, LeaseToken, Database, put_text,
  validate_identity, i64_value, unix_ms, expiry, incremented, names, is_current, checked,
}

pub data LeaseClaim : Type 0 where
  acquired : LeaseToken → LeaseClaim
  held : Text → ℕ → ℤ → LeaseClaim

-- The columns that the statements return.
abbrev pub token_of : Text → WorkLease → LeaseToken
token_of r l = record {
  resource = r;
  owner_node_id = l.owner_node_id;
  owner_incarnation = l.owner_incarnation;
  fence = l.fence;
  revision = l.revision;
  expires_at_unix_ms = l.expires_at_ms;
}

abbrev pub live_lease : Option WorkLease → Option WorkLease
live_lease none = none
live_lease (some l) = if l.terminal then none else some l

abbrev pub token_in : Text → Option WorkLease → Option LeaseToken
token_in r none = none
token_in r (some l) = some (token_of r l)

unfoldable pub current_lease : Text → Database → Option LeaseToken
current_lease r db = token_in r (live_lease (db.leases r))

-- What a claim asks for: the arguments of `acquire`.
pub record Claim : Type 0 where
  pub resource : Text
  pub cluster_id : Text
  pub job_id : ℕ
  pub job_incarnation : Text
  pub owner_node_id : Text
  pub owner_incarnation : Text
  pub kind : Text
  pub scope_json : Text
  pub job_revision : ℕ
  pub ttl : ℕ

abbrev pub claimed : Claim → ℕ → ℕ → ℤ → WorkLease
claimed c fence revision expires = record {
  cluster_id = c.cluster_id;
  job_id = c.job_id;
  job_incarnation = c.job_incarnation;
  owner_node_id = c.owner_node_id;
  owner_incarnation = c.owner_incarnation;
  kind = c.kind;
  scope_json = c.scope_json;
  fence = fence;
  revision = revision;
  job_revision = c.job_revision;
  expires_at_ms = expires;
  terminal = false;
}

-- The upsert: a new row, the next lease over one that has run out, or no row.
unfoldable pub upsert_lease : Claim → ℤ → ℤ → Option WorkLease → Option WorkLease
upsert_lease c now expires none = some (claimed c 1 1 expires)
upsert_lease c now expires (some l) =
    if leb_ℤ l.expires_at_ms now && ltb l.fence (2 ^ 63 - 1) && ltb l.revision (2 ^ 63 - 1)
    then some (claimed c (l.fence + 1) (l.revision + 1) expires)
    else none

abbrev pub held_by : Option LeaseToken → Result LeaseClaim
held_by none = err lease_disappeared
held_by (some t) = ok (held t.owner_node_id t.fence t.expires_at_unix_ms)

abbrev pub with_lease : Text → WorkLease → Database → Database
with_lease r l db = record db { leases = put_text r l db.leases }

-- `later` is the store when the lease that stood in the way is read.
unfoldable pub claim_row : Database → Claim → ℤ × ℤ → Database → Result LeaseClaim × Database
claim_row later c times db = elim (upsert_lease c times.0 times.1 (db.leases c.resource)) [
  | some l ↦ (ok (acquired (token_of c.resource l)), with_lease c.resource l db)
  | none ↦ (held_by (current_lease c.resource later), db)
]

abbrev pub claim_times : ℤ → Claim → Result (ℤ × ℤ)
claim_times clock c = do
  validate_identity c.resource c.owner_node_id c.owner_incarnation
  now ← unix_ms clock
  expires ← expiry now c.ttl
  i64_value c.job_id
  i64_value c.job_revision
  ok (now, expires)

unfoldable pub acquire : ℤ → Database → Claim → Database → Result LeaseClaim × Database
acquire clock later c db = checked (claim_times clock c) (claim_row later c) db

abbrev pub numbers_of : LeaseToken → Result (Unit {0})
numbers_of t = do i64_value t.fence; i64_value t.revision; ok tt

abbrev pub renewed : ℤ → Result ℕ → WorkLease → Result WorkLease
renewed expires (err e) l = err e
renewed expires (ok n) l = ok (record l { expires_at_ms = expires; revision = n })

abbrev pub write_renewal :
    Text → Result WorkLease → Database → Result (Option LeaseToken) × Database
write_renewal r (err e) db = (err e, db)
write_renewal r (ok l) db = (ok (some (token_of r l)), with_lease r l db)

unfoldable pub renew_row : LeaseToken → ℤ × ℤ → Database → Result (Option LeaseToken) × Database
renew_row t times db = elim (db.leases t.resource) [
  | none ↦ (ok none, db)
  | some l ↦
      if is_current t times.0 l
      then write_renewal t.resource (renewed times.1 (incremented l.revision) l) db
      else (ok none, db)
]

abbrev pub renewal_times : ℤ → LeaseToken → ℕ → Result (ℤ × ℤ)
renewal_times clock t ttl = do
  validate_identity t.resource t.owner_node_id t.owner_incarnation
  now ← unix_ms clock
  expires ← expiry now ttl
  numbers_of t
  ok (now, expires)

unfoldable pub renew : ℤ → LeaseToken → ℕ → Database → Result (Option LeaseToken) × Database
renew clock t ttl db = checked (renewal_times clock t ttl) (renew_row t) db

abbrev pub released : ℤ → ℕ → WorkLease → WorkLease
released now n l = record l { terminal = true; expires_at_ms = now; revision = n }

abbrev pub write_release : Text → ℤ → WorkLease → Result ℕ → Database → Result Bool × Database
write_release r now l (err e) db = (err e, db)
write_release r now l (ok n) db = (ok true, with_lease r (released now n l) db)

unfoldable pub release_row : LeaseToken → ℤ → Database → Result Bool × Database
release_row t now db = elim (db.leases t.resource) [
  | none ↦ (ok false, db)
  | some l ↦
      if names t l && not l.terminal
      then write_release t.resource now l (incremented l.revision) db
      else (ok false, db)
]

abbrev pub release_time : ℤ → LeaseToken → Result ℤ
release_time clock t = do now ← unix_ms clock; numbers_of t; ok now

unfoldable pub release : ℤ → LeaseToken → Database → Result Bool × Database
release clock t db = checked (release_time clock t) (release_row t) db
