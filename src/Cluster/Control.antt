-- ===== src/Cluster/Control.antt =====
-- crates/nzbd-cluster/src/control.rs: the replicated control store. A table is a function of its
-- primary key, or a list where a query looks at another column; each SQL statement, with the triggers
-- it fires, is one atomic function of the tables. The UNIQUE columns of `control_jobs` and
-- `range_results` are filled only with `result_id`s of `publication_receipts`, where they are unique
-- already. A statement that the client could not deliver changes nothing, and one whose answer was
-- lost is a step whose answer nobody sees.
pub mod Leases
pub mod Receipts
pub mod Publications
pub mod Scripts
pub mod Steps
pub mod Runs
pub mod Fencing
pub mod Holding
pub mod Commits
pub mod Updates
mod Scenarios
use nzbd.Prelude.{
  ℕ, ◌+◌, ◌^◌, Bool, true, false, not, ◌&&◌, ◌||◌, List, [], ◌∷◌, Option, none, some, min, max,
  if◌then◌else◌, ltb, ◌==◌, bytes_eq, length, is_empty,
}
use nzbd.Prelude.Int.{ℤ, pos, negsuc, pos_part, neg_part, i64_max, ◌+ℤ◌, ltb_ℤ, leb_ℤ}
use nzbd.Types.Torrent.{Text}

pub data ControlError : Type 0 where
  invalid_identity zero_value too_large clock_error expiry_overflow : ControlError
  lease_disappeared revision_exhausted constraint_failed not_an_integer : ControlError

pub data Result (A : Type 0) : Type 0 where
  ok : A → Result A
  err : ControlError → Result A

infixl 5 ◌>>=◌ ◌>>◌
abbrev pub ◌>>=◌ : {A B : Type 0} → Result A → (A → Result B) → Result B
ok a >>= f = f a
err e >>= f = err e

abbrev pub ◌>>◌ : {A B : Type 0} → Result A → Result B → Result B
m >> k = m >>= λ _. k

-- The columns that a statement of the module reads; `updated_at_ms` is among them for none.
pub record ControlJob : Type 0 where
  pub incarnation : Text
  pub revision : ℕ
  pub intent_json : Text
  pub result_ref : Option Text
  pub result_id : Option Text
  pub deleted : Bool

pub record WorkLease : Type 0 where
  pub cluster_id : Text
  pub job_id : ℕ
  pub job_incarnation : Text
  pub owner_node_id : Text
  pub owner_incarnation : Text
  pub kind : Text
  pub scope_json : Text
  pub fence : ℕ
  pub revision : ℕ
  pub job_revision : ℕ
  pub expires_at_ms : ℤ
  pub terminal : Bool

-- `command_json` is the envelope of `next_intent` and `deleted`.
pub record CommandReceipt : Type 0 where
  pub command_id : Text
  pub job_id : ℕ
  pub expected_revision : ℕ
  pub applied_revision : ℕ
  pub next_intent : Text
  pub deleted : Bool

pub record LeaseToken : Type 0 where
  pub resource : Text
  pub owner_node_id : Text
  pub owner_incarnation : Text
  pub fence : ℕ
  pub revision : ℕ
  pub expires_at_unix_ms : ℤ

-- The token is that of the columns `owner_node_id` to `lease_expiry_ms`.
pub record PublicationReceipt : Type 0 where
  pub receipt_id : Text
  pub token : LeaseToken
  pub expected_job_revision : ℕ
  pub result_id : Text
  pub result_ref : Text
  pub result_job_json : Text
  pub accepted_at_ms : ℤ

pub record RangeResult : Type 0 where
  pub job_id : ℕ
  pub scope_json : Text
  pub result_id : Text
  pub result_ref : Text

pub data ScriptState : Type 0 where
  started done : ScriptState

pub record ScriptReceipt : Type 0 where
  pub resource : Text
  pub job_id : ℕ
  pub state : ScriptState

pub record Database : Type 0 where
  pub jobs : ℕ → Option ControlJob
  pub leases : Text → Option WorkLease
  pub commands : List CommandReceipt
  pub publications : List PublicationReceipt
  pub ranges : Text → Option RangeResult
  pub scripts : Text → Option ScriptReceipt

abbrev pub put_text : {A : Type 0} → Text → A → (Text → Option A) → Text → Option A
put_text k a t j = if bytes_eq j k then some a else t j

abbrev pub put_job : ℕ → ControlJob → (ℕ → Option ControlJob) → ℕ → Option ControlJob
put_job k a t j = if j == k then some a else t j

abbrev pub in_bounds : Text → ℕ → Bool
in_bounds value bound = not (is_empty value) && not (ltb bound (length value))

unfoldable pub validate_identity : Text → Text → Text → Result (Unit {0})
validate_identity resource node incarnation =
    if in_bounds resource 256 && in_bounds node 128 && in_bounds incarnation 128
    then ok tt
    else err invalid_identity

unfoldable pub i64_value : ℕ → Result ℕ
i64_value value =
    if value == 0 then err zero_value else if ltb value (2 ^ 63) then ok value else err too_large

-- The system clock reads milliseconds since the epoch.
unfoldable pub unix_ms : ℤ → Result ℤ
unix_ms (negsuc n) = err clock_error
unix_ms (pos n) = if leb_ℤ (pos n) i64_max then ok (pos n) else err clock_error

-- A `Duration` in milliseconds.
unfoldable pub expiry : ℤ → ℕ → Result ℤ
unfolding ◌+ℤ◌
expiry now ttl =
    let e = now +ℤ pos (min (max ttl 1000) 300000) in
    if leb_ℤ e i64_max then ok e else err expiry_overflow

-- A column of integers holds no sum that leaves the 64 bits.
unfoldable pub incremented : ℕ → Result ℕ
incremented n = if ltb (n + 1) (2 ^ 63) then ok (n + 1) else err not_an_integer

abbrev pub same_ms : ℤ → ℤ → Bool
same_ms a b = leb_ℤ a b && leb_ℤ b a

-- The condition that every guarded statement puts on the lease of the token's resource.
unfoldable pub names : LeaseToken → WorkLease → Bool
names t l =
    bytes_eq l.owner_node_id t.owner_node_id
    && bytes_eq l.owner_incarnation t.owner_incarnation
    && l.fence == t.fence
    && l.revision == t.revision
    && same_ms l.expires_at_ms t.expires_at_unix_ms

abbrev pub is_current : LeaseToken → ℤ → WorkLease → Bool
is_current t now l = names t l && not l.terminal && ltb_ℤ now l.expires_at_ms

-- An operation whose parameters are checked before the statement is sent.
abbrev pub checked :
    {P A : Type 0}
    → Result P
    → (P → Database → Result A × Database)
    → Database
    → Result A × Database
checked (err e) k db = (err e, db)
checked (ok p) k db = k p db
