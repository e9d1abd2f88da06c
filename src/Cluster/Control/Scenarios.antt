-- ===== src/Cluster/Control/Scenarios.antt =====
-- One job, two nodes that lease its work one after the other, and a script.
use nzbd.Prelude.{ℕ, ◌<◌, ◌≡◌, refl, true, false, [], ◌∷◌, none, some, arith, bytes_eq}
use nzbd.Prelude.Int.{ℤ, pos, ◌+ℤ◌}
use nzbd.Types.Torrent.{Text}
use nzbd.Cluster.Control.{
  Result, ok, err, lease_disappeared, ControlJob, WorkLease, LeaseToken, Database, put_job,
  validate_identity, i64_value, unix_ms, expiry, incremented, names,
}
use nzbd.Cluster.Control.Leases.{
  Claim, acquired, held, acquire, claim_row, upsert_lease, current_lease, renew, renew_row,
}
use nzbd.Cluster.Control.Receipts.{
  MutationOutcome, applied, duplicate, apply_command, command_row, command_receipt,
}
use nzbd.Cluster.Control.Publications.{
  publish_result, publish_row, publication_receipt, publish_all, publication_effect,
}
use nzbd.Cluster.Control.Scripts.{begin_script, begin_row}
use nzbd.Cluster.Control.Steps as Steps
use nzbd.Cluster.Control.Holding.{Held}
use nzbd.Cluster.Control.{unix_ms}
use nzbd.Cluster.Control.Steps.{Op, renewing, publishing, acquiring}
use nzbd.Cluster.Control.Fencing.{is_applied, is_run, is_done, stale_token_is_fenced}
use nzbd.Cluster.Control.Commits.{one_publication_per_lease, retry_answers_duplicate}
use nzbd.Cluster.Control.Updates.{no_update_is_lost, script_runs_once}

abbrev one_job : ControlJob
one_job = record {
  incarnation = 105 ∷ [];
  revision = 1;
  intent_json = 123 ∷ [];
  result_ref = none;
  result_id = none;
  deleted = false;
}

abbrev store : Database
store = record {
  jobs = put_job 1 one_job (λ id. none);
  leases = λ r. none;
  commands = [];
  publications = [];
  ranges = λ r. none;
  scripts = λ id. none;
}

abbrev claim : Text → Claim
claim node = record {
  resource = 114 ∷ [];
  cluster_id = 99 ∷ [];
  job_id = 1;
  job_incarnation = 105 ∷ [];
  owner_node_id = node;
  owner_incarnation = 120 ∷ [];
  kind = 112 ∷ [];
  scope_json = [];
  job_revision = 1;
  ttl = 5000;
}

abbrev token : Text → ℕ → ℕ → ℤ → LeaseToken
token node fence revision expires = record {
  resource = 114 ∷ [];
  owner_node_id = node;
  owner_incarnation = 120 ∷ [];
  fence = fence;
  revision = revision;
  expires_at_unix_ms = expires;
}

abbrev node_a : Text
node_a = 97 ∷ []

abbrev node_b : Text
node_b = 98 ∷ []

abbrev leased : Database
leased = (acquire (pos 1000) store (claim node_a) store).1

a_leases :
    (acquire (pos 1000) store (claim node_a) store).0 ≡ ok (acquired (token node_a 1 1 (pos 6000)))
unfolding acquire claim_row upsert_lease validate_identity i64_value unix_ms expiry ◌+ℤ◌
a_leases = refl

-- A resource that is leased, as long as the lease lasts.
b_waits : (acquire (pos 5999) leased (claim node_b) leased).0 ≡ ok (held node_a 1 (pos 6000))
unfolding acquire claim_row upsert_lease validate_identity i64_value unix_ms expiry ◌+ℤ◌ bytes_eq
    current_lease
b_waits = refl

b_follows :
    (acquire (pos 6000) store (claim node_b) (Steps.run [] leased)).0
    ≡ ok (acquired (token node_b 2 2 (pos 11000)))
unfolding acquire claim_row upsert_lease validate_identity i64_value unix_ms expiry ◌+ℤ◌ bytes_eq
    Steps.run
b_follows = refl

stale_token_is_fenced_example :
    let op = renewing (pos 1001) (token node_a 1 1 (pos 6000)) 5000 in
    let now = Steps.run [] (acquire (pos 6000) store (claim node_b) (Steps.run [] leased)).1 in
    (1 < 2) × (Steps.apply op now ≡ now) × (is_done op now ≡ false)
stale_token_is_fenced_example =
    stale_token_is_fenced (pos 1000) (pos 6000) store store (claim node_a) (claim node_b) store []
      [] (token node_a 1 1 (pos 6000)) (token node_b 2 2 (pos 11000))
      (renewing (pos 1001) (token node_a 1 1 (pos 6000)) 5000) a_leases b_follows refl refl

-- Before that, the same renewal is done.
a_renews :
    (renew (pos 1001) (token node_a 1 1 (pos 6000)) 5000 leased).0
    ≡ ok (some (token node_a 1 2 (pos 6001)))
unfolding renew renew_row acquire claim_row upsert_lease validate_identity i64_value unix_ms expiry
    ◌+ℤ◌ bytes_eq names incremented
a_renews = refl

abbrev publish_once : Database → Result MutationOutcome × Database
publish_once db =
    publish_result (pos 2000) store (112 ∷ []) (token node_a 1 1 (pos 6000)) 1 (111 ∷ []) (102 ∷ [])
      (125 ∷ []) db

a_publishes : is_applied (publish_once leased).0 ≡ true
unfolding publish_result publish_row publication_receipt publish_all publication_effect acquire
    claim_row upsert_lease validate_identity i64_value unix_ms expiry ◌+ℤ◌ bytes_eq names
    incremented
a_publishes = refl

abbrev again : Op
again =
    publishing (pos 2001) leased (113 ∷ []) (token node_a 1 1 (pos 6000)) 2 (110 ∷ []) (102 ∷ [])
      (125 ∷ [])

one_publication_per_lease_example :
    let now = Steps.run [] (publish_once leased).1 in
    ((l : WorkLease) × (now_ms : ℤ) × (unix_ms (pos 2000) ≡ ok now_ms)
      × (leased.leases (114 ∷ []) ≡ some l)
      × Held (token node_a 1 1 (pos 6000)) now_ms l)
    × (Steps.apply again now ≡ now)
    × (is_done again now ≡ false)
one_publication_per_lease_example =
    one_publication_per_lease (pos 2000) store (112 ∷ []) (token node_a 1 1 (pos 6000)) 1 (111 ∷ [])
      (102 ∷ []) (125 ∷ []) leased [] again (token node_a 1 1 (pos 6000)) a_publishes refl refl
      (omega arith)

retry_answers_duplicate_example :
    let t = token node_a 1 1 (pos 6000) in
    let now = Steps.run [] (publish_once leased).1 in
    ((publish_once leased).0 ≡ ok (applied 2))
    × (publish_result (pos 2500) now (112 ∷ []) t 1 [] [] [] now ≡ (ok (duplicate 2), now))
retry_answers_duplicate_example =
    retry_answers_duplicate (pos 2000) store (112 ∷ []) (token node_a 1 1 (pos 6000)) 1 (111 ∷ [])
      (102 ∷ []) (125 ∷ []) leased [] (pos 2500) (token node_a 1 1 (pos 6000)) 1 [] [] []
      (Steps.run [] (publish_once leased).1) a_publishes

-- A lease whose result is published is not granted again while it would have lasted.
b_errs :
    (acquire (pos 3000) (publish_once leased).1 (claim node_b) (publish_once leased).1).0
    ≡ err lease_disappeared
unfolding publish_result publish_row publication_receipt publish_all publication_effect acquire
    claim_row upsert_lease validate_identity i64_value unix_ms expiry ◌+ℤ◌ bytes_eq names
    incremented current_lease
b_errs = refl

abbrev pause : Database → Result MutationOutcome × Database
pause db = apply_command (pos 3000) store (109 ∷ []) 1 1 (91 ∷ []) false db

paused : is_applied (pause store).0 ≡ true
unfolding apply_command command_row command_receipt i64_value unix_ms
paused = refl

no_update_is_lost_example :
    let now = Steps.run [] (pause store).1 in
    let second = apply_command (pos 3001) store (108 ∷ []) 1 1 (93 ∷ []) true now in
    ((j : ControlJob) × (store.jobs 1 ≡ some j)
      × (j.revision ≡ 1)
      × ((pause store).0 ≡ ok (applied 2))
      × ((pause store).1.jobs 1
          ≡ some (record j { revision = 2; intent_json = 91 ∷ []; deleted = false })))
    × (second.1 ≡ now)
    × (is_applied second.0 ≡ false)
no_update_is_lost_example =
    no_update_is_lost (pos 3000) (pos 3001) store store (109 ∷ []) (108 ∷ []) 1 1 1 (91 ∷ [])
      (93 ∷ []) false true store [] paused (omega arith)

a_runs :
    is_run (begin_script (pos 2000) store (115 ∷ []) (token node_a 1 1 (pos 6000)) leased).0 ≡ true
unfolding begin_script begin_row acquire claim_row upsert_lease validate_identity i64_value unix_ms
    expiry ◌+ℤ◌ bytes_eq names
a_runs = refl

script_runs_once_example :
    let t = token node_a 1 1 (pos 6000) in
    let now = Steps.run [] (begin_script (pos 2000) store (115 ∷ []) t leased).1 in
    (leased.scripts (115 ∷ []) ≡ none)
    × ((now_ms : ℤ) × (l : WorkLease) × (unix_ms (pos 2000) ≡ ok now_ms)
        × (leased.leases (114 ∷ []) ≡ some l)
        × Held t now_ms l)
    × ((begin_script (pos 2001) store (115 ∷ []) t now).1 ≡ now)
    × (is_run (begin_script (pos 2001) store (115 ∷ []) t now).0 ≡ false)
script_runs_once_example =
    script_runs_once (pos 2000) (pos 2001) store store (115 ∷ []) (token node_a 1 1 (pos 6000))
      (token node_a 1 1 (pos 6000)) leased [] a_runs
