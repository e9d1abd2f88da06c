-- ===== src/Engine/Owner/Leases.antt =====
-- crates/nzbd-engine/src/owner.rs: the leases that are handed out to a server.
use nzbd.Prelude.{
  ℕ, zero, suc, ◌+◌, ◌%◌, ◌^◌, Bool, ◌&&◌, ◌||◌, List, [], ◌∷◌, Option, none, some, find, any,
  if◌then◌else◌, ltb, ◌==◌,
}
use nzbd.Types.Torrent.{Text}
use nzbd.Types.Job.{ServerId, Job, queued, downloading, Segment, leased}
use nzbd.Types.Server.{ServerDef}
use nzbd.Engine.Failover.{new_ladder}
use nzbd.Engine.Queue.Scan.{SegRef, SelectionCtx, next_for_server}
use nzbd.Engine.Queue.Lookup.{segment, with_job, with_segment}
use nzbd.Engine.Owner.{Owner, World, on_state}
use nzbd.Engine.Owner.Writers.{ensure_allocation, writer_for}
use nzbd.Engine.Owner.Outcomes.{set_segment, fail_segments, is_blocked}

-- A lease: the segment, its article, and whether its writer's channel is live.
pub record Lease : Type 0 where
  pub r : SegRef
  pub message_id : Text
  pub writer : Bool

unfoldable pub selection : World → Owner → SelectionCtx
unfolding is_blocked
selection w o = record {
  ladder = new_ladder o.servers;
  is_blocked = λ s. any (λ (e : ℕ × ℕ). e.0 == s && ltb w.now e.1) o.blocked;
  delegated = o.delegated;
  post_fetch_files = o.post_fetch_files;
  regular_downloads = o.download_enabled;
  article_retries = o.tuning.article_retries;
  now_unix = w.now_unix;
  propagation_delay_secs = o.tuning.propagation_delay;
  soft_hold = o.quota_reached;
  rotate = o.rotate;
}

abbrev pub start_download : Job → Job
start_download j = record j { status = elim j.status [ queued ↦ downloading | st ↦ st ] }

-- The segment is leased to the server, its job is downloading, and the cursor moves on.
unfoldable pub hand_out : World → ServerId → SegRef → Segment → Owner → Owner × Lease
hand_out w server r s o =
    let marked = on_state (with_segment r (set_segment (leased server))) o in
    let (o', live) = writer_for w r.job r.file marked in
    let started = on_state (with_job r.job start_download) o' in
    (
      record started { rotate = (started.rotate + 1) % 2 ^ 64 },
      record { r = r; message_id = s.message_id; writer = live },
    )

-- One round of the loop of `grant_work`: `none` is a `break`.
unfoldable pub grant_one : World → ServerDef → Owner → Owner × Option Lease
grant_one w server o =
    let sc = next_for_server o.state server (selection w o) o.attempts in
    let swept = fail_segments w sc.gone (record o { attempts = sc.attempts }) in
    elim sc.lease [
      | none ↦ (swept, none)
      | some r ↦
          let (o', ok) = ensure_allocation w r.job swept in
          if ok
          then elim (segment o'.state r) [
            | none ↦ (o', none)
            | some s ↦ let (o2, l) = hand_out w server.id r s o' in (o2, some l)
          ]
          else (o', none)
    ]

unfoldable pub grant_rounds : ℕ → World → ServerDef → Owner → Owner × List Lease
grant_rounds zero w server o = (o, [])
grant_rounds (suc n) w server o =
    let (o', l) = grant_one w server o in
    let (o2, rest) = grant_rounds n w server o' in
    elim l [ none ↦ (o', []) | some x ↦ (o2, x ∷ rest) ]

unfoldable pub grant_work : World → ServerId → ℕ → Owner → Owner × List Lease
grant_work w s n o =
    if o.disk_low || is_blocked w s o
    then (o, [])
    else elim (find (λ (d : ServerDef). d.id == s) o.servers) [
      | none ↦ (o, [])
      | some server ↦ grant_rounds n w server o
    ]
