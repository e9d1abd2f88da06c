-- ===== src/Engine/Backend.antt =====
-- crates/nzbd-engine/src/backend.rs: when a torrent competes for a shared download slot.
use nzbd.Prelude.{Bool, true, false, if◌then◌else◌, unwrap_or, ◌&&◌, not, is_some}
use nzbd.Prelude.Int.{ℤ, pos, ltb_ℤ, saturating_sub}
use nzbd.Types.Torrent.{TorrentRecord, TorrentPhase, queued, downloading, phase_wants_download_slot}

abbrev pub stalled_slot_yield_secs : ℤ
stalled_slot_yield_secs = pos 60

abbrev pub is_queued_phase : TorrentPhase → Bool
is_queued_phase queued = true
is_queued_phase _ = false

abbrev pub is_downloading_phase : TorrentPhase → Bool
is_downloading_phase downloading = true
is_downloading_phase _ = false

unfoldable pub torrent_wants_download_slot : TorrentRecord → ℤ → ℤ → Bool
torrent_wants_download_slot t queued_at_unix now_unix =
    if not (phase_wants_download_slot t.phase)
    then false
    else if is_queued_phase t.phase
    then true
    else if not (is_some t.last_activity_unix) && not (is_downloading_phase t.phase)
    then true
    else ltb_ℤ (saturating_sub now_unix (unwrap_or t.last_activity_unix queued_at_unix))
        stalled_slot_yield_secs
