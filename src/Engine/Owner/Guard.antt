-- ===== src/Engine/Owner/Guard.antt =====
-- crates/nzbd-engine/src/owner.rs: the disk guard, and the torrents that it holds and lets go.
use nzbd.Prelude.{
  ℕ, ◌-◌, ◌*◌, ◌^◌, ◌≤◌, ◌≡◌, refl, inl, inr, min, Bool, true, false, not, ◌&&◌, ◌||◌, [], ◌∷◌,
  Option, none, some, any, if◌then◌else◌, ltb, leb, bytes_eq, arith, Bool-cases,
}
use nzbd.Types.Torrent.{Text, TorrentRecord, TorrentPhase, paused_download}
use nzbd.Types.Job.{Job, queued}
use nzbd.Engine.Queue.Lookup.{each_job}
use nzbd.Engine.Owner.{Owner, on_state, bump_epoch, publish_now}
use nzbd.Engine.Owner.Messages.{is_running, hold_torrents}

-- The fields of a reading that the guard decides by.
pub record DiskGuardReading : Type 0 where
  pub available_bytes : Option ℕ
  pub all_roots_known : Bool

abbrev at_least : ℕ → Option ℕ → Bool
at_least floor none = false
at_least floor (some available) = leb floor available

abbrev below : ℕ → Option ℕ → Bool
below floor none = false
below floor (some available) = ltb available floor

-- The latch and the hold, `saturating_mul` on `u64` written out.
unfoldable pub disk_guard_decision : Bool → Bool → DiskGuardReading → ℕ → Bool × Bool
disk_guard_decision was_held write_latched reading floor =
    let clear_at = min (floor * 2) (2 ^ 64 - 1) in
    let clears =
      write_latched
      && ltb 0 clear_at
      && reading.all_roots_known
      && at_least clear_at reading.available_bytes in
    let latched = write_latched && not clears in
    let below_floor = ltb 0 floor && below floor reading.available_bytes in
    let incomplete_hold = was_held && not reading.all_roots_known in
    (latched, latched || below_floor || incomplete_hold)

-- Downloads that are held are let go only on evidence: when the guard's decision lifts a hold, every
-- root was measured; where the free space is known it is not below the floor; and where a failed
-- write had latched the hold, there is a floor and twice the floor (at most the largest `u64`) is
-- known to be free.
pub hold_lifted_on_evidence :
    (write_latched : Bool) (reading : DiskGuardReading) (floor : ℕ)
    → (disk_guard_decision true write_latched reading floor).1 ≡ false
    → (reading.all_roots_known ≡ true)
      × ((free : ℕ) → reading.available_bytes ≡ some free → floor ≤ free)
      × (write_latched ≡ true
          → (1 ≤ floor)
            × (free : ℕ) × (reading.available_bytes ≡ some free)
            × (min (floor * 2) (2 ^ 64 - 1) ≤ free))
unfolding disk_guard_decision
hold_lifted_on_evidence latched reading floor h =
    lifted latched reading.all_roots_known reading.available_bytes h
  where
    lifted :
        (write_latched known : Bool) (available : Option ℕ)
        → (disk_guard_decision true write_latched
            (record { available_bytes = available; all_roots_known = known })
            floor).1
          ≡ false
        → (known ≡ true)
          × ((free : ℕ) → available ≡ some free → floor ≤ free)
          × (write_latched ≡ true
              → (1 ≤ floor)
                × (free : ℕ) × (available ≡ some free)
                × (min (floor * 2) (2 ^ 64 - 1) ≤ free))
    lifted true known none h = absurd (ground (arith, h))
    lifted true known (some n) h =
        elim (Bool-cases
          (ltb 0 (min (floor * 2) (2 ^ 64 - 1)) && known && leb (min (floor * 2) (2 ^ 64 - 1)) n)) [
            | inl t ↦ (
              ground (arith, t),
              λ free e. ground (arith, t, h, e),
              λ u. (ground (arith, t), n, refl, ground (arith, t)),
            )
            | inr f ↦ absurd (ground (arith, f, h))
          ]
    lifted false known none h =
        (ground (arith, h), λ free e. ground (arith, e), λ e. ground (arith, e))
    lifted false known (some n) h =
        (ground (arith, h), λ free e. ground (arith, e, h), λ e. absurd (ground (arith, e)))

-- `"storage full"`.
abbrev storage_full : Text
storage_full =
    b's' ∷ b't' ∷ b'o' ∷ b'r' ∷ b'a' ∷ b'g' ∷ b'e' ∷ b' ' ∷ b'f' ∷ b'u' ∷ b'l' ∷ b'l' ∷ []

abbrev is_paused_download : TorrentPhase → Bool
is_paused_download paused_download = true
is_paused_download _ = false

abbrev says_full : Option Text → Bool
says_full none = false
says_full (some e) = bytes_eq e storage_full

abbrev held_for_storage : TorrentRecord → Bool
held_for_storage t =
    is_running t.control_intent && is_paused_download t.phase && says_full t.last_error

abbrev pub release_torrent : Option TorrentRecord → Job → Job
release_torrent none j = j
release_torrent (some t) j =
    if held_for_storage t
    then record j {
      torrent_record =
          some (record t { phase = TorrentPhase.queued; last_error = none; stop_reason = none });
      status = queued;
    }
    else j

abbrev is_held : Job → Bool
is_held j = elim j.torrent_record [ none ↦ false | some t ↦ held_for_storage t ]

unfoldable pub release_torrents_after_storage_recovery : Owner → Owner
release_torrents_after_storage_recovery o =
    let released = on_state (each_job (λ j. release_torrent j.torrent_record j)) o in
    if any is_held o.state.jobs then bump_epoch (record released { dirty = true }) else released

-- The hold's two edges; the reading is the prober's latest.
unfoldable pub update_disk_guard : DiskGuardReading → Owner → Owner
unfolding disk_guard_decision hold_torrents release_torrents_after_storage_recovery
update_disk_guard reading o =
    let (latched, held) =
      disk_guard_decision o.disk_low o.enospc_latched reading o.tuning.min_free_disk_bytes in
    let decided = record o { enospc_latched = latched; disk_low = held } in
    let resumed = release_torrents_after_storage_recovery decided in
    if held
    then (if o.disk_low then decided else publish_now (hold_torrents decided))
    else if o.disk_low
    then bump_epoch (publish_now resumed)
    else decided

-- The operator's resume: the hold that the latch gave is dropped, and the reading decides again.
unfoldable pub clear_enospc_latch : DiskGuardReading → Owner → Owner
unfolding update_disk_guard
clear_enospc_latch reading o =
    let cleared = record o { enospc_latched = false; disk_low = false } in
    if o.enospc_latched then publish_now (update_disk_guard reading cleared) else o
