-- ===== src/Api/EventHub/Scenarios.antt =====
-- A hub that received three events, of which the second says that others were lost.
use nzbd.Prelude.{
  ℕ, ◌-◌, ◌≡◌, refl, ◌&&◌, List, [], ◌∷◌, some, if◌then◌else◌, ◌==◌, ltb, leb, length, select,
}
use nzbd.Api.EventHub.{
  SeqFrame, EventId, EventHub, live, reset, frames, frame, rendered, new_hub, ring_size,
  publish_raw, after_frames, replay, Received, event, lagged, pump, run,
}
use nzbd.Api.EventHub.Numbered.{replay_misses_nothing}

abbrev received : List Received
received = event (97 ∷ []) [] ∷ lagged 4 ∷ event (98 ∷ []) [] ∷ []

abbrev hub : EventHub
hub = run received (new_hub 7)

abbrev quoted : ℕ → ℕ → EventId
quoted boot seq = record { boot = boot; seq = seq }

replay_misses_nothing_example :
    (length hub.sent ≡ 3)
    × (replay (some (quoted 7 2)) hub ≡ (
        if 7 == 7 && (leb 2 3 && leb (3 - 2) ring_size)
        then after_frames (select (λ (f : SeqFrame). ltb 2 f.seq) hub.sent)
        else reset))
replay_misses_nothing_example = replay_misses_nothing 7 received (quoted 7 2)

the_last_frame : replay (some (quoted 7 2)) hub ≡ frames (frame 3 (98 ∷ []) (rendered []) ∷ [])
unfolding replay run pump publish_raw new_hub
the_last_frame = refl

current : replay (some (quoted 7 3)) hub ≡ live
unfolding replay run pump publish_raw new_hub
current = refl

another_process : replay (some (quoted 6 2)) hub ≡ reset
unfolding replay run pump publish_raw new_hub
another_process = refl
