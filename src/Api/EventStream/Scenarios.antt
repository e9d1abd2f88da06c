-- ===== src/Api/EventStream/Scenarios.antt =====
-- A stream that resumes, and one that fell behind its subscription.
use nzbd.Prelude.{ℕ, ◌≡◌, refl, [], ◌∷◌, map, some, arith, ltb, length, select, drop}
use nzbd.Api.EventHub.{
  SeqFrame, EventId, live, frame, rendered, new_hub, publish_raw, replay, Received, event, pump,
  run,
}
use nzbd.Api.EventStream.{got, behind, engine_event, lagged_event, follow, stream, stream_is_exact}

abbrev happens : ℕ → Received
happens c = event (c ∷ []) []

abbrev numbered : ℕ → ℕ → SeqFrame
numbered seq c = frame seq (c ∷ []) (rendered [])

abbrev third : EventId
third = record { boot = 7; seq = 3 }

-- The identifier 1, quoted after two events; a third comes before the replay, a fourth after it.
stream_is_exact_example :
    let subscribed = run (happens 97 ∷ happens 98 ∷ []) (new_hub 7) in
    let read = run (happens 99 ∷ []) subscribed in
    let sent = (run (happens 100 ∷ []) read).sent in
    stream
      (replay (some (record { boot = 7; seq = 1 })) read)
      (map got (drop (length subscribed.sent) sent))
    ≡ map engine_event (select (λ (f : SeqFrame). ltb 1 f.seq) sent)
stream_is_exact_example =
    stream_is_exact 7 (happens 97 ∷ happens 98 ∷ []) (happens 99 ∷ []) (happens 100 ∷ [])
      (record { boot = 7; seq = 1 }) refl (omega arith) (omega arith)

-- The subscription missed the second frame, and the stream goes on with the third.
falls_behind :
    stream live (got (numbered 1 97) ∷ behind 1 ∷ got (numbered 3 99) ∷ [])
    ≡ engine_event (numbered 1 97) ∷ lagged_event 1 ∷ engine_event (numbered 3 99) ∷ []
unfolding stream follow
falls_behind = refl

-- The client quotes the last identifier that it was sent, and is told that it is current.
hole_stays_open :
    replay (some third) (run (happens 97 ∷ happens 98 ∷ happens 99 ∷ []) (new_hub 7)) ≡ live
unfolding replay run pump publish_raw new_hub
hole_stays_open = refl
