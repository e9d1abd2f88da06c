-- ===== src/Api/EventStream.antt =====
-- crates/nzbd-api/src/lib.rs: `sse_events`, the engine's events on one stream: what the replay gives,
-- and then the live frames of the subscription that was taken before it. The ticks, log lines and
-- heartbeats of the same loop carry no number, and are left out, as is the client's hanging up.
mod Scenarios
use nzbd.Prelude.{
  ℕ, zero, suc, ◌+◌, ◌-◌, ◌≤◌, ◌<◌, ◌≡◌, refl, sym, ◌∙◌, ap, subst, inl, inr, Bool, true, false,
  ◌&&◌, List, [], ◌∷◌, ◌++◌, map, Option, some, arith, Bool-cases, if◌then◌else◌, ◌==◌, ltb, leb,
  length, length-append, select, drop, max,
}
use mathlib.Core.List.{append-nil, append_assoc}
use nzbd.Api.EventHub.{
  SeqFrame, EventId, EventHub, Replay, live, reset, frames, new_hub, ring_size, after_frames, frame,
  publish_raw, replay, Received, event, lagged, pump, run, rendered, skipped,
}
use nzbd.Api.EventHub.Numbered.{
  Numbers, Numbers-drop, Numbered, drop-drop, drop-append, length-drop, newer, select-newer,
  select-newer_all, replay_misses_nothing, hub-Numbered, run-sent,
}

-- What the broadcast channel yields: a frame, or how many frames the stream fell behind.
pub data Next : Type 0 where
  got : SeqFrame → Next
  behind : ℕ → Next

pub data SseEvent : Type 0 where
  engine_event : SeqFrame → SseEvent
  reset_event : SseEvent
  lagged_event : ℕ → SseEvent

-- The loop's branch for `events.next()`, with `sent_seq`.
unfoldable pub follow : ℕ → List Next → List SseEvent
follow sent_seq [] = []
follow sent_seq (behind n ∷ l) = lagged_event n ∷ follow sent_seq l
follow sent_seq (got f ∷ l) = elim (leb f.seq sent_seq) [
  | true ↦ follow sent_seq l
  | false ↦ engine_event f ∷ follow f.seq l
]

abbrev pub max_seq : ℕ → List SeqFrame → ℕ
max_seq s [] = s
max_seq s (f ∷ fs) = max_seq (max s f.seq) fs

unfoldable pub stream : Replay → List Next → List SseEvent
stream live l = follow 0 l
stream reset l = reset_event ∷ follow 0 l
stream (frames fs) l = map engine_event fs ++ follow (max_seq 0 fs) l

-- Where the live frames are numbered one after the other, those that were replayed are dropped.
follow-newer :
    (s k : ℕ) (l : List SeqFrame)
    → Numbers k l
    → follow s (map got l) ≡ map engine_event (select (newer s) l)
unfolding follow
follow-newer s k [] h = refl
follow-newer s k (f ∷ l) h = elim (Bool-cases (leb f.seq s)) [
  | inl t ↦
      let u : ltb s f.seq ≡ false = ground (arith, t) in
      rw (t, follow) (rw u (follow-newer s (suc k) l h.1))
  | inr t ↦
      let u : ltb s f.seq ≡ true = ground (arith, t) in
      let above : s < suc k = ground (arith, t, h.0) in
      let later : f.seq < suc k = omega (arith, h.0) in
      rw (t, follow)
        (rw u (
          ap (λ m. engine_event f ∷ m)
            (follow-newer f.seq (suc k) l h.1
              ∙ ap (map engine_event) (
                  select-newer_all f.seq (suc k) l h.1 later
                  ∙ sym (select-newer_all s (suc k) l h.1 above)))))
]

map-append :
    (l m : List SeqFrame) → map engine_event (l ++ m) ≡ map engine_event l ++ map engine_event m
map-append [] m = refl
map-append (f ∷ l) m = ap (λ r. engine_event f ∷ r) (map-append l m)

max_seq-Numbers :
    (s k : ℕ) (l : List SeqFrame)
    → Numbers k l
    → s < k
    → 0 < length l
    → max_seq s l + 1 ≡ k + length l
max_seq-Numbers s k [] h less full = absurd (omega (arith, full))
max_seq-Numbers s k (f ∷ []) h less full = omega (arith, h.0, less)
max_seq-Numbers s k (f ∷ g ∷ l) h less full =
    let r =
      max_seq-Numbers (max s f.seq) (suc k) (g ∷ l) h.1 (omega (arith, h.0, less)) (omega arith) in
    omega (arith, r)

drop_all : {A : Type 0} (l : List A) → drop (length l) l ≡ []
drop_all [] = refl
drop_all (x ∷ l) = drop_all l

run-append : (a b : List Received) (h : EventHub) → run (a ++ b) h ≡ run b (run a h)
unfolding run
run-append [] b h = refl
run-append (r ∷ a) b h = run-append a b (pump r h)

run-prefix :
    (rs : List Received) (h : EventHub) → (x : List SeqFrame) × ((run rs h).sent ≡ h.sent ++ x)
unfolding run pump publish_raw
run-prefix [] h = ([], sym (append-nil h.sent))
run-prefix (event name text ∷ rs) h =
    let (x, e) = run-prefix rs (pump (event name text) h) in
    (
      frame h.next name (rendered text) ∷ x,
      e ∙ append_assoc h.sent (frame h.next name (rendered text) ∷ []) x,
    )
run-prefix (lagged n ∷ rs) h =
    let (x, e) = run-prefix rs (pump (lagged n) h) in
    let f = frame h.next (b'l' ∷ b'a' ∷ b'g' ∷ b'g' ∷ b'e' ∷ b'd' ∷ []) (skipped n) in
    (f ∷ x, e ∙ append_assoc h.sent (f ∷ []) x)

-- The stream in terms of the frames that were sent: `s1` by the time of the replay, `x` since then.
stream-newer :
    (last n0 : ℕ) (s1 x : List SeqFrame)
    → Numbers 1 (s1 ++ x)
    → Numbers 1 s1
    → last ≤ n0
    → n0 ≤ length s1
    → stream (after_frames (select (newer last) s1)) (map got (drop n0 (s1 ++ x)))
      ≡ map engine_event (select (newer last) (s1 ++ x))
unfolding stream
stream-newer last n0 s1 x nums nums1 le0 le1 =
    let whole : select (newer last) (s1 ++ x) ≡ drop last (s1 ++ x) =
      select-newer last 1 last (s1 ++ x) nums (omega arith) in
    let old : select (newer last) s1 ≡ drop last s1 =
      select-newer last 1 last s1 nums1 (omega arith) in
    by_frames (select (newer last) s1) old whole
      (subst (Numbers (1 + last)) (sym old) (Numbers-drop 1 last (1 + last) s1 nums1 refl))
      (ap length old ∙ length-drop last s1)
  where
    rest : Numbers (1 + n0) (drop n0 (s1 ++ x))
    rest = Numbers-drop 1 n0 (1 + n0) (s1 ++ x) nums refl

    by_frames :
        (fs : List SeqFrame)
        → fs ≡ drop last s1
        → select (newer last) (s1 ++ x) ≡ drop last (s1 ++ x)
        → Numbers (1 + last) fs
        → length fs ≡ length s1 - last
        → stream (after_frames fs) (map got (drop n0 (s1 ++ x)))
          ≡ map engine_event (select (newer last) (s1 ++ x))
    by_frames [] e whole nf len =
        let same : n0 ≡ last = omega (arith, len, le0, le1) in
        rw whole (
          rw (follow-newer 0 (1 + n0) (drop n0 (s1 ++ x)) rest) (
            ap (map engine_event) (
              select-newer_all 0 (1 + n0) (drop n0 (s1 ++ x)) rest (omega arith)
              ∙ ap (λ n. drop n (s1 ++ x)) same)))
    by_frames (f ∷ fs) e whole nf len =
        let top : max_seq 0 (f ∷ fs) ≡ length s1 =
          omega
            (arith, max_seq-Numbers 0 (1 + last) (f ∷ fs) nf (omega arith) (omega arith), len) in
        let cut : drop (length s1 - n0) (drop n0 (s1 ++ x)) ≡ x =
          drop-drop (length s1 - n0) n0 (length s1) (s1 ++ x) (omega (arith, le1))
          ∙ drop-append (length s1) s1 x (omega arith)
          ∙ ap (λ l. l ++ x) (drop_all s1) in
        let new : follow (max_seq 0 (f ∷ fs)) (map got (drop n0 (s1 ++ x))) ≡ map engine_event x =
          follow-newer (max_seq 0 (f ∷ fs)) (1 + n0) (drop n0 (s1 ++ x)) rest
          ∙ ap (map engine_event) (
              select-newer (max_seq 0 (f ∷ fs)) (1 + n0) (length s1 - n0) (drop n0 (s1 ++ x)) rest
                (omega (arith, top, le1))
              ∙ cut) in
        ap (λ l. map engine_event (f ∷ fs) ++ l) new
        ∙ sym (map-append (f ∷ fs) x)
        ∙ ap (map engine_event)
            (ap (λ l. l ++ x) e ∙ sym (drop-append last s1 x (omega (arith, le0, le1))) ∙ sym whole)

covers :
    (boot : ℕ) (before between : List Received) (id : EventId)
    → id.boot ≡ boot
    → id.seq ≤ length before
    → length before + length between ≤ id.seq + 1024
    → let read = run between (run before (new_hub boot)) in
      replay (some id) read ≡ after_frames (select (newer id.seq) read.sent)
covers boot before between id same old near =
    let first = before ++ between in
    let n : length first ≡ length before + length between = length-append before between in
    let a : (id.boot == boot) ≡ true = ground (arith, same) in
    let b : leb id.seq (length first) ≡ true = ground (arith, n, old) in
    let c : leb (length first - id.seq) 1024 ≡ true = ground (arith, n, near) in
    let e = (replay_misses_nothing boot first id).1 in
    let e' : replay (some id) (run first (new_hub boot))
        ≡ after_frames (select (newer id.seq) (run first (new_hub boot)).sent) =
      e
      ∙ chosen (id.boot == boot) (leb id.seq (length first)) (leb (length first - id.seq) 1024) a b
          c in
    subst (λ h. replay (some id) h ≡ after_frames (select (newer id.seq) h.sent))
      (run-append before between (new_hub boot)) e'
  where
    chosen :
        {r : Replay} (a b c : Bool)
        → a ≡ true
        → b ≡ true
        → c ≡ true
        → (if a && (b && c) then r else reset) ≡ r
    chosen a b c p q r = rw p (rw q (rw r refl))

-- A client that reconnects is sent every event it has not seen, once, in order: where it quotes an
-- identifier that this process issued before its stream was subscribed, at most 1024 frames before the
-- replay was read, its stream carries exactly the frames with greater numbers of all that are ever
-- sent, whatever the hub received before the subscription, between it and the replay, and afterwards,
-- as long as the subscription itself does not fall behind.
pub stream_is_exact :
    (boot : ℕ) (before between after : List Received) (id : EventId)
    → id.boot ≡ boot
    → id.seq ≤ length before
    → length before + length between ≤ id.seq + ring_size
    → let subscribed = run before (new_hub boot) in
      let read = run between subscribed in
      let sent = (run after read).sent in
      stream (replay (some id) read) (map got (drop (length subscribed.sent) sent))
      ≡ map engine_event (select (λ (f : SeqFrame). ltb id.seq f.seq) sent)
stream_is_exact boot before between after id same old near =
    let subscribed = run before (new_hub boot) in
    let read = run between subscribed in
    let first = before ++ between in
    let at_read : run first (new_hub boot) ≡ read = run-append before between (new_hub boot) in
    let at_end : run (first ++ after) (new_hub boot) ≡ run after read =
      run-append first after (new_hub boot) ∙ ap (run after) at_read in
    let v1 = subst (Numbered boot) at_read (hub-Numbered boot first) in
    let v2 = subst (Numbered boot) at_end (hub-Numbered boot (first ++ after)) in
    let (x, grown) = run-prefix after read in
    let n0 = run-sent before (new_hub boot) in
    let n1 = run-sent between subscribed in
    let none_yet : length (new_hub boot).sent ≡ 0 = unfold new_hub in refl in
    let covered = covers boot before between id same old near in
    rw covered (
      rw grown (
        stream-newer id.seq (length subscribed.sent) read.sent x
          (subst (Numbers 1) grown v2.numbers) v1.numbers (omega (arith, old, n0, none_yet))
          (omega (arith, n1))))
