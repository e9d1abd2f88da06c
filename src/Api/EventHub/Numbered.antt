-- ===== src/Api/EventHub/Numbered.antt =====
-- crates/nzbd-api/src/eventhub.rs: what a client that reconnects is given.
use nzbd.Prelude.{
  ℕ, zero, suc, ◌+◌, ◌-◌, ◌≤◌, ◌<◌, ◌≡◌, refl, sym, ◌∙◌, ap, subst, inl, inr, Bool, true, false,
  ◌&&◌, List, [], ◌∷◌, ◌++◌, some, arith, Bool-cases, if◌then◌else◌, ◌==◌, ltb, leb, length,
  length-append, select, drop,
}
use nzbd.Types.Torrent.{Text}
use nzbd.Api.EventHub.{
  Body, SeqFrame, EventId, EventHub, reset, new_hub, ring_size, push_back, frame, publish_raw,
  after_frames, replay_ring, replay, Received, event, lagged, pump, run,
}

-- The frames' numbers from a number on.
abbrev pub Numbers : ℕ → List SeqFrame → Type 0
Numbers k [] = Unit {0}
Numbers k (f ∷ fs) = (f.seq ≡ k) × Numbers (suc k) fs

Numbers-append :
    (k : ℕ) (l : List SeqFrame) (f : SeqFrame)
    → Numbers k l
    → f.seq ≡ k + length l
    → Numbers k (l ++ f ∷ [])
Numbers-append k [] f h e = (omega (arith, e), tt)
Numbers-append k (g ∷ l) f h e = (h.0, Numbers-append (suc k) l f h.1 (omega (arith, e)))

pub Numbers-drop : (k m j : ℕ) (l : List SeqFrame) → Numbers k l → j ≡ k + m → Numbers j (drop m l)
Numbers-drop k zero j l h e = subst (λ i. Numbers i l) (omega (arith, e)) h
Numbers-drop k (suc m) j [] h e = tt
Numbers-drop k (suc m) j (f ∷ l) h e = Numbers-drop (suc k) m j l h.1 (omega (arith, e))

module _ {A : Type 0} where
  pub length-drop : (m : ℕ) (l : List A) → length (drop m l) ≡ length l - m
  length-drop zero l = omega arith
  length-drop (suc m) [] = omega arith
  length-drop (suc m) (x ∷ l) = omega (arith, length-drop m l)

  pub drop-drop : (a b c : ℕ) (l : List A) → c ≡ b + a → drop a (drop b l) ≡ drop c l
  drop-drop a zero c l e = ap (λ n. drop n l) (omega (arith, e))
  drop-drop zero (suc b) zero l e = absurd (omega (arith, e))
  drop-drop zero (suc b) (suc c) [] e = refl
  drop-drop (suc a) (suc b) zero l e = absurd (omega (arith, e))
  drop-drop (suc a) (suc b) (suc c) [] e = refl
  drop-drop zero (suc b) (suc c) (x ∷ l) e = drop-drop zero b c l (omega (arith, e))
  drop-drop (suc a) (suc b) (suc c) (x ∷ l) e = drop-drop (suc a) b c l (omega (arith, e))

  pub drop-append : (m : ℕ) (l k : List A) → m ≤ length l → drop m (l ++ k) ≡ drop m l ++ k
  drop-append zero l k h = refl
  drop-append (suc m) [] k h = absurd (omega (arith, h))
  drop-append (suc m) (x ∷ l) k h = drop-append m l k (omega (arith, h))

abbrev pub newer : ℕ → SeqFrame → Bool
newer last f = ltb last f.seq

pub select-newer_all :
    (last k : ℕ) (l : List SeqFrame) → Numbers k l → last < k → select (newer last) l ≡ l
select-newer_all last k [] h less = refl
select-newer_all last k (f ∷ l) h less =
    let t : ltb last f.seq ≡ true = ground (arith, h.0, less) in
    rw t (ap (λ m. f ∷ m) (select-newer_all last (suc k) l h.1 (omega (arith, less))))

pub select-newer :
    (last k n : ℕ) (l : List SeqFrame)
    → Numbers k l
    → k + n ≡ last + 1
    → select (newer last) l ≡ drop n l
select-newer last k zero l h e = select-newer_all last k l h (omega (arith, e))
select-newer last k (suc n) [] h e = refl
select-newer last k (suc n) (f ∷ l) h e =
    let t : ltb last f.seq ≡ false = ground (arith, h.0, e) in
    rw t (select-newer last (suc k) n l h.1 (omega (arith, e)))

-- The ring holds the last frames of all those that were sent.
pub record Numbered (boot : ℕ) (h : EventHub) : Type 0 where
  pub same_boot : h.boot ≡ boot
  pub numbers : Numbers 1 h.sent
  pub next : h.next ≡ length h.sent + 1
  pub ring : h.ring ≡ drop (length h.sent - ring_size) h.sent

push_back-drop :
    (f : SeqFrame) (sent : List SeqFrame)
    → push_back f (drop (length sent - 1024) sent)
      ≡ drop (length (sent ++ f ∷ []) - 1024) (sent ++ f ∷ [])
push_back-drop f sent =
    let n = length sent in
    let total : length (sent ++ f ∷ []) ≡ n + 1 = omega (arith, length-append sent (f ∷ [])) in
    elim (Bool-cases (length (drop (n - 1024) sent) == 1024)) [
      | inl t ↦
          let full : n - (n - 1024) ≡ 1024 = ground (arith, t, length-drop (n - 1024) sent) in
          rw t (
            rw total (
              rw (drop-drop 1 (n - 1024) (n + 1 - 1024) sent (omega (arith, full)))
                (sym (drop-append (n + 1 - 1024) sent (f ∷ []) (omega (arith, full))))))
      | inr t ↦
          let few : n < 1024 = ground (arith, t, length-drop (n - 1024) sent) in
          let zero_before : n - 1024 ≡ 0 = omega (arith, few) in
          let zero_after : n + 1 - 1024 ≡ 0 = omega (arith, few) in
          rw t (rw total (rw zero_after (rw zero_before refl)))
    ]

publish_raw-Numbered :
    (boot : ℕ) (name : Text) (body : Body) (h : EventHub)
    → Numbered boot h
    → Numbered boot (publish_raw name body h)
unfolding publish_raw
publish_raw-Numbered boot name body h v = record {
  same_boot = v.same_boot;
  numbers = Numbers-append 1 h.sent (frame h.next name body) v.numbers (omega (arith, v.next));
  next = omega (arith, v.next, length-append h.sent (frame h.next name body ∷ []));
  ring =
      ap (push_back (frame h.next name body)) v.ring
      ∙ push_back-drop (frame h.next name body) h.sent;
}

run-Numbered :
    (boot : ℕ) (rs : List Received) (h : EventHub) → Numbered boot h → Numbered boot (run rs h)
unfolding run pump
run-Numbered boot [] h v = v
run-Numbered boot (event name text ∷ rs) h v =
    run-Numbered boot rs _ (publish_raw-Numbered boot name _ h v)
run-Numbered boot (lagged n ∷ rs) h v = run-Numbered boot rs _ (publish_raw-Numbered boot _ _ h v)

new_hub-Numbered : (boot : ℕ) → Numbered boot (new_hub boot)
unfolding new_hub
new_hub-Numbered boot = record { same_boot = refl; numbers = tt; next = refl; ring = refl }

pub hub-Numbered : (boot : ℕ) (rs : List Received) → Numbered boot (run rs (new_hub boot))
hub-Numbered boot rs = run-Numbered boot rs (new_hub boot) (new_hub-Numbered boot)

replay_ring-newer :
    (last : ℕ) (sent : List SeqFrame)
    → Numbers 1 sent
    → last ≤ length sent
    → replay_ring last (length sent) (drop (length sent - 1024) sent)
      ≡ (if leb (length sent - last) 1024 then after_frames (select (newer last) sent) else reset)
replay_ring-newer last sent nums le =
    by_ring (drop m sent) refl (Numbers-drop 1 m (1 + m) sent nums refl) (length-drop m sent)
  where
    m : ℕ
    m = length sent - 1024

    by_ring :
        (ring : List SeqFrame)
        → drop m sent ≡ ring
        → Numbers (1 + m) ring
        → length ring ≡ length sent - m
        → replay_ring last (length sent) ring ≡ (
            if leb (length sent - last) 1024
            then after_frames (select (newer last) sent)
            else reset)
    by_ring [] e h len =
        let none_sent : length sent ≡ 0 = omega (arith, len) in
        let first : last ≡ 0 = omega (arith, le, none_sent) in
        let t : (last == length sent) ≡ true = ground (arith, first, none_sent) in
        let u : leb (length sent - last) 1024 ≡ true = ground (arith, none_sent) in
        let same : select (newer last) sent ≡ drop last sent =
          select-newer last 1 last sent nums (omega arith) in
        let nothing : drop last sent ≡ [] = nothing_at sent none_sent last in
        rw t (rw u (rw same (rw nothing refl)))
      where
        nothing_at : (l : List SeqFrame) → length l ≡ 0 → (k : ℕ) → drop k l ≡ []
        nothing_at [] z zero = refl
        nothing_at [] z (suc k) = refl
        nothing_at (f ∷ l) z k = absurd (omega (arith, z))
    by_ring (oldest ∷ ring) e h len = elim (Bool-cases (ltb (last + 1) oldest.seq)) [
      | inl t ↦
          let far : last + 1 < 1 + m = ground (arith, t, h.0) in
          let u : leb (length sent - last) 1024 ≡ false = ground (arith, far) in rw t (rw u refl)
      | inr t ↦
          let near : m ≤ last = ground (arith, t, h.0) in
          let u : leb (length sent - last) 1024 ≡ true = ground (arith, near) in
          let held : select (newer last) (oldest ∷ ring) ≡ drop (last - m) (oldest ∷ ring) =
            select-newer last (1 + m) (last - m) (oldest ∷ ring) h (omega (arith, near)) in
          let all_sent : select (newer last) sent ≡ drop last sent =
            select-newer last 1 last sent nums (omega arith) in
          let cut : drop (last - m) (oldest ∷ ring) ≡ drop last sent =
            subst (λ r. drop (last - m) r ≡ drop last sent) e
              (drop-drop (last - m) m last sent (omega (arith, near))) in
          rw t (rw u (ap after_frames (held ∙ cut ∙ sym all_sent)))
    ]

pub pump-sent : (r : Received) (h : EventHub) → length (pump r h).sent ≡ length h.sent + 1
unfolding pump publish_raw
pump-sent (event name text) h = length-append h.sent _
pump-sent (lagged n) h = length-append h.sent _

pub run-sent :
    (rs : List Received) (h : EventHub) → length (run rs h).sent ≡ length rs + length h.sent
unfolding run
run-sent [] h = omega arith
run-sent (r ∷ rs) h = omega (arith, run-sent rs (pump r h), pump-sent r h)

-- A client that reconnects misses nothing without being told. Whatever the hub has received since it
-- was made, lost events included, each has become one frame; and a client that quotes the identifier of
-- the last frame it saw is given exactly the frames with greater numbers, in the order in which they
-- were sent, or is told that it is current where there is none. It is told to reset exactly where the
-- identifier is of another process, or was not issued yet, or lies more than 1024 frames back.
pub replay_misses_nothing :
    (boot : ℕ) (rs : List Received) (id : EventId)
    → let h = run rs (new_hub boot) in
      let n = length rs in
      (length h.sent ≡ n)
      × (replay (some id) h ≡ (
          if id.boot == boot && (leb id.seq n && leb (n - id.seq) ring_size)
          then after_frames (select (λ (f : SeqFrame). ltb id.seq f.seq) h.sent)
          else reset))
unfolding replay
replay_misses_nothing boot rs id =
    let h = run rs (new_hub boot) in
    let v = run-Numbered boot rs (new_hub boot) (new_hub-Numbered boot) in
    let count : length h.sent ≡ length rs =
      unfold new_hub in omega (arith, run-sent rs (new_hub boot)) in
    let highest : h.next - 1 ≡ length h.sent = omega (arith, v.next) in
    (count, subst (λ n. Answer h n) count (answer h v highest))
  where
    Answer : EventHub → ℕ → Type 0
    Answer h n = replay (some id) h ≡ (
        if id.boot == boot && (leb id.seq n && leb (n - id.seq) ring_size)
        then after_frames (select (λ (f : SeqFrame). ltb id.seq f.seq) h.sent)
        else reset)

    answer :
        (h : EventHub) → Numbered boot h → h.next - 1 ≡ length h.sent → Answer h (length h.sent)
    answer h v highest = elim (Bool-cases (id.boot == boot)) [
      | inr other ↦ rw v.same_boot (rw other refl)
      | inl same ↦ elim (Bool-cases (leb id.seq (length h.sent))) [
        | inr above ↦
            let t : ltb (length h.sent) id.seq ≡ true = ground (arith, above) in
            rw v.same_boot (rw same (rw highest (rw t (rw above refl))))
        | inl issued ↦
            let t : ltb (length h.sent) id.seq ≡ false = ground (arith, issued) in
            rw v.same_boot (
              rw same (
                rw highest (
                  rw t (
                    rw issued (
                      rw v.ring
                        (replay_ring-newer id.seq h.sent v.numbers (ground (arith, issued))))))))
      ]
    ]
