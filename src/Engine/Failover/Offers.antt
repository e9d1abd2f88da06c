-- ===== src/Engine/Failover/Offers.antt =====
-- crates/nzbd-engine/src/failover.rs: who is offered a segment, and what the other answers mean.
use nzbd.Prelude.{
  ℕ, zero, suc, ◌≤◌, ◌≡◌, ◌≢◌, ◌↔◌, ◌⊎◌, inl, inr, refl, sym, ◌∙◌, subst, ap, Bool, true, false,
  not, List, [], ◌∷◌, map, Option, none, some, arith, leb, In, all, select, Bool-cases,
  Option-cases, In-select, select-In, all-In,
}
use nzbd.Types.Server.{ServerDef}
use nzbd.Engine.Failover.{
  Ladder, SegmentAttempt, Candidates, servers, wait_for_blocked, exhausted, escalated, offer_usable,
  offer, round, climb, current_candidates, is_candidate, is_group_failed, is_retention_exceeded,
}

-- A server that may serve the segment at the attempt's tier, blocks aside.
pub record Serves (l : Ladder) (att : SegmentAttempt) (age : Option ℕ) (s : ServerDef)
    : Type 0 where
  pub listed : In s l.servers
  pub active : s.active ≡ true
  pub at_tier : s.tier ≡ att.tier
  pub group_alive : is_group_failed l att s ≡ false
  pub retained : is_retention_exceeded s age ≡ false

pub candidate-Serves :
    (l : Ladder) (att : SegmentAttempt) (age : Option ℕ) (s : ServerDef)
    → In s (select (is_candidate l att age) l.servers)
    → Serves l att age s
unfolding is_candidate
candidate-Serves l att age s m =
    let r = select-In (is_candidate l att age) l.servers s m in
    let t = r.1 in
    record {
      listed = r.0;
      active = ground arith;
      at_tier = ground arith;
      group_alive = ground arith;
      retained = ground arith;
    }

pub Serves-candidate :
    (l : Ladder) (att : SegmentAttempt) (age : Option ℕ) (s : ServerDef)
    → Serves l att age s
    → In s (select (is_candidate l att age) l.servers)
unfolding is_candidate
Serves-candidate l att age s v =
    In-select (is_candidate l att age) l.servers s v.listed
      (ground (arith, v.active, v.at_tier, v.group_alive, v.retained))

In-map_id :
    (xs : List ServerDef) (i : ℕ)
    → In i (map (λ s. s.id) xs)
    → (s : ServerDef) × In s xs × (s.id ≡ i)
In-map_id [] i m = elim m [ ]
In-map_id (x ∷ xs) i (inl e) = (x, inl refl, sym e)
In-map_id (x ∷ xs) i (inr m) = let r = In-map_id xs i m in (r.0, inr r.1, r.2)

pub map_id-In : (xs : List ServerDef) (s : ServerDef) → In s xs → In s.id (map (λ s. s.id) xs)
map_id-In [] s m = elim m [ ]
map_id-In (x ∷ xs) s (inl e) = inl (ap (λ (y : ServerDef). y.id) e)
map_id-In (x ∷ xs) s (inr m) = inr (map_id-In xs s m)

abbrev unblocked : (ℕ → Bool) → List ServerDef → List ServerDef
unblocked is_blocked = select (λ s. not (is_blocked s.id))

blocked_of_none :
    (cs : List ServerDef) (is_blocked : ℕ → Bool)
    → unblocked is_blocked cs ≡ []
    → (s : ServerDef) → In s cs
    → is_blocked s.id ≡ true
blocked_of_none cs is_blocked e s m = elim (Bool-cases (is_blocked s.id)) [
  | inl t ↦ t
  | inr f ↦
      absurd
        (elim (subst (In s) e (In-select (λ s. not (is_blocked s.id)) cs s m (ground arith))) [ ])
]

offer_usable-servers :
    (cs us : List ServerDef) (ids : List ℕ)
    → offer_usable cs us ≡ some (servers ids)
    → (ids ≡ map (λ s. s.id) us) × (ids ≢ [])
unfolding offer_usable
offer_usable-servers cs [] ids h = absurd (ground arith)
offer_usable-servers cs (u ∷ us) ids h = (ground arith, ground arith)

offer-servers :
    (cs : List ServerDef) (is_blocked : ℕ → Bool) (ids : List ℕ)
    → offer cs is_blocked ≡ some (servers ids)
    → (ids ≡ map (λ s. s.id) (unblocked is_blocked cs)) × (ids ≢ [])
unfolding offer
offer-servers [] is_blocked ids h = absurd (ground arith)
offer-servers (c ∷ cs) is_blocked ids h = offer_usable-servers (c ∷ cs) _ ids h

offer_usable-wait :
    (cs us : List ServerDef)
    → offer_usable cs us ≡ some wait_for_blocked
    → (us ≡ []) × (all (λ s. s.fill) cs ≡ false)
unfolding offer_usable
offer_usable-wait cs [] h = (refl, ground arith)
offer_usable-wait cs (u ∷ us) h = absurd (ground arith)

offer_usable-none :
    (cs us : List ServerDef) → offer_usable cs us ≡ none → (us ≡ []) × (all (λ s. s.fill) cs ≡ true)
unfolding offer_usable
offer_usable-none cs [] h = (refl, ground arith)
offer_usable-none cs (u ∷ us) h = absurd (ground arith)

offer_usable-ne-exhausted : (cs us : List ServerDef) → offer_usable cs us ≢ some exhausted
unfolding offer_usable
offer_usable-ne-exhausted cs [] h = absurd (ground arith)
offer_usable-ne-exhausted cs (u ∷ us) h = absurd (ground arith)

-- A round escalates exactly on fill servers that are all blocked, or on no candidate at all.
pub offer-none :
    (cs : List ServerDef) (is_blocked : ℕ → Bool)
    → offer cs is_blocked ≡ none
    → (s : ServerDef) → In s cs
    → (is_blocked s.id ≡ true) × (s.fill ≡ true)
unfolding offer
offer-none [] is_blocked h s m = elim m [ ]
offer-none (c ∷ cs) is_blocked h s m =
    let r = offer_usable-none (c ∷ cs) _ h in
    (blocked_of_none (c ∷ cs) is_blocked r.0 s m, all-In (λ s. s.fill) (c ∷ cs) r.1 s m)

pub offer-ne-exhausted :
    (cs : List ServerDef) (is_blocked : ℕ → Bool) → offer cs is_blocked ≢ some exhausted
unfolding offer
offer-ne-exhausted [] is_blocked h = absurd (ground arith)
offer-ne-exhausted (c ∷ cs) is_blocked h = offer_usable-ne-exhausted (c ∷ cs) _ h

offer-wait :
    (cs : List ServerDef) (is_blocked : ℕ → Bool)
    → offer cs is_blocked ≡ some wait_for_blocked
    → ((s : ServerDef) → In s cs → is_blocked s.id ≡ true) × (all (λ s. s.fill) cs ≡ false)
unfolding offer
offer-wait [] is_blocked h = absurd (ground arith)
offer-wait (c ∷ cs) is_blocked h =
    let r = offer_usable-wait (c ∷ cs) _ h in (blocked_of_none (c ∷ cs) is_blocked r.0, r.1)

module _ (l : Ladder) (is_blocked : ℕ → Bool) (age : Option ℕ) where
  -- An answer other than `exhausted` is what the round at the reached tier offers.
  pub climb-round :
      (fuel : ℕ) (att : SegmentAttempt) (c : Candidates)
      → (climb fuel l att is_blocked age).1 ≡ c
      → c ≢ exhausted
      → round l (climb fuel l att is_blocked age).0 is_blocked age ≡ some c
  unfolding climb
  climb-round zero att c h n = absurd (n (sym h))
  climb-round (suc fuel) att c h n = elim (Option-cases (round l att is_blocked age)) [
    | inr (c', e) ↦ ground (arith, e)
    | inl e ↦ elim (Bool-cases (leb l.max_tier att.tier)) [
      | inl t ↦ absurd (n (ground (arith, e, t)))
      | inr f ↦ ground (arith, e, f, climb-round fuel (escalated att) c)
    ]
  ]

  -- Climbing changes the tier alone, and never downwards nor past the last tier.
  pub climb_keeps :
      (fuel : ℕ) (att : SegmentAttempt)
      → let a = (climb fuel l att is_blocked age).0 in
        (a.failed ≡ att.failed)
        × (a.retries_left ≡ att.retries_left)
        × (a.initial_retries ≡ att.initial_retries)
        × (att.tier ≤ a.tier)
        × ((a.tier ≤ att.tier) ⊎ (a.tier ≤ l.max_tier))
  unfolding climb
  climb_keeps zero att = ground arith
  climb_keeps (suc fuel) att = ground (arith, climb_keeps fuel (escalated att))

not_all_fill :
    (cs : List ServerDef)
    → all (λ s. s.fill) cs ≡ false
    → (s : ServerDef) × In s cs × (s.fill ≡ false)
not_all_fill [] h = absurd (ground arith)
not_all_fill (c ∷ cs) h = elim (Bool-cases c.fill) [
  | inr f ↦ (c, inl refl, f)
  | inl t ↦ let r = not_all_fill cs (ground (arith, t)) in (r.0, inr r.1, r.2)
]

-- Whenever `current_candidates` names servers, the list is not empty (so `select` can take its
-- first), and it names exactly the ids of those active servers at the reached tier which, with their
-- group, have not failed for this article, retain it, and are not blocked.
pub offered_exactly :
    (l : Ladder) (att : SegmentAttempt) (is_blocked : ℕ → Bool) (age : Option ℕ) (ids : List ℕ)
    (i : ℕ)
    → (current_candidates l att is_blocked age).1 ≡ servers ids
    → (ids ≢ [])
      × (In i ids ↔ (
          (s : ServerDef) × Serves l (current_candidates l att is_blocked age).0 age s
          × (s.id ≡ i)
          × (is_blocked i ≡ false)))
unfolding current_candidates round
offered_exactly l att is_blocked age ids i h =
    let a = (current_candidates l att is_blocked age).0 in
    let e = climb-round l is_blocked age _ att (servers ids) h (λ k. cc) in
    let r = offer-servers _ is_blocked ids e in
    (r.1, (λ m. offered i a (subst (In i) r.0 m), λ w. subst (In i) (sym r.0) (listed i a w)))
  where
    offered :
        (i : ℕ) (a : SegmentAttempt)
        → In i (map (λ s. s.id) (unblocked is_blocked (select (is_candidate l a age) l.servers)))
        → (s : ServerDef) × Serves l a age s × (s.id ≡ i) × (is_blocked i ≡ false)
    offered i a m =
        let (s, k, e) = In-map_id _ i m in
        let (k', b) = select-In (λ s. not (is_blocked s.id)) _ s k in
        (s, candidate-Serves l a age s k', e, subst (λ j. is_blocked j ≡ false) e (ground arith))

    listed :
        (i : ℕ) (a : SegmentAttempt)
        → ((s : ServerDef) × Serves l a age s × (s.id ≡ i) × (is_blocked i ≡ false))
        → In i (map (λ s. s.id) (unblocked is_blocked (select (is_candidate l a age) l.servers)))
    listed i a (s, v, e, b) =
        subst
          (λ j.
            In j (map (λ s. s.id) (unblocked is_blocked (select (is_candidate l a age) l.servers))))
          e
          (map_id-In _ s (
            In-select (λ s. not (is_blocked s.id)) _ s (Serves-candidate l a age s v)
              (rw (subst (λ j. is_blocked j ≡ false) (sym e) b) refl)))

-- The answer "wait" means that some server which may serve the segment at the reached tier is not a
-- fill server, so that a fill server never makes the segment wait, and that each server which may
-- serve it there is blocked.
pub waits_for_main :
    (l : Ladder) (att : SegmentAttempt) (is_blocked : ℕ → Bool) (age : Option ℕ)
    → (current_candidates l att is_blocked age).1 ≡ wait_for_blocked
    → let a = (current_candidates l att is_blocked age).0 in
      ((s : ServerDef) × Serves l a age s × (s.fill ≡ false))
      × ¬ ((s : ServerDef) × Serves l a age s × (is_blocked s.id ≡ false))
unfolding current_candidates round
waits_for_main l att is_blocked age h =
    let a = (current_candidates l att is_blocked age).0 in
    let e = climb-round l is_blocked age _ att wait_for_blocked h (λ k. cc) in
    let r = offer-wait _ is_blocked e in
    let (s, m, f) = not_all_fill _ r.1 in
    (
      (s, candidate-Serves l a age s m, f),
      λ w. let b = r.0 w.0 (Serves-candidate l a age w.0 w.1) in cc (sym b ∙ w.2),
    )
