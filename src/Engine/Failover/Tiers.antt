-- ===== src/Engine/Failover/Tiers.antt =====
-- crates/nzbd-engine/src/failover.rs: the loop over the tiers, and when the ladder gives up.
use nzbd.Prelude.{
  ℕ, zero, suc, ◌+◌, ◌-◌, ◌≤◌, ◌<◌, ◌≡◌, ◌≢◌, ◌↔◌, ◌⊎◌, inl, inr, refl, sym, ◌∙◌, subst, ap, Bool,
  true, false, List, [], ◌∷◌, Option, none, some, arith, leb, In, Bool-cases, Option-cases,
}
use native.Mathlib.Decide.{dec_lt}
use nzbd.Types.Server.{ServerDef}
use nzbd.Engine.Failover.{
  Ladder, SegmentAttempt, Candidates, servers, wait_for_blocked, exhausted, escalated, round, climb,
  current_candidates, new_ladder, top_tier, is_group_failed,
}
use nzbd.Engine.Failover.Offers.{
  Serves, Serves-candidate, climb_keeps, offer-none, offer-ne-exhausted, offered_exactly,
  waits_for_main,
}

-- The loop of the source, unrolled once: the fuel of the model never runs out.
abbrev loop_body : Ladder → SegmentAttempt → (ℕ → Bool) → Option ℕ → SegmentAttempt × Candidates
loop_body l att is_blocked age = elim (round l att is_blocked age) [
  | some c ↦ (att, c)
  | none ↦ elim (leb l.max_tier att.tier) [
    | true ↦ (att, exhausted)
    | false ↦ current_candidates l (escalated att) is_blocked age
  ]
]

loop_unrolled :
    (l : Ladder) (att : SegmentAttempt) (is_blocked : ℕ → Bool) (age : Option ℕ)
    → current_candidates l att is_blocked age ≡ loop_body l att is_blocked age
unfolding current_candidates climb
loop_unrolled l att is_blocked age = elim (Option-cases (round l att is_blocked age)) [
  | inr (c, e) ↦ ground (arith, e)
  | inl e ↦ elim (Bool-cases (leb l.max_tier att.tier)) [
    | inl t ↦ ground (arith, e, t)
    | inr f ↦
        let k : l.max_tier - att.tier ≡ suc (l.max_tier - (att.tier + 1)) = ground arith in
        ground (arith, e, f, k)
  ]
]

-- A run of the source's loop, with its result and the number of its rounds: a round answers, or gives
-- up at the last tier, or the loop goes on.
pub data Looped (l : Ladder) (is_blocked : ℕ → Bool) (age : Option ℕ)
    : SegmentAttempt → SegmentAttempt × Candidates → ℕ → Type 0 where
  answers :
      {att : SegmentAttempt} (c : Candidates)
      → round l att is_blocked age ≡ some c
      → Looped l is_blocked age att (att, c) 1
  gives_up :
      {att : SegmentAttempt}
      → round l att is_blocked age ≡ none
      → l.max_tier ≤ att.tier
      → Looped l is_blocked age att (att, exhausted) 1
  goes_on :
      {att : SegmentAttempt} {r : SegmentAttempt × Candidates} {n : ℕ}
      → round l att is_blocked age ≡ none
      → att.tier < l.max_tier
      → Looped l is_blocked age (escalated att) r n
      → Looped l is_blocked age att r (suc n)

module _ (l : Ladder) (is_blocked : ℕ → Bool) (age : Option ℕ) where
  -- With fuel for the tiers that are left, the loop comes to its end.
  climb-Looped :
      (fuel : ℕ) (att : SegmentAttempt)
      → l.max_tier - att.tier < fuel
      → (n : ℕ) × Looped l is_blocked age att (climb fuel l att is_blocked age) n
        × (n ≤ suc (l.max_tier - att.tier))
  unfolding climb
  climb-Looped zero att h = absurd (omega (arith, h))
  climb-Looped (suc fuel) att h = elim (Option-cases (round l att is_blocked age)) [
    | inr (c, e) ↦ (1, rw (e, climb) (answers c e), omega arith)
    | inl e ↦ elim (Bool-cases (leb l.max_tier att.tier)) [
      | inl t ↦ (1, rw (e, climb) (rw t (gives_up e (ground (arith, t)))), omega arith)
      | inr f ↦
          let below : att.tier < l.max_tier = ground (arith, f) in
          let (n, run, le) = climb-Looped fuel (escalated att) (omega (arith, h, below)) in
          (suc n, rw (e, climb) (rw f (goes_on e below run)), omega (arith, le, below))
    ]
  ]

  Looped-result :
      {att : SegmentAttempt} {r : SegmentAttempt × Candidates} {n : ℕ}
      → Looped l is_blocked age att r n
      → r ≡ current_candidates l att is_blocked age
  Looped-result {att} (answers c e) =
      sym (loop_unrolled l att is_blocked age ∙ rw (e, loop_body) refl)
  Looped-result {att} (gives_up e t) =
      let b : leb l.max_tier att.tier ≡ true = ground (arith, t) in
      sym (loop_unrolled l att is_blocked age ∙ rw (e, loop_body) (rw b refl))
  Looped-result {att} (goes_on e f run) =
      let b : leb l.max_tier att.tier ≡ false = ground (arith, f) in
      Looped-result run ∙ sym (loop_unrolled l att is_blocked age ∙ rw (e, loop_body) (rw b refl))

  -- The loop over the tiers terminates, after no more rounds than there are tiers from the attempt's to
  -- the last, or one, and what it ends with is the answer of `current_candidates`; every run of it that
  -- ends has that answer.
  pub loop_terminates :
      (att : SegmentAttempt)
      → ((n : ℕ) × Looped l is_blocked age att (current_candidates l att is_blocked age) n
          × (n ≤ suc (l.max_tier - att.tier)))
        × ((r : SegmentAttempt × Candidates) (n : ℕ)
            → Looped l is_blocked age att r n
            → r ≡ current_candidates l att is_blocked age)
  unfolding current_candidates
  loop_terminates att =
      (climb-Looped (suc (l.max_tier - att.tier)) att (omega arith), λ r n run. Looped-result run)

-- The attempt as it would stand at another tier.
abbrev pub at_tier : SegmentAttempt → ℕ → SegmentAttempt
at_tier att t = record att { tier = t }

-- Some server at the attempt's tier or a later one could take the segment now or is worth waiting for.
pub record Hope (l : Ladder) (att : SegmentAttempt) (is_blocked : ℕ → Bool) (age : Option ℕ)
    : Type 0 where
  pub tier : ℕ
  pub not_before : att.tier ≤ tier
  pub server : ServerDef
  pub serves : Serves l (at_tier att tier) age server
  pub worthwhile : (is_blocked server.id ≡ false) ⊎ (server.fill ≡ false)

top_tier_bound :
    (l : List ServerDef) (s : ServerDef) → In s l → s.active ≡ true → s.tier ≤ top_tier l
top_tier_bound [] s m a = elim m [ ]
top_tier_bound (x ∷ l) s (inl e) a =
    let e' = ap (λ (y : ServerDef). y.tier) e in
    let a' = sym (ap (λ (y : ServerDef). y.active) e) ∙ a in ground arith
top_tier_bound (x ∷ l) s (inr m) a = ground (arith, top_tier_bound l s m a)

module _ (l : Ladder) (is_blocked : ℕ → Bool) (age : Option ℕ) where
  answered_exhausted : (att : SegmentAttempt) → round l att is_blocked age ≢ some exhausted
  unfolding round
  answered_exhausted att = offer-ne-exhausted _ is_blocked

  -- With the fuel of `current_candidates`, giving up means that each tier's round escalated.
  climb_exhausted :
      (fuel : ℕ) (att : SegmentAttempt) (t : ℕ)
      → l.max_tier < fuel + att.tier
      → (climb fuel l att is_blocked age).1 ≡ exhausted
      → att.tier ≤ t
      → t ≤ l.max_tier
      → round l (at_tier att t) is_blocked age ≡ none
  unfolding climb
  climb_exhausted zero att t h e lo hi = absurd (omega arith)
  climb_exhausted (suc fuel) att t h e lo hi = elim (Option-cases (round l att is_blocked age)) [
    | inr (c, r) ↦ absurd (answered_exhausted att (r ∙ ap some (ground (arith, e, r))))
    | inl r ↦ elim (dec_lt att.tier t) [
      | no here ↦ subst (λ k. round l (at_tier att k) is_blocked age ≡ none) (omega arith) r
      | yes above ↦
          climb_exhausted fuel (escalated att) t (omega arith) (ground (arith, e, r)) (omega arith)
            hi
    ]
  ]

-- Whether a group has failed does not depend on the tier that the attempt has reached.
pub is_group_failed_tier :
    (l : Ladder) (a b : SegmentAttempt) (s : ServerDef)
    → a.failed ≡ b.failed
    → is_group_failed l a s ≡ is_group_failed l b s
unfolding is_group_failed
is_group_failed_tier l a b s e = rw e refl

module _ (defs : List ServerDef) (att : SegmentAttempt) (is_blocked : ℕ → Bool)
    (age : Option ℕ) where
  exhausted-no-Hope :
      (current_candidates (new_ladder defs) att is_blocked age).1 ≡ exhausted
      → ¬ Hope (new_ladder defs) att is_blocked age
  unfolding current_candidates new_ladder round
  exhausted-no-Hope e w =
      let v = w.serves in
      let top = top_tier_bound defs w.server v.listed v.active in
      let r =
        climb_exhausted (new_ladder defs) is_blocked age _ att w.tier (omega arith) e w.not_before
          (omega arith) in
      let k =
        offer-none _ is_blocked r w.server
          (Serves-candidate _ (at_tier att w.tier) age w.server v) in
      elim w.worthwhile [ inl b ↦ cc (sym k.0 ∙ b) | inr f ↦ cc (sym k.1 ∙ f) ]

  Hope-of :
      (s : ServerDef)
      → Serves (new_ladder defs) (current_candidates (new_ladder defs) att is_blocked age).0 age s
      → (is_blocked s.id ≡ false) ⊎ (s.fill ≡ false)
      → Hope (new_ladder defs) att is_blocked age
  unfolding current_candidates
  Hope-of s v w =
      let k =
        climb_keeps (new_ladder defs) is_blocked age (suc ((new_ladder defs).max_tier - att.tier))
          att in
      record {
        tier = (current_candidates (new_ladder defs) att is_blocked age).0.tier;
        not_before = k.3;
        server = s;
        serves = record {
          listed = v.listed;
          active = v.active;
          at_tier = v.at_tier;
          group_alive = is_group_failed_tier _ _ _ s (sym k.0) ∙ v.group_alive;
          retained = v.retained;
        };
        worthwhile = w;
      }

  -- For a ladder made from the configured servers, `current_candidates` answers `exhausted` exactly
  -- when, from the attempt's tier upwards, no active server whose group has not failed for this
  -- article and which retains it is unblocked or is a main (not a fill) server.
  pub exhausted_exactly :
      ((current_candidates (new_ladder defs) att is_blocked age).1 ≡ exhausted)
      ↔ (¬ Hope (new_ladder defs) att is_blocked age)
  exhausted_exactly = (exhausted-no-Hope, λ n. go _ refl n)
    where
      go :
          (c : Candidates)
          → (current_candidates (new_ladder defs) att is_blocked age).1 ≡ c
          → ¬ Hope (new_ladder defs) att is_blocked age
          → c ≡ exhausted
      go exhausted e n = refl
      go wait_for_blocked e n =
          let r = (waits_for_main (new_ladder defs) att is_blocked age e).0 in
          absurd (n (Hope-of r.0 r.1 (inr r.2)))
      go (servers []) e n =
          absurd ((offered_exactly (new_ladder defs) att is_blocked age [] 0 e).0 refl)
      go (servers (i ∷ ids)) e n =
          let r =
            (offered_exactly (new_ladder defs) att is_blocked age (i ∷ ids) i e).1.0 (inl refl) in
          let b = subst (λ j. is_blocked j ≡ false) (sym r.2) r.3 in
          absurd (n (Hope-of r.0 r.1 (inl b)))
