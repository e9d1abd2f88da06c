-- ===== src/Engine/Queue/Attempts.antt =====
-- crates/nzbd-engine/src/queue.rs: a scan leaves the attempts what they were, but for their tiers.
use nzbd.Prelude.{
  none, some, ℕ, ◌≤◌, ◌≡◌, refl, sym, ◌∙◌, inl, inr, subst, true, false, List, [], ◌∷◌, Option,
  arith, Bool, Bool-cases, if◌then◌else◌,
}
use nzbd.Types.Job.{JobId, FileId, ServerId, FileEntry, Segment, is_pending}
use nzbd.Engine.Failover.{
  Ladder, SegmentAttempt, Candidates, servers, wait_for_blocked, exhausted, new_attempt,
  current_candidates,
}
use nzbd.Engine.Failover.Offers.{climb_keeps}
use nzbd.Engine.Queue.Scan.{
  SegRef, same_ref, Attempts, attempt_of, put_attempt, SelectionCtx, Scan, answered, try_segment,
  unless_leased, scan_segments, scan_files, skips_file, age_days,
}

-- An attempt that has gone on from another by no outcome.
pub record Resumes (a b : SegmentAttempt) : Type 0 where
  pub failed : b.failed ≡ a.failed
  pub left : b.retries_left ≡ a.retries_left
  pub initial : b.initial_retries ≡ a.initial_retries
  pub tier : a.tier ≤ b.tier

-- The attempts of a scan resume those that it was given.
abbrev pub Kept : SelectionCtx → Attempts → Scan → Type 0
Kept ctx init sc =
    (r : SegRef)
    → Resumes (attempt_of r (new_attempt ctx.article_retries) init)
        (attempt_of r (new_attempt ctx.article_retries) sc.attempts)

same_ref-eq : (a b : SegRef) → same_ref a b ≡ true → a ≡ b
same_ref-eq a b h = ground (arith, h)

attempt_of-put :
    (r : SegRef) (fresh a : SegmentAttempt) (m : Attempts)
    → attempt_of r fresh (put_attempt r a m) ≡ a
unfolding attempt_of put_attempt
attempt_of-put r fresh a [] = ground arith
attempt_of-put r fresh a ((x, b) ∷ m) = elim (Bool-cases (same_ref x r)) [
  | inl t ↦ rw t (rw t refl)
  | inr f ↦ rw f (rw f (attempt_of-put r fresh a m))
]

attempt_of-put_other :
    (r k : SegRef) (fresh a : SegmentAttempt) (m : Attempts)
    → same_ref r k ≡ false
    → attempt_of k fresh (put_attempt r a m) ≡ attempt_of k fresh m
unfolding attempt_of put_attempt
attempt_of-put_other r k fresh a [] h = rw h refl
attempt_of-put_other r k fresh a ((x, b) ∷ m) h = elim (Bool-cases (same_ref x r)) [
  | inl t ↦
      let e = same_ref-eq x r t in
      let g : same_ref x k ≡ false = subst (λ y. same_ref y k ≡ false) (sym e) h in rw t (rw g refl)
  | inr f ↦ rw f (elim (Bool-cases (same_ref x k)) [
    | inl u ↦ rw u refl
    | inr u ↦ rw u (attempt_of-put_other r k fresh a m h)
  ])
]

pub current_candidates-Resumes :
    (l : Ladder) (att : SegmentAttempt) (is_blocked : ServerId → Bool) (age : Option ℕ)
    → Resumes att (current_candidates l att is_blocked age).0
unfolding current_candidates
current_candidates-Resumes l att is_blocked age =
    let k = climb_keeps l is_blocked age _ att in
    record { failed = k.0; left = k.1; initial = k.2; tier = k.3 }

Resumes-trans : (a b c : SegmentAttempt) → Resumes a b → Resumes b c → Resumes a c
Resumes-trans a b c p q = record {
  failed = q.failed ∙ p.failed;
  left = q.left ∙ p.left;
  initial = q.initial ∙ p.initial;
  tier = omega (arith, p.tier, q.tier);
}

pub Resumes-refl : (a : SegmentAttempt) → Resumes a a
Resumes-refl a = record { failed = refl; left = refl; initial = refl; tier = omega arith }

module _ (ctx : SelectionCtx) (server : ServerId) (init : Attempts) where
  put-Kept :
      (r : SegRef) (a : SegmentAttempt) (sc : Scan)
      → Kept ctx init sc
      → Resumes (attempt_of r (new_attempt ctx.article_retries) sc.attempts) a
      → Kept ctx init (record sc { attempts = put_attempt r a sc.attempts })
  put-Kept r a sc h p k =
      let fresh = new_attempt ctx.article_retries in
      elim (Bool-cases (same_ref r k)) [
        | inr f ↦
            subst (Resumes (attempt_of k fresh init))
              (sym (attempt_of-put_other r k fresh a sc.attempts f)) (h k)
        | inl t ↦
            subst
              (λ x.
                Resumes (attempt_of x fresh init)
                  (attempt_of x fresh (put_attempt r a sc.attempts)))
              (same_ref-eq r k t)
              (subst (Resumes (attempt_of r fresh init))
                (sym (attempt_of-put r fresh a sc.attempts))
                (Resumes-trans (attempt_of r fresh init) (attempt_of r fresh sc.attempts) a (h r)
                  p))
      ]

  answered-Kept :
      (r : SegRef) (c : Candidates) (sc : Scan)
      → Kept ctx init sc
      → Kept ctx init (answered server r c sc)
  answered-Kept r (servers ids) sc h = ground (arith, h)
  answered-Kept r wait_for_blocked sc h = h
  answered-Kept r exhausted sc h = h

  pub try_segment-Kept :
      (age : Option ℕ) (r : SegRef) (sc : Scan)
      → Kept ctx init sc
      → Kept ctx init (try_segment ctx server age r sc)
  unfolding try_segment
  try_segment-Kept age r sc h =
      let att = attempt_of r (new_attempt ctx.article_retries) sc.attempts in
      let q = current_candidates ctx.ladder att ctx.is_blocked age in
      answered-Kept r q.1 (record sc { attempts = put_attempt r q.0 sc.attempts })
        (put-Kept r q.0 sc h (current_candidates-Resumes ctx.ladder att ctx.is_blocked age))

  unless_leased-Kept :
      (sc later : Scan)
      → Kept ctx init sc
      → Kept ctx init later
      → Kept ctx init (unless_leased sc later)
  unless_leased-Kept sc later h k =
      elim sc.lease as (λ o. Kept ctx init (elim o [ some r ↦ sc | none ↦ later ])) [
        | none ↦ k
        | some r ↦ h
      ]

  pub scan_segments-Kept :
      (j : JobId) (f : FileId) (age : Option ℕ) (segs : List Segment) (sc : Scan)
      → Kept ctx init sc
      → Kept ctx init (scan_segments ctx server j f age segs sc)
  unfolding scan_segments
  scan_segments-Kept j f age [] sc h = h
  scan_segments-Kept j f age (s ∷ rest) sc h =
      let sc' =
        if is_pending s.state
        then try_segment ctx server age (record { job = j; file = f; seg_number = s.number }) sc
        else sc in
      let h' : Kept ctx init sc' =
        elim (is_pending s.state)
          as (λ b. Kept ctx init (
            if b
            then try_segment ctx server age (record { job = j; file = f; seg_number = s.number }) sc
            else sc)) [
              | true ↦
                  try_segment-Kept age (record { job = j; file = f; seg_number = s.number }) sc h
              | false ↦ h
            ] in
      unless_leased-Kept sc' (scan_segments ctx server j f age rest sc') h'
        (scan_segments-Kept j f age rest sc' h')

  pub scan_files-Kept :
      (j : JobId) (files : List FileEntry) (sc : Scan)
      → Kept ctx init sc
      → Kept ctx init (scan_files ctx server j files sc)
  unfolding scan_files
  scan_files-Kept j [] sc h = h
  scan_files-Kept j (f ∷ rest) sc h =
      let seen = scan_segments ctx server j f.id (age_days ctx.now_unix f.date) f.segments sc in
      let sc' = if skips_file ctx j f then sc else seen in
      let h' : Kept ctx init sc' =
        elim (skips_file ctx j f) as (λ b. Kept ctx init (if b then sc else seen)) [
          | true ↦ h
          | false ↦ scan_segments-Kept j f.id (age_days ctx.now_unix f.date) f.segments sc h
        ] in
      unless_leased-Kept sc' (scan_files ctx server j rest sc') h' (scan_files-Kept j rest sc' h')
