-- ===== src/Engine/Pool/Depth.antt =====
-- crates/nzbd-engine/src/pool.rs: the depth stays in its bounds, and regains its ceiling.
use nzbd.Prelude.{
  ℕ, zero, suc, ◌+◌, ◌-◌, ◌*◌, ◌≤◌, ◌<◌, ◌≡◌, ◌⊎◌, inl, inr, refl, max, ◌∙◌, Bool-cases, leb, ltb,
  true, List, [], ◌∷◌, arith,
}
use native.Mathlib.Nat.{mul-le-mul_left}
use nzbd.Engine.Pool.{
  AdaptiveDepth, new_depth, get, on_success, on_error, DepthEvent, completed, broke, on_event,
  on_events,
}

-- Between 1 and the ceiling; and below it, short of the run of articles that would deepen it.
pub record InBounds (d : AdaptiveDepth) : Type 0 where
  pub floor : 1 ≤ d.cur
  pub ceiling : d.cur ≤ d.top
  pub short : (d.cur ≡ d.top) ⊎ (d.ok_run < d.cur * 4)

new_depth-InBounds : (n : ℕ) → InBounds (new_depth n)
unfolding new_depth
new_depth-InBounds n = record {
  floor = omega arith;
  ceiling = omega arith;
  short = inr (omega arith);
}

-- One batch may carry more articles than the run needs; then the rest of them is dropped with the run.
on_event-InBounds : (e : DepthEvent) (d : AdaptiveDepth) → InBounds d → InBounds (on_event e d)
unfolding on_event on_success on_error
on_event-InBounds (completed n) d h = ground (arith, h.floor, h.ceiling, h.short)
on_event-InBounds broke d h = record {
  floor = let a = h.floor in omega arith;
  ceiling = let a = h.floor in let b = h.ceiling in omega arith;
  short = inr (omega arith);
}

on_event-top : (e : DepthEvent) (d : AdaptiveDepth) → (on_event e d).top ≡ d.top
unfolding on_event on_success on_error
on_event-top (completed n) d = ground arith
on_event-top broke d = refl

on_events-InBounds :
    (es : List DepthEvent) (d : AdaptiveDepth)
    → InBounds d
    → InBounds (on_events es d) × ((on_events es d).top ≡ d.top)
unfolding on_events
on_events-InBounds [] d h = (h, refl)
on_events-InBounds (e ∷ es) d h =
    let r = on_events-InBounds es (on_event e d) (on_event-InBounds e d h) in
    let t = on_event-top e d in (r.0, omega (arith, r.1))

new_depth-top : (n : ℕ) → (new_depth n).top ≡ max n 1
unfolding new_depth
new_depth-top n = refl

-- Whatever completes or breaks, in whatever order, the depth of a new controller stays between 1 and
-- the configured depth, or 1 if that is 0.
depth_in_bounds :
    (n : ℕ) (es : List DepthEvent)
    → (1 ≤ get (on_events es (new_depth n))) × (get (on_events es (new_depth n)) ≤ max n 1)
depth_in_bounds n es =
    let r = on_events-InBounds es (new_depth n) (new_depth-InBounds n) in
    let a = r.0.floor in let b = r.0.ceiling in let c = new_depth-top n in omega (arith, r.1)

-- Articles that complete one by one.
pub articles : ℕ → List DepthEvent
articles zero = []
articles (suc m) = completed 1 ∷ articles m

-- The articles that it takes to climb `k` levels from depth `c`: four times the depth at each.
need : ℕ → ℕ → ℕ
need zero c = 0
need (suc k) c = 4 * c + need k (c + 1)

need-le : (k c t : ℕ) → c + k ≤ t → need k c ≤ 4 * t * k
unfolding need
need-le zero c t h = omega arith
need-le (suc k) c t h =
    let r = need-le k (c + 1) t (omega arith) in
    let e : 4 * t * suc k ≡ 4 * t * k + 4 * t = grind arith in omega (arith, r, e)

deepens :
    (d : AdaptiveDepth)
    → d.cur < d.top
    → leb (d.cur * 4) (d.ok_run + 1) ≡ true
    → on_event (completed 1) d ≡ record d { cur = d.cur + 1; ok_run = 0 }
unfolding on_event on_success
deepens d h t = let l : ltb d.cur d.top ≡ true = ground arith in rw l (rw t refl)

-- One article is one article less to go.
one_article :
    (k m : ℕ) (d : AdaptiveDepth)
    → InBounds d
    → d.cur + k ≡ d.top
    → need k d.cur ≤ d.ok_run + suc m
    → let d' = on_event (completed 1) d in
      (k' : ℕ) × (d'.cur + k' ≡ d'.top) × (need k' d'.cur ≤ d'.ok_run + m)
unfolding need on_event on_success
one_article zero m d b e h = (0, ground arith, ground arith)
one_article (suc k) m d b e h = elim (Bool-cases (leb (d.cur * 4) (d.ok_run + 1))) [
  | inl t ↦ (k, ground (arith, t), rw (deepens d (omega arith) t) (ground (arith, t, b.short)))
  | inr f ↦ (suc k, ground (arith, f), ground (arith, f))
]

climbs :
    (m k : ℕ) (d : AdaptiveDepth)
    → InBounds d
    → d.cur + k ≡ d.top
    → need k d.cur ≤ d.ok_run + m
    → get (on_events (articles m) d) ≡ d.top
unfolding need articles on_events
climbs zero zero d b e h = omega arith
climbs zero (suc k) d b e h = absurd (ground (arith, b.short))
climbs (suc m) k d b e h =
    let d' = on_event (completed 1) d in
    let q = one_article k m d b e h in
    climbs m q.0 d' (on_event-InBounds (completed 1) d b) q.1 q.2 ∙ on_event-top (completed 1) d

-- A connection that stops breaking regains its full depth: whatever happened to a new controller, after
-- that many further articles, one by one, as four times the square of the ceiling, it is at the
-- ceiling.
pub regains_ceiling :
    (n : ℕ) (es : List DepthEvent)
    → get (on_events (articles (4 * max n 1 * max n 1)) (on_events es (new_depth n))) ≡ max n 1
regains_ceiling n es =
    let d = on_events es (new_depth n) in
    let r = on_events-InBounds es (new_depth n) (new_depth-InBounds n) in
    let a = r.0.floor in
    let b = r.0.ceiling in
    let t : d.top ≡ max n 1 = r.1 ∙ new_depth-top n in
    let k = max n 1 - d.cur in
    let q = need-le k d.cur (max n 1) (omega arith) in
    let w : 4 * max n 1 * k ≤ 4 * max n 1 * max n 1 = mul-le-mul_left (4 * max n 1) (omega arith) in
    climbs _ k d r.0 (omega arith) (omega arith) ∙ t
