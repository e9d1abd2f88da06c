-- ===== src/Engine/Owner/Moves.antt =====
-- crates/nzbd-engine/src/owner.rs: a job moves in the queue.
mod Scenarios
use nzbd.Prelude.{
  ℕ, zero, suc, ◌+◌, ◌-◌, ◌≤◌, ◌<◌, min, ◌≡◌, refl, sym, ◌∙◌, ap, inl, inr, Bool, true, false, List,
  [], ◌∷◌, Option, none, some, arith, Bool-cases, Option-cases, if◌then◌else◌, ◌==◌, length,
  get_elem?,
}
use nzbd.Types.Job.{JobId, Job}
use nzbd.Engine.Queue.{QueueState}
use nzbd.Engine.Owner.{Owner, on_state, bump_epoch, publish_now}

pub data MoveOp : Type 0 where
  top up down bottom : MoveOp

-- `iter().position(..)`, `Vec::remove` and `Vec::insert`.
unfoldable pub position : JobId → List Job → Option ℕ
position id [] = none
position id (j ∷ l) =
    let later : Option ℕ = elim (position id l) [ none ↦ none | some i ↦ some (suc i) ] in
    if j.id == id then some zero else later

abbrev pub remove_at : ℕ → List Job → List Job
remove_at i [] = []
remove_at zero (j ∷ l) = l
remove_at (suc i) (j ∷ l) = j ∷ remove_at i l

abbrev pub insert_at : ℕ → Job → List Job → List Job
insert_at zero j l = j ∷ l
insert_at (suc i) j [] = j ∷ []
insert_at (suc i) j (k ∷ l) = k ∷ insert_at i j l

unfoldable pub target : MoveOp → ℕ → ℕ → ℕ
target top idx last = 0
target up idx last = idx - 1
target down idx last = min (idx + 1) last
target bottom idx last = last

abbrev pub moved : ℕ → ℕ → QueueState → QueueState
moved idx to q = elim (get_elem? q.jobs idx) [
  | none ↦ q
  | some j ↦ record q { jobs = insert_at to j (remove_at idx q.jobs) }
]

-- The answer is whether the job is in the queue.
unfoldable pub move_job : JobId → MoveOp → Owner → Owner × Bool
unfolding position target
move_job id op o = elim (position id o.state.jobs) [
  | none ↦ (o, false)
  | some idx ↦
      let to = target op idx (length o.state.jobs - 1) in
      let o' = publish_now (bump_epoch (record (on_state (moved idx to) o) { dirty = true })) in
      (if to == idx then o else o', true)
]

-- The place that is found holds the job.
record Place (id : JobId) (l : List Job) (i : ℕ) : Type 0 where
  job : Job
  at : get_elem? l i ≡ some job
  named : job.id ≡ id
  within : i < length l

position-Place : (id : JobId) (l : List Job) (i : ℕ) → position id l ≡ some i → Place id l i
unfolding position
position-Place id [] i e = absurd (ground (arith, e))
position-Place id (j ∷ l) i e = elim (Bool-cases (j.id == id)) [
  | inl t ↦
      let e' : some zero ≡ some i = rw t at e in
      from_zero i (ground (arith, e')) (ground (arith, t))
  | inr f ↦ elim (Option-cases (position id l)) [
    | inl n ↦ let e' : none ≡ some i = rw n at (rw f at e) in absurd (ground (arith, e'))
    | inr (k, n) ↦
        let e' : some (suc k) ≡ some i = rw n at (rw f at e) in
        from_suc k i (ground (arith, e')) (position-Place id l k n)
  ]
]
  where
    from_zero : (i : ℕ) → zero ≡ i → j.id ≡ id → Place id (j ∷ l) i
    from_zero zero q n = record { job = j; at = refl; named = n; within = omega arith }
    from_zero (suc i) q n = absurd (omega (arith, q))

    from_suc : (k i : ℕ) → suc k ≡ i → Place id l k → Place id (j ∷ l) i
    from_suc k zero q p = absurd (omega (arith, q))
    from_suc k (suc i) q p = record {
      job = p.job;
      at = ap (get_elem? l) (omega (arith, q)) ∙ p.at;
      named = p.named;
      within = omega (arith, q, p.within);
    }

length-remove_at : (i : ℕ) (l : List Job) → i < length l → length (remove_at i l) + 1 ≡ length l
length-remove_at i [] h = absurd (omega (arith, h))
length-remove_at zero (j ∷ l) h = omega arith
length-remove_at (suc i) (j ∷ l) h = omega (arith, length-remove_at i l (omega (arith, h)))

remove-insert :
    (i : ℕ) (j : Job) (l : List Job)
    → i ≤ length l
    → (remove_at i (insert_at i j l) ≡ l) × (get_elem? (insert_at i j l) i ≡ some j)
remove-insert zero j l h = (refl, refl)
remove-insert (suc i) j [] h = absurd (omega (arith, h))
remove-insert (suc i) j (k ∷ l) h =
    let r = remove-insert i j l (omega (arith, h)) in (ap (λ m. k ∷ m) r.0, r.1)

target-le : (op : MoveOp) (idx last : ℕ) → idx ≤ last → target op idx last ≤ last
unfolding target
target-le top idx last h = omega arith
target-le up idx last h = omega (arith, h)
target-le down idx last h = omega (arith, h)
target-le bottom idx last h = omega arith

moved-found :
    (idx to : ℕ) (q : QueueState) (j : Job)
    → get_elem? q.jobs idx ≡ some j
    → (moved idx to q).jobs ≡ insert_at to j (remove_at idx q.jobs)
moved-found idx to q j e = rw (e, moved) refl

-- A job that moves ends up where it was asked to, and nothing else changes its place: after the move
-- the job stands at its target, and without it the queue is the old one without it.
move_keeps_the_rest :
    (id : JobId) (op : MoveOp) (o : Owner) (idx : ℕ)
    → position id o.state.jobs ≡ some idx
    → let q = (move_job id op o).0.state.jobs in
      let to = target op idx (length o.state.jobs - 1) in
      ((j : Job) × (get_elem? q to ≡ some j) × (j.id ≡ id))
      × (remove_at to q ≡ remove_at idx o.state.jobs)
unfolding move_job
move_keeps_the_rest id op o idx e =
    let p = position-Place id o.state.jobs idx e in
    let to = target op idx (length o.state.jobs - 1) in
    let le = target-le op idx (length o.state.jobs - 1) (omega (arith, p.within)) in
    let r =
      remove-insert to p.job (remove_at idx o.state.jobs)
        (omega (arith, le, length-remove_at idx o.state.jobs p.within)) in
    elim (Bool-cases (to == idx)) [
      | inl t ↦
          let same : to ≡ idx = ground (arith, t) in
          rw (e, move_job) (rw t (rw same ((p.job, p.at, p.named), refl)))
      | inr f ↦
          rw (e, move_job)
            (rw f (rw (moved-found idx to o.state p.job p.at) ((p.job, r.1, p.named), r.0)))
    ]
