-- ===== src/Engine/Queue/Active.antt =====
-- crates/nzbd-engine/src/queue.rs: which jobs make up the active set.
use nzbd.Prelude.{
  ℕ, zero, suc, ◌≤◌, ◌≡◌, ◌⊎◌, inl, inr, sym, subst, Bool, true, false, List, [], ◌∷◌, arith, In,
  All-of_In, length, take, select-In, In-select,
}
use nzbd.Prelude.Int.{ℤ}
use nzbd.Prelude.Sort.{
  stable_sort-In, In-stable_sort, Sorted, stable_sort-Sorted, take-In, length-take-le,
}
use nzbd.Types.Job.{JobId, Job}
use nzbd.Engine.Queue.Eligible.{
  MayDownload, is_eligible-MayDownload, MayDownload-is_eligible, NoLater, ranks_before-NoLater,
}
use nzbd.Engine.Queue.{
  QueueState, PostFetch, clamp_active_downloads, is_eligible, ranks_before, active_jobs,
}

ranks_before_trans :
    (now : ℤ) (a b c : Job)
    → ranks_before now a b ≡ true
    → ranks_before now b c ≡ true
    → ranks_before now a c ≡ true
unfolding ranks_before
ranks_before_trans now a b c h k = ground arith

ranks_before_total :
    (now : ℤ) (a b : Job) → ranks_before now a b ≡ false → ranks_before now b a ≡ true
unfolding ranks_before
ranks_before_total now a b h = ground arith

module _ {A : Type 0} (before : A → A → Bool) where
  -- In a sorted list, what a cut leaves out comes after what it keeps.
  cut_off :
      (n : ℕ) (xs : List A) (a b : A)
      → Sorted before xs
      → In a (take n xs)
      → In b xs
      → In b (take n xs) ⊎ (before a b ≡ true)
  cut_off zero xs a b s m k = elim m [ ]
  cut_off (suc n) [] a b s m k = elim m [ ]
  cut_off (suc n) (x ∷ xs) a b s m (inl e) = inl (inl e)
  cut_off (suc n) (x ∷ xs) a b s (inl e) (inr k) =
      inr (subst (λ z. before z b ≡ true) (sym e) (All-of_In _ xs s.0 b k))
  cut_off (suc n) (x ∷ xs) a b s (inr m) (inr k) = elim (cut_off n xs a b s.1 m k) [
    | inl i ↦ inl (inr i)
    | inr t ↦ inr t
  ]

module _ (state : QueueState) (delegated : List JobId) (post_fetch_files : PostFetch)
    (regular_downloads soft_hold : Bool) (now : ℤ) where
  -- An active job is a job of the queue and passes every filter.
  pub active_jobs-eligible :
      (j : Job)
      → In j (active_jobs state delegated post_fetch_files regular_downloads soft_hold now)
      → In j state.jobs
        × (is_eligible state delegated post_fetch_files regular_downloads soft_hold now j ≡ true)
  unfolding active_jobs
  active_jobs-eligible j m =
      select-In _ state.jobs j (stable_sort-In (ranks_before now) _ j (take-In _ _ j m))

  -- The active set holds no more jobs than configured, clamped, and so at most 100; each of its jobs
  -- runs on this node or is fetched for a repair, is schedulable and has work to hand out; and a job of
  -- the queue of which that is true and which is left out ranks no earlier than any active one: it is a
  -- stalled retry and the other is not, or both are or neither is, and its priority is no higher.
  pub active_set_best :
      (a j : Job)
      → In a (active_jobs state delegated post_fetch_files regular_downloads soft_hold now)
      → In j state.jobs
      → MayDownload state delegated post_fetch_files regular_downloads soft_hold now j
      → (length (active_jobs state delegated post_fetch_files regular_downloads soft_hold now)
          ≤ clamp_active_downloads state.max_active_downloads)
        × (clamp_active_downloads state.max_active_downloads ≤ 100)
        × MayDownload state delegated post_fetch_files regular_downloads soft_hold now a
        × (In j (active_jobs state delegated post_fetch_files regular_downloads soft_hold now)
            ⊎ NoLater now a j)
  unfolding active_jobs clamp_active_downloads
  active_set_best a j m k may =
      let e =
        MayDownload-is_eligible state delegated post_fetch_files regular_downloads soft_hold now j
          may in
      (
        length-take-le _ _,
        omega arith,
        is_eligible-MayDownload state delegated post_fetch_files regular_downloads soft_hold now a
            (active_jobs-eligible a m).1,
        elim (cut_off (ranks_before now) _ _ a j
            (stable_sort-Sorted (ranks_before now) (ranks_before_trans now) (ranks_before_total now)
              _)
            m (In-stable_sort (ranks_before now) _ j (In-select _ state.jobs j k e))) [
              | inl q ↦ inl q
              | inr q ↦ inr (ranks_before-NoLater now a j q)
            ],
      )
