-- ===== src/Engine/Owner/Refetch/Scenarios.antt =====
-- Three fetches after a restart, two of them of one address.
use nzbd.Prelude.{◌≡◌, refl, List, [], ◌∷◌, All, In, bytes_eq}
use nzbd.Types.Torrent.{Text}
use nzbd.Types.Job.{JobId}
use nzbd.Engine.Owner.Refetch.{
  plan_from, plan_url_refetches, Planned, OncePerUrl, no_fetch_forgotten,
}

abbrev fetching : List (JobId × Text)
fetching = (1, 97 ∷ []) ∷ (2, 97 ∷ []) ∷ (3, 98 ∷ []) ∷ []

no_fetch_forgotten_example :
    All (Planned (plan_url_refetches fetching)) fetching
    × OncePerUrl (plan_url_refetches fetching).0
    × ((e : JobId × Text) → In e (plan_url_refetches fetching).0 → In e fetching)
no_fetch_forgotten_example = no_fetch_forgotten fetching

fetch_plan : plan_url_refetches fetching ≡ ((1, 97 ∷ []) ∷ (3, 98 ∷ []) ∷ [], (2, 1) ∷ [])
unfolding plan_from bytes_eq
fetch_plan = refl
