-- ===== src/Engine/Owner/Refetch.antt =====
-- crates/nzbd-engine/src/owner.rs: which of the fetches found after a restart start again.
mod Scenarios
use nzbd.Prelude.{
  ℕ, ◌≡◌, refl, sym, ◌∙◌, ap, subst, inl, inr, ◌⊎◌, Bool, true, false, List, [], ◌∷◌, ◌++◌, Option,
  none, some, arith, All, In, In-append, In-append_left, In-append_right, Bool-cases, Option-cases,
  bytes_eq, bytes_eq-eq, bytes_eq_refl, bytes_eq_comm, if◌then◌else◌,
}
use nzbd.Types.Torrent.{Text}
use nzbd.Types.Job.{JobId}

-- `first_for_url`.
abbrev pub job_for : Text → List (Text × JobId) → Option JobId
job_for url [] = none
job_for url ((u, j) ∷ m) = let rest = job_for url m in if bytes_eq u url then some j else rest

-- The loop of `plan_url_refetches`, with its three collections.
unfoldable pub plan_from :
    List (Text × JobId)
    → List (JobId × Text)
    → List (JobId × JobId)
    → List (JobId × Text)
    → List (JobId × Text) × List (JobId × JobId)
plan_from first refetch duplicates [] = (refetch, duplicates)
plan_from first refetch duplicates ((j, url) ∷ rest) =
    let new = plan_from ((url, j) ∷ first) (refetch ++ (j, url) ∷ []) duplicates rest in
    elim (job_for url first) [
      | none ↦ new
      | some original ↦ plan_from first refetch (duplicates ++ (j, original) ∷ []) rest
    ]

abbrev pub plan_url_refetches : List (JobId × Text) → List (JobId × Text) × List (JobId × JobId)
plan_url_refetches pending = plan_from [] [] [] pending

-- A fetch starts again, or another one of the same address does, of which it is a duplicate.
abbrev pub Planned : List (JobId × Text) × List (JobId × JobId) → JobId × Text → Type 0
Planned plan e =
    In e plan.0 ⊎ ((original : JobId) × In (e.0, original) plan.1 × In (original, e.1) plan.0)

-- No address twice.
abbrev pub OncePerUrl : List (JobId × Text) → Type 0
OncePerUrl [] = Unit
OncePerUrl (e ∷ l) = All (λ (d : JobId × Text). bytes_eq d.1 e.1 ≡ false) l × OncePerUrl l

-- What the map of addresses knows of the fetches planned so far.
record Agrees (first : List (Text × JobId)) (refetch : List (JobId × Text)) : Type 0 where
  known : (u : Text) (o : JobId) → job_for u first ≡ some o → In (o, u) refetch
  unknown :
      (u : Text)
      → job_for u first ≡ none
      → All (λ (d : JobId × Text). bytes_eq d.1 u ≡ false) refetch

All-append :
    {A : Type 0} (P : A → Type 0) (xs : List A) (a : A) → All P xs → P a → All P (xs ++ a ∷ [])
All-append P [] a h p = (p, tt)
All-append P (x ∷ xs) a h p = (h.0, All-append P xs a h.1 p)

append-OncePerUrl :
    (l : List (JobId × Text)) (e : JobId × Text)
    → OncePerUrl l
    → All (λ (d : JobId × Text). bytes_eq d.1 e.1 ≡ false) l
    → OncePerUrl (l ++ e ∷ [])
append-OncePerUrl [] e h k = (tt, tt)
append-OncePerUrl (d ∷ l) e h k =
    (All-append _ l e h.0 (bytes_eq_comm e.1 d.1 ∙ k.0), append-OncePerUrl l e h.1 k.1)

append-Agrees :
    (first : List (Text × JobId)) (refetch : List (JobId × Text)) (j : JobId) (url : Text)
    → Agrees first refetch
    → Agrees ((url, j) ∷ first) (refetch ++ (j, url) ∷ [])
append-Agrees first refetch j url h = record {
  known = λ u o e. elim (Bool-cases (bytes_eq url u)) [
    | inl t ↦
        let e' : some j ≡ some o = rw t at e in
        let same : url ≡ u = bytes_eq-eq url u t in
        In-append_right refetch ((j, url) ∷ []) (o, u) (inl (ground (arith, e', same)))
    | inr f ↦ In-append_left refetch ((j, url) ∷ []) (o, u) (h.known u o (rw f at e))
  ];
  unknown = λ u e. elim (Bool-cases (bytes_eq url u)) [
    | inl t ↦ let e' : some j ≡ none = rw t at e in absurd (ground (arith, e'))
    | inr f ↦
        All-append (λ (d : JobId × Text). bytes_eq d.1 u ≡ false) refetch (j, url)
          (h.unknown u (rw f at e)) f
  ];
}

-- What the rest of the loop makes of the collections.
record Rest (refetch : List (JobId × Text)) (duplicates : List (JobId × JobId))
    (pending : List (JobId × Text)) (plan : List (JobId × Text) × List (JobId × JobId))
    : Type 0 where
  planned : All (Planned plan) pending
  once : OncePerUrl plan.0
  kept : (e : JobId × Text) → In e refetch → In e plan.0
  kept_duplicates : (d : JobId × JobId) → In d duplicates → In d plan.1
  from_pending : (e : JobId × Text) → In e plan.0 → In e refetch ⊎ In e pending

plan_from-Rest :
    (first : List (Text × JobId)) (refetch : List (JobId × Text))
    (duplicates : List (JobId × JobId)) (pending : List (JobId × Text))
    → Agrees first refetch
    → OncePerUrl refetch
    → Rest refetch duplicates pending (plan_from first refetch duplicates pending)
unfolding plan_from
plan_from-Rest first refetch duplicates [] h o = record {
  planned = tt;
  once = o;
  kept = λ e m. m;
  kept_duplicates = λ d m. m;
  from_pending = λ e m. inl m;
}
plan_from-Rest first refetch duplicates ((j, url) ∷ rest) h o =
    elim (Option-cases (job_for url first)) [
      | inl n ↦
          let r =
            plan_from-Rest ((url, j) ∷ first) (refetch ++ (j, url) ∷ []) duplicates rest
              (append-Agrees first refetch j url h)
              (append-OncePerUrl refetch (j, url) o (h.unknown url n)) in
          rw (n, plan_from)
            (record {
              planned = (
                inl (r.kept (j, url) (In-append_right refetch ((j, url) ∷ []) (j, url) (inl refl))),
                r.planned,
              );
              once = r.once;
              kept = λ e m. r.kept e (In-append_left refetch ((j, url) ∷ []) e m);
              kept_duplicates = r.kept_duplicates;
              from_pending = λ e m. moved e (r.from_pending e m);
            })
      | inr (original, n) ↦
          let r = plan_from-Rest first refetch (duplicates ++ (j, original) ∷ []) rest h o in
          rw (n, plan_from)
            (record {
              planned = (
                inr (
                  original,
                  r.kept_duplicates (j, original)
                      (In-append_right duplicates ((j, original) ∷ []) (j, original) (inl refl)),
                  r.kept (original, url) (h.known url original n),
                ),
                r.planned,
              );
              once = r.once;
              kept = r.kept;
              kept_duplicates =
                  λ d m. r.kept_duplicates d (In-append_left duplicates ((j, original) ∷ []) d m);
              from_pending = λ e m. later e (r.from_pending e m);
            })
    ]
  where
    moved :
        (e : JobId × Text)
        → In e (refetch ++ (j, url) ∷ []) ⊎ In e rest
        → In e refetch ⊎ In e ((j, url) ∷ rest)
    moved e (inr m) = inr (inr m)
    moved e (inl m) = elim (In-append refetch ((j, url) ∷ []) e m) [
      | inl k ↦ inl k
      | inr k ↦ inr (elim k [ inl same ↦ inl same | inr none_left ↦ absurd none_left ])
    ]

    later : (e : JobId × Text) → In e refetch ⊎ In e rest → In e refetch ⊎ In e ((j, url) ∷ rest)
    later e (inl m) = inl m
    later e (inr m) = inr (inr m)

-- After a restart every URL job that was being fetched is accounted for: it is fetched again, or it
-- is a duplicate of a job with the same address that is. No address is fetched twice, and only such
-- jobs are fetched.
pub no_fetch_forgotten :
    (pending : List (JobId × Text))
    → All (Planned (plan_url_refetches pending)) pending
      × OncePerUrl (plan_url_refetches pending).0
      × ((e : JobId × Text) → In e (plan_url_refetches pending).0 → In e pending)
no_fetch_forgotten pending =
    let r =
      plan_from-Rest [] [] [] pending
        (record { known = λ u o e. absurd (nothing u o e); unknown = λ u e. tt }) tt in
    (r.planned, r.once, λ e m. elim (r.from_pending e m) [ inl k ↦ absurd k | inr k ↦ k ])
  where
    nothing : (u : Text) (o : JobId) → none ≡ some o → ⊥
    nothing u o e = absurd (ground (arith, e))
