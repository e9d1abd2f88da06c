-- ===== src/Cluster/Range/Split.antt =====
-- crates/nzbd-cluster/src/range.rs: the ranges of a job split its file's articles among them.
use nzbd.Prelude.{
  ℕ, zero, suc, ◌+◌, ◌-◌, ◌/◌, ◌%◌, ◌^◌, ◌≤◌, ◌<◌, ◌≡◌, inl, inr, refl, sym, subst, ap, ◌∙◌, Bool,
  true, false, List, [], ◌∷◌, ◌++◌, map, some, ◌==◌, if◌then◌else◌, arith, All, All-of_In,
  All-from_In, In, Bool-cases, find, select, length, take, drop, get_elem?, is_empty,
}
use mathlib.Core.List.{append-nil, append_assoc}
use nzbd.Types.Job.{Job, FileEntry, Segment}
use nzbd.Engine.Queue.Totals.{recompute_job_totals}
use nzbd.Cluster.Range.{
  RangeScope, chunks_on, chunks, last_number, scope_of, number_chunks, div_ceil, is_unpaused,
  scopes_of, scopes, is_split_candidate, in_scope, Outcome, viewed, refused, view_of, work_view,
}

-- Sorted by number and without repetitions, as a parsed file's articles are.
abbrev pub Increasing : List Segment → Type 0
Increasing [] = Unit
Increasing (s ∷ l) = All (λ (t : Segment). s.number < t.number) l × Increasing l

pub flattened : List (List Segment) → List Segment
flattened [] = []
flattened (c ∷ cs) = c ++ flattened cs

module _ {A : Type 0} (P : A → Type 0) where
  All-append : (xs ys : List A) → All P (xs ++ ys) → All P xs × All P ys
  All-append [] ys h = (tt, h)
  All-append (x ∷ xs) ys h = let r = All-append xs ys h.1 in ((h.0, r.0), r.1)

module _ {A : Type 0} where
  All-map : (P Q : A → Type 0) (xs : List A) → ((a : A) → P a → Q a) → All P xs → All Q xs
  All-map P Q [] f h = tt
  All-map P Q (x ∷ xs) f h = (f x h.0, All-map P Q xs f h.1)

  select-append : (p : A → Bool) (xs ys : List A) → select p (xs ++ ys) ≡ select p xs ++ select p ys
  select-append p [] ys = refl
  select-append p (x ∷ xs) ys = elim (Bool-cases (p x)) [
    | inl t ↦ rw t (ap (λ l. x ∷ l) (select-append p xs ys))
    | inr f ↦ rw f (select-append p xs ys)
  ]

  select_drops : (p : A → Bool) (xs : List A) → All (λ x. p x ≡ false) xs → select p xs ≡ []
  select_drops p [] h = refl
  select_drops p (x ∷ xs) h = let e = h.0 in rw e (select_drops p xs h.1)

  select_keeps : (p : A → Bool) (xs : List A) → All (λ x. p x ≡ true) xs → select p xs ≡ xs
  select_keeps p [] h = refl
  select_keeps p (x ∷ xs) h = let e = h.0 in rw e (ap (λ l. x ∷ l) (select_keeps p xs h.1))

  take-drop : (n : ℕ) (xs : List A) → take n xs ++ drop n xs ≡ xs
  take-drop zero xs = refl
  take-drop (suc n) [] = refl
  take-drop (suc n) (x ∷ xs) = ap (λ l. x ∷ l) (take-drop n xs)

  length-drop : (n : ℕ) (xs : List A) → length (drop n xs) ≡ length xs - n
  length-drop zero xs = omega arith
  length-drop (suc n) [] = omega arith
  length-drop (suc n) (x ∷ xs) = omega (arith, length-drop n xs)

  is_empty-eq-nil : (xs : List A) → is_empty xs ≡ true → xs ≡ []
  is_empty-eq-nil [] h = refl
  is_empty-eq-nil (x ∷ xs) h = absurd (ground arith)

Increasing-append :
    (xs ys : List Segment)
    → Increasing (xs ++ ys)
    → Increasing xs
      × Increasing ys
      × All (λ (x : Segment). All (λ (y : Segment). x.number < y.number) ys) xs
Increasing-append [] ys h = (tt, h, tt)
Increasing-append (x ∷ xs) ys h =
    let r = Increasing-append xs ys h.1 in
    let q = All-append _ xs ys h.0 in ((q.0, r.0), r.1, (q.1, r.2))

-- The numbers of an increasing list stand between the first and the last.
first_below : (s : Segment) (l : List Segment) → Increasing (s ∷ l) → s.number ≤ last_number (s ∷ l)
first_below s [] h = omega arith
first_below s (t ∷ l) h = let a = h.0.0 in omega (arith, a, first_below t l h.1)

below_last : (l : List Segment) → Increasing l → All (λ (t : Segment). t.number ≤ last_number l) l
below_last [] h = tt
below_last (s ∷ []) h = (omega arith, tt)
below_last (s ∷ t ∷ l) h = (first_below s (t ∷ l) h, below_last (t ∷ l) h.1)

last-In :
    (s : Segment) (l : List Segment)
    → (t : Segment) × In t (s ∷ l) × (t.number ≡ last_number (s ∷ l))
last-In s [] = (s, inl refl, refl)
last-In s (t ∷ l) = let r = last-In t l in (r.0, inr r.1, r.2)

-- A chunk's bounds keep, of the whole list, just the chunk.
kept_middle :
    (before : List Segment) (s : Segment) (c after : List Segment) (r : RangeScope)
    → Increasing (before ++ ((s ∷ c) ++ after))
    → r.first_article ≡ s.number
    → r.last_article ≡ last_number (s ∷ c)
    → select (in_scope r) (before ++ ((s ∷ c) ++ after)) ≡ s ∷ c
kept_middle before s c after r h a b =
    let u = Increasing-append before ((s ∷ c) ++ after) h in
    let v = Increasing-append (s ∷ c) after u.1 in
    let low = below_last (s ∷ c) v.0 in
    let l = last-In s c in
    let past = All-of_In _ (s ∷ c) v.2 l.0 l.1 in
    let inside : All (λ (t : Segment). s.number ≤ t.number) (s ∷ c) =
      (omega arith, All-map _ _ c (λ (t : Segment) (k : s.number < t.number). omega arith) v.0.0) in
    let p1 : select (in_scope r) before ≡ [] =
      select_drops _ before
        (All-map _ _ before (λ (x : Segment) k. let n = k.0 in ground (arith, n, a)) u.2) in
    let p2 : select (in_scope r) (s ∷ c) ≡ s ∷ c = select_keeps (in_scope r) (s ∷ c) (
      All-from_In _ (s ∷ c) (λ (x : Segment) m.
        let n = All-of_In _ (s ∷ c) inside x m in
        let q = All-of_In _ (s ∷ c) low x m in ground (arith, n, q, a, b))) in
    let p3 : select (in_scope r) after ≡ [] =
      select_drops _ after
        (All-map _ _ after (λ (y : Segment) k. let n = l.2 in ground (arith, k, n, b)) past) in
    select-append (in_scope r) before ((s ∷ c) ++ after)
    ∙ ap (λ (x : List Segment). x ++ select (in_scope r) ((s ∷ c) ++ after)) p1
    ∙ select-append (in_scope r) (s ∷ c) after
    ∙ ap (λ (x : List Segment). x ++ select (in_scope r) after) p2
    ∙ ap (λ (x : List Segment). (s ∷ c) ++ x) p3
    ∙ append-nil (s ∷ c)

-- The chunks are the list, in order; none is empty; and there are as many as `div_ceil` says.
chunks_on_lem :
    (fuel : ℕ) (l : List Segment)
    → length l ≤ fuel
    → (flattened (chunks_on fuel l) ≡ l)
      × All (λ c. is_empty c ≡ false) (chunks_on fuel l)
      × (length (chunks_on fuel l) ≡ div_ceil (length l))
unfolding chunks_on flattened
chunks_on_lem zero [] h = (refl, tt, omega arith)
chunks_on_lem zero (s ∷ l) h = absurd (omega arith)
chunks_on_lem (suc fuel) [] h = (refl, tt, omega arith)
chunks_on_lem (suc fuel) (s ∷ l) h =
    let d = length-drop 32 (s ∷ l) in
    let r = chunks_on_lem fuel (drop 32 (s ∷ l)) (omega (arith, d)) in
    (
      ap (λ (x : List Segment). take 32 (s ∷ l) ++ x) r.0 ∙ take-drop 32 (s ∷ l),
      (refl, r.1),
      omega (arith, d, r.2),
    )

-- The articles of the job that a range becomes.
pub articles : Outcome → List Segment
articles (refused e) = []
articles (viewed j) = of_files j.files
  where
    of_files : List FileEntry → List Segment
    of_files [] = []
    of_files (f ∷ fs) = f.segments

view_of-articles :
    (j : Job) (r : RangeScope) (fence : ℕ) (f : FileEntry)
    → articles (view_of j r fence (some f)) ≡ select (in_scope r) f.segments
unfolding articles recompute_job_totals
view_of-articles j r fence f = elim (Bool-cases (is_empty (select (in_scope r) f.segments))) [
  | inl t ↦ rw t (sym (is_empty-eq-nil _ t))
  | inr e ↦ rw e refl
]

-- In the file of the job, after the chunks before these.
number_chunks-kept :
    (j : Job) (f : FileEntry) (fence count index : ℕ) (before : List Segment)
    (cs : List (List Segment))
    → find (λ (g : FileEntry). g.id == f.id) j.files ≡ some f
    → Increasing (before ++ flattened cs)
    → f.segments ≡ before ++ flattened cs
    → All (λ c. is_empty c ≡ false) cs
    → flattened (map (λ r. articles (work_view j r fence)) (number_chunks j f count index cs))
      ≡ flattened cs
unfolding number_chunks flattened work_view
number_chunks-kept j f fence count index before [] w h e n = refl
number_chunks-kept j f fence count index before ([] ∷ cs) w h e n = absurd (ground (arith, n.0))
number_chunks-kept j f fence count index before ((s ∷ c) ∷ cs) w h e n =
    let r = scope_of j f count index (s ∷ c) in
    let k : articles (work_view j r fence) ≡ s ∷ c =
      ap (λ o. articles (view_of j r fence o)) w
      ∙ view_of-articles j r fence f
      ∙ ap (select (in_scope r)) e
      ∙ kept_middle before s c (flattened cs) r h refl refl in
    let a = append_assoc before (s ∷ c) (flattened cs) in
    let ih =
      number_chunks-kept j f fence count (suc index) (before ++ (s ∷ c)) cs w
        (subst Increasing (sym a) h) (e ∙ sym a) n.1 in
    ap
      (λ (x : List Segment).
        x
        ++ flattened
            (map (λ r. articles (work_view j r fence)) (number_chunks j f count (suc index) cs)))
      k
    ∙ ap (λ (x : List Segment). (s ∷ c) ++ x) ih

number_chunks-length :
    (j : Job) (f : FileEntry) (count index : ℕ) (cs : List (List Segment))
    → length (number_chunks j f count index cs) ≡ length cs
unfolding number_chunks
number_chunks-length j f count index [] = refl
number_chunks-length j f count index (c ∷ cs) =
    ap suc (number_chunks-length j f count (suc index) cs)

nonempty_else :
    (b : Bool) (l : List RangeScope)
    → is_empty (if b then [] else l) ≡ false
    → (if b then [] else l) ≡ l
nonempty_else true l h = absurd (ground arith)
nonempty_else false l h = refl

-- A job that is split has one file to fetch, and its ranges are that file's chunks.
scopes-split :
    (j : Job) (f : FileEntry)
    → find is_unpaused j.files ≡ some f
    → is_split_candidate j ≡ true
    → scopes j ≡ number_chunks j f (div_ceil (length f.segments)) 0 (chunks f.segments)
unfolding scopes is_split_candidate
scopes-split j f u c =
    let u' : scopes j ≡ scopes_of j (some f) = ap (scopes_of j) u in
    let e : is_empty (scopes j) ≡ false = ground (arith, c) in
    u' ∙ nonempty_else _ _ (sym (ap is_empty u') ∙ e)

-- Where the articles of the file to fetch are sorted by number without repetitions, and that file is
-- the first of its id, the jobs that the ranges become split those articles: put together in the order
-- of the ranges, the articles of the ranges' work views are the file's articles, none lost, doubled or
-- moved. There is one range for every 32 articles, the last of which may be short of them.
pub work_views-split :
    (j : Job) (f : FileEntry) (fence : ℕ)
    → is_split_candidate j ≡ true
    → find is_unpaused j.files ≡ some f
    → find (λ (g : FileEntry). g.id == f.id) j.files ≡ some f
    → Increasing f.segments
    → (flattened (map (λ r. articles (work_view j r fence)) (scopes j)) ≡ f.segments)
      × (length (scopes j) ≡ (length f.segments + 31) / 32)
unfolding chunks
work_views-split j f fence c u w h =
    let e = scopes-split j f u c in
    let k = chunks_on_lem (length f.segments) f.segments (omega arith) in
    let cs = chunks_on (length f.segments) f.segments in
    (
      ap (λ l. flattened (map (λ r. articles (work_view j r fence)) l)) e
          ∙ number_chunks-kept j f fence (div_ceil (length f.segments)) 0 [] cs w
              (subst Increasing (sym k.0) h) (sym k.0) k.1
          ∙ k.0,
      ap (λ (l : List RangeScope). length l) e
          ∙ number_chunks-length j f (div_ceil (length f.segments)) 0 cs
          ∙ k.2,
    )

number_chunks-numbered :
    (j : Job) (f : FileEntry) (count index i : ℕ) (cs : List (List Segment)) (r : RangeScope)
    → get_elem? (number_chunks j f count index cs) i ≡ some r
    → (r.range_index ≡ (index + i) % 2 ^ 32) × (r.range_count ≡ count % 2 ^ 32) × (i < length cs)
unfolding number_chunks
number_chunks-numbered j f count index i [] r h = absurd (ground arith)
number_chunks-numbered j f count index zero (c ∷ cs) r h =
    let e : scope_of j f count index c ≡ r = ground arith in
    ground
      (arith, ap (λ (x : RangeScope). x.range_index) e, ap (λ (x : RangeScope). x.range_count) e)
number_chunks-numbered j f count index (suc i) (c ∷ cs) r h =
    let q = number_chunks-numbered j f count (suc index) i cs r h in omega (arith, q.0, q.1, q.2)

-- The ranges of a job of fewer than 2^32 of them are numbered from 0 in order, and each carries their
-- number.
scopes_numbered :
    (j : Job) (f : FileEntry) (i : ℕ) (r : RangeScope)
    → is_split_candidate j ≡ true
    → find is_unpaused j.files ≡ some f
    → length (scopes j) < 2 ^ 32
    → get_elem? (scopes j) i ≡ some r
    → (r.range_index ≡ i) × (r.range_count ≡ length (scopes j)) × (i < length (scopes j))
unfolding chunks
scopes_numbered j f i r c u b g =
    let e = scopes-split j f u c in
    let k = chunks_on_lem (length f.segments) f.segments (omega arith) in
    let cs = chunks_on (length f.segments) f.segments in
    let q =
      number_chunks-numbered j f (div_ceil (length f.segments)) 0 i cs r
        (sym (ap (λ (l : List RangeScope). get_elem? l i) e) ∙ g) in
    let m = ap (λ (l : List RangeScope). length l) e in
    let l = number_chunks-length j f (div_ceil (length f.segments)) 0 cs in
    let k2 = k.2 in omega (arith, q.0, q.1, q.2, m, l, k2)
