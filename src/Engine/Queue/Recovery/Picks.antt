-- ===== src/Engine/Queue/Recovery/Picks.antt =====
-- crates/nzbd-engine/src/queue.rs: what `pick_par_files` picks.
use nzbd.Prelude.{
  ℕ, zero, suc, ◌+◌, ◌%◌, ◌^◌, ◌≤◌, ◌<◌, ◌≡◌, inl, inr, refl, sym, subst, ap, ◌∙◌, Bool, true,
  false, List, [], ◌∷◌, ◌++◌, map, reverse, none, some, arith, In, Within, All-of_In, All-from_In,
  Bool-cases, Option-cases, In-append, length, take, find, leb,
}
use nzbd.Prelude.Sort.{
  insert_sorted, stable_sort, Sorted, stable_sort-In, In-stable_sort, stable_sort-Sorted,
}
use mathlib.Core.List.{reverse-cons}
use nzbd.Types.Job.{FileId}
use nzbd.Engine.Queue.Recovery.{fewer_blocks, accumulate, pick_par_files}

-- The blocks of all the candidates.
unfoldable pub total : List (FileId × ℕ) → ℕ
total [] = 0
total (c ∷ cs) = c.1 + total cs

total-append : (xs ys : List (FileId × ℕ)) → total (xs ++ ys) ≡ total xs + total ys
unfolding total
total-append [] ys = omega arith
total-append (x ∷ xs) ys = omega (arith, total-append xs ys)

total-reverse : (xs : List (FileId × ℕ)) → total (reverse xs) ≡ total xs
unfolding total
total-reverse [] = refl
total-reverse (x ∷ xs) =
    ap total (reverse-cons x xs)
    ∙ omega (arith, total-append (reverse xs) (x ∷ []), total-reverse xs)

total-insert_sorted :
    (c : FileId × ℕ) (xs : List (FileId × ℕ))
    → total (insert_sorted fewer_blocks c xs) ≡ c.1 + total xs
unfolding total insert_sorted
total-insert_sorted c [] = refl
total-insert_sorted c (x ∷ xs) = ground (arith, total-insert_sorted c xs)

total-stable_sort : (xs : List (FileId × ℕ)) → total (stable_sort fewer_blocks xs) ≡ total xs
unfolding total stable_sort
total-stable_sort [] = refl
total-stable_sort (x ∷ xs) =
    omega (arith, total-insert_sorted x (stable_sort fewer_blocks xs), total-stable_sort xs)

reverse-In : (xs : List (FileId × ℕ)) (a : FileId × ℕ) → In a (reverse xs) → In a xs
reverse-In [] a m = m
reverse-In (x ∷ xs) a m =
    elim (In-append (reverse xs) (x ∷ []) a (subst (λ l. In a l) (reverse-cons x xs) m)) [
      | inl k ↦ inr (reverse-In xs a k)
      | inr (inl e) ↦ inl e
      | inr (inr k) ↦ elim k [ ]
    ]

-- The picked files are of candidates that together have the needed blocks, and do not have them
-- before the last one is picked.
pub record Covers (candidates : List (FileId × ℕ)) (before needed : ℕ) (picked : List FileId)
    : Type 0 where
  pub chosen : List (FileId × ℕ)
  pub are_picked : map (λ c. c.0) chosen ≡ picked
  pub are_candidates : Within chosen candidates
  pub enough : needed ≤ before + total chosen
  pub no_more : (m : ℕ) → m < length chosen → before + total (take m chosen) < needed

take_one :
    (needed before : ℕ) (c : FileId × ℕ) (rest : List (FileId × ℕ)) (picked : List FileId)
    → before < needed
    → Covers rest (before + c.1) needed picked
    → Covers (c ∷ rest) before needed (c.0 ∷ picked)
unfolding total
take_one needed before c rest picked h k = record {
  chosen = c ∷ k.chosen;
  are_picked = ap (λ l. c.0 ∷ l) k.are_picked;
  are_candidates =
      (inl refl, All-from_In _ k.chosen (λ a m. inr (All-of_In _ k.chosen k.are_candidates a m)));
  enough = omega (arith, k.enough);
  no_more = short;
}
  where
    short : (m : ℕ) → m < length (c ∷ k.chosen) → before + total (take m (c ∷ k.chosen)) < needed
    short zero n = omega arith
    short (suc m) n = omega (arith, k.no_more m (omega arith))

accumulate-Covers :
    (needed before : ℕ) (l : List (FileId × ℕ))
    → before + total l < 2 ^ 32
    → needed ≤ before + total l
    → Covers l before needed (accumulate needed before l)
unfolding accumulate total
accumulate-Covers needed before [] h k = record {
  chosen = [];
  are_picked = refl;
  are_candidates = tt;
  enough = k;
  no_more = λ m n. absurd (omega arith);
}
accumulate-Covers needed before ((id, blocks) ∷ rest) h k =
    let next = (before + blocks) % 2 ^ 32 in
    let e : next ≡ before + blocks = omega arith in
    let r = accumulate-Covers needed next rest (omega arith) (omega arith) in
    elim (Bool-cases (leb needed before)) [
      | inl t ↦ rw t (record {
        chosen = [];
        are_picked = refl;
        are_candidates = tt;
        enough = ground arith;
        no_more = λ m n. absurd (omega arith);
      })
      | inr f ↦ rw f (
          take_one needed before (id, blocks) rest _ (ground arith)
            (subst (λ x. Covers rest x needed (accumulate needed next rest)) e r))
    ]

fewer_blocks_trans :
    (a b c : FileId × ℕ)
    → fewer_blocks a b ≡ true
    → fewer_blocks b c ≡ true
    → fewer_blocks a c ≡ true
fewer_blocks_trans a b c h k = ground arith

fewer_blocks_total : (a b : FileId × ℕ) → fewer_blocks a b ≡ false → fewer_blocks b a ≡ true
fewer_blocks_total a b h = ground arith

-- The first of a sorted list that passes the test comes before all others that do.
find-least :
    (p : FileId × ℕ → Bool) (xs : List (FileId × ℕ)) (c : FileId × ℕ)
    → Sorted fewer_blocks xs
    → find p xs ≡ some c
    → In c xs × (p c ≡ true) × ((d : FileId × ℕ) → In d xs → p d ≡ true → c.1 ≤ d.1)
find-least p [] c s h = absurd (ground arith)
find-least p (x ∷ xs) c s h = elim (Bool-cases (p x)) [
  | inl t ↦
      let e : x ≡ c = ground arith in
      (
        inl (sym e),
        subst (λ y. p y ≡ true) e t,
        λ d m q. elim m [
          | inl i ↦ ground (arith, ap (λ (y : FileId × ℕ). y.1) i, ap (λ (y : FileId × ℕ). y.1) e)
          | inr i ↦ ground (arith, All-of_In _ xs s.0 d i, ap (λ (y : FileId × ℕ). y.1) e)
        ],
      )
  | inr f ↦
      let r = find-least p xs c s.1 (rw f at h) in
      (
        inr r.0,
        r.1,
        λ d m q. elim m [ inl i ↦ absurd (cc (sym q ∙ ap p i ∙ f)) | inr i ↦ r.2 d i q ],
      )
]

find-none :
    (p : FileId × ℕ → Bool) (xs : List (FileId × ℕ)) (d : FileId × ℕ)
    → find p xs ≡ none
    → In d xs
    → p d ≡ false
find-none p [] d h m = elim m [ ]
find-none p (x ∷ xs) d h m = elim (Bool-cases (p x)) [
  | inl t ↦ absurd (ground arith)
  | inr f ↦ elim m [ inl e ↦ ap p e ∙ f | inr i ↦ find-none p xs d (rw f at h) i ]
]

one-Covers :
    (candidates : List (FileId × ℕ)) (needed : ℕ) (c : FileId × ℕ)
    → 0 < needed
    → In c candidates
    → needed ≤ c.1
    → Covers candidates 0 needed (c.0 ∷ [])
unfolding total
one-Covers candidates needed c p m l = record {
  chosen = c ∷ [];
  are_picked = refl;
  are_candidates = (m, tt);
  enough = omega arith;
  no_more = short;
}
  where
    short : (m : ℕ) → m < length (c ∷ []) → 0 + total (take m (c ∷ [])) < needed
    short zero n = omega arith
    short (suc m) n = absurd (omega arith)

module _ (candidates : List (FileId × ℕ)) (needed : ℕ) where
  sorted : Sorted fewer_blocks (stable_sort fewer_blocks candidates)
  sorted = stable_sort-Sorted fewer_blocks fewer_blocks_trans fewer_blocks_total candidates

  -- Where one candidate alone has the needed blocks, exactly one file is picked: that of a candidate
  -- that has them, and no candidate that has them has fewer blocks.
  picks_one :
      (d : FileId × ℕ)
      → In d candidates
      → needed ≤ d.1
      → (c : FileId × ℕ) × In c candidates
        × (pick_par_files candidates needed ≡ c.0 ∷ [])
        × (needed ≤ c.1)
        × ((e : FileId × ℕ) → In e candidates → needed ≤ e.1 → c.1 ≤ e.1)
  unfolding pick_par_files
  picks_one d m h =
      elim (Option-cases (find (λ c. leb needed c.1) (stable_sort fewer_blocks candidates))) [
        | inl n ↦
            let f = find-none _ _ d n (In-stable_sort fewer_blocks candidates d m) in
            absurd (ground arith)
        | inr (c, e) ↦
            let r = find-least _ _ c sorted e in
            (
              c,
              stable_sort-In fewer_blocks candidates c r.0,
              rw e refl,
              ground (arith, r.1),
              λ x k l. r.2 x (In-stable_sort fewer_blocks candidates x k) (ground arith),
            )
      ]

  -- Where the candidates together have the needed blocks, of which there is at least one, and all
  -- their blocks are fewer than 2^32, the picked files are of candidates that have the needed blocks
  -- together, and those picked before the last one do not.
  pub picks_cover :
      0 < needed
      → needed ≤ total candidates
      → total candidates < 2 ^ 32
      → Covers candidates 0 needed (pick_par_files candidates needed)
  unfolding pick_par_files
  picks_cover p h b =
      elim (Option-cases (find (λ c. leb needed c.1) (stable_sort fewer_blocks candidates))) [
        | inl n ↦
            let by_size = reverse (stable_sort fewer_blocks candidates) in
            let e : total by_size ≡ total candidates =
              total-reverse (stable_sort fewer_blocks candidates) ∙ total-stable_sort candidates in
            rw n (widen (accumulate-Covers needed 0 by_size (omega (arith, e)) (omega (arith, e))))
        | inr (c, e) ↦
            let r = find-least _ _ c sorted e in
            rw e (
              one-Covers candidates needed c p (stable_sort-In fewer_blocks candidates c r.0)
                (ground (arith, r.1)))
      ]
    where
      widen :
          {picked : List FileId}
          → Covers (reverse (stable_sort fewer_blocks candidates)) 0 needed picked
          → Covers candidates 0 needed picked
      widen k = record {
        chosen = k.chosen;
        are_picked = k.are_picked;
        are_candidates = All-from_In _ k.chosen (λ a m.
            stable_sort-In fewer_blocks candidates a
              (reverse-In _ a (All-of_In _ k.chosen k.are_candidates a m)));
        enough = k.enough;
        no_more = k.no_more;
      }
