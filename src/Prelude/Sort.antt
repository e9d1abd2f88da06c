-- ===== src/Prelude/Sort.antt =====
-- A stable sort and a rotation, for the source's `sort_by_key` and `rotate_left`.
use mathlib.Core.Path.{◌≡◌}
use mathlib.Core.Logic.{◌⊎◌, inl, inr}
use mathlib.Core.Bool.{Bool, true, false}
use mathlib.Core.List.{List, [], ◌∷◌, ◌++◌}
use native.Mathlib.Omega.{arith}
use Prim.Native.Nat.{ℕ, ◌≤◌, suc, zero}
use nzbd.Prelude.Tests.{if◌then◌else◌, Bool-cases}
use nzbd.Prelude.Lists.{In, All, length, take, drop, In-append}

module _ {A : Type 0} (before : A → A → Bool) where
  -- Puts an element before the first one that it does not come after.
  unfoldable pub insert_sorted : A → List A → List A
  insert_sorted a [] = a ∷ []
  insert_sorted a (x ∷ xs) =
      let rest = insert_sorted a xs in if before a x then a ∷ x ∷ xs else x ∷ rest

  unfoldable pub stable_sort : List A → List A
  unfolding insert_sorted
  stable_sort [] = []
  stable_sort (x ∷ xs) = insert_sorted x (stable_sort xs)

  insert_sorted-In : (a : A) (xs : List A) (b : A) → In b (insert_sorted a xs) → (b ≡ a) ⊎ In b xs
  unfolding insert_sorted
  insert_sorted-In a [] b m = m
  insert_sorted-In a (x ∷ xs) b m = elim (Bool-cases (before a x)) [
    | inl t ↦ rw t at m
    | inr f ↦
        let m' : (b ≡ x) ⊎ In b (insert_sorted a xs) = rw f at m in
        elim m' [
          | inl e ↦ inr (inl e)
          | inr k ↦ elim (insert_sorted-In a xs b k) [ inl e ↦ inl e | inr r ↦ inr (inr r) ]
        ]
  ]

  In-insert_sorted : (a : A) (xs : List A) (b : A) → (b ≡ a) ⊎ In b xs → In b (insert_sorted a xs)
  unfolding insert_sorted
  In-insert_sorted a [] b m = m
  In-insert_sorted a (x ∷ xs) b m =
      let r = λ (k : (b ≡ a) ⊎ In b xs). In-insert_sorted a xs b k in
      elim (Bool-cases (before a x)) [
        | inl t ↦ rw t m
        | inr f ↦ rw f (elim m [
          | inl e ↦ inr (r (inl e))
          | inr (inl e) ↦ inl e
          | inr (inr k) ↦ inr (r (inr k))
        ])
      ]

  pub stable_sort-In : (xs : List A) (b : A) → In b (stable_sort xs) → In b xs
  unfolding stable_sort
  stable_sort-In [] b m = m
  stable_sort-In (x ∷ xs) b m = elim (insert_sorted-In x (stable_sort xs) b m) [
    | inl e ↦ inl e
    | inr k ↦ inr (stable_sort-In xs b k)
  ]

  pub In-stable_sort : (xs : List A) (b : A) → In b xs → In b (stable_sort xs)
  unfolding stable_sort
  In-stable_sort [] b m = m
  In-stable_sort (x ∷ xs) b (inl e) = In-insert_sorted x (stable_sort xs) b (inl e)
  In-stable_sort (x ∷ xs) b (inr m) =
      In-insert_sorted x (stable_sort xs) b (inr (In-stable_sort xs b m))

  -- Each element comes before all that follow it.
  abbrev pub Sorted : List A → Type 0
  Sorted [] = Unit
  Sorted (x ∷ xs) = All (λ y. before x y ≡ true) xs × Sorted xs

module _ {A : Type 0} (before : A → A → Bool)
    (trans : (a b c : A) → before a b ≡ true → before b c ≡ true → before a c ≡ true)
    (total : (a b : A) → before a b ≡ false → before b a ≡ true) where
  below_mono :
      (a x : A) (xs : List A)
      → before a x ≡ true
      → All (λ y. before x y ≡ true) xs
      → All (λ y. before a y ≡ true) xs
  below_mono a x [] h k = tt
  below_mono a x (y ∷ ys) h k = (trans a x y h k.0, below_mono a x ys h k.1)

  below_insert :
      (a x : A) (xs : List A)
      → before x a ≡ true
      → All (λ y. before x y ≡ true) xs
      → All (λ y. before x y ≡ true) (insert_sorted before a xs)
  unfolding insert_sorted
  below_insert a x [] h k = (h, tt)
  below_insert a x (y ∷ ys) h k = elim (Bool-cases (before a y)) [
    | inl t ↦ rw t (h, k)
    | inr f ↦ rw f (k.0, below_insert a x ys h k.1)
  ]

  insert_sorted-Sorted :
      (a : A) (xs : List A) → Sorted before xs → Sorted before (insert_sorted before a xs)
  unfolding insert_sorted
  insert_sorted-Sorted a [] s = (tt, tt)
  insert_sorted-Sorted a (x ∷ xs) s = elim (Bool-cases (before a x)) [
    | inl t ↦ rw t ((t, below_mono a x xs t s.0), s)
    | inr f ↦ rw f (below_insert a x xs (total a x f) s.0, insert_sorted-Sorted a xs s.1)
  ]

  pub stable_sort-Sorted : (xs : List A) → Sorted before (stable_sort before xs)
  unfolding stable_sort
  stable_sort-Sorted [] = tt
  stable_sort-Sorted (x ∷ xs) =
      insert_sorted-Sorted x (stable_sort before xs) (stable_sort-Sorted xs)

module _ {A : Type 0} where
  pub take-In : (n : ℕ) (xs : List A) (a : A) → In a (take n xs) → In a xs
  take-In zero xs a m = elim m [ ]
  take-In (suc n) [] a m = elim m [ ]
  take-In (suc n) (x ∷ xs) a (inl e) = inl e
  take-In (suc n) (x ∷ xs) a (inr m) = inr (take-In n xs a m)

  pub length-take-le : (n : ℕ) (xs : List A) → length (take n xs) ≤ n
  length-take-le zero xs = omega arith
  length-take-le (suc n) [] = omega arith
  length-take-le (suc n) (x ∷ xs) = omega (arith, length-take-le n xs)

  drop-In : (n : ℕ) (xs : List A) (a : A) → In a (drop n xs) → In a xs
  drop-In zero xs a m = m
  drop-In (suc n) [] a m = elim m [ ]
  drop-In (suc n) (x ∷ xs) a m = inr (drop-In n xs a m)

  -- `rotate_left`.
  abbrev pub rotate_left : ℕ → List A → List A
  rotate_left n xs = drop n xs ++ take n xs

  pub rotate_left-In : (n : ℕ) (xs : List A) (a : A) → In a (rotate_left n xs) → In a xs
  rotate_left-In n xs a m = elim (In-append (drop n xs) (take n xs) a m) [
    | inl d ↦ drop-In n xs a d
    | inr t ↦ take-In n xs a t
  ]
