-- ===== src/Prelude/Lists.antt =====
-- Lists measured by native numbers, Boolean quantifiers and selections, and their laws.
use Prim.Native.Nat.{ℕ, zero, suc, ◌+◌}
use mathlib.Core.Path.{◌≡◌, refl, sym, subst}
use mathlib.Core.Logic.{◌⊎◌, inl, inr}
use mathlib.Core.Bool.{Bool, true, false, ◌&&◌, ◌||◌}
use mathlib.Core.List.{List, [], ◌∷◌, ◌++◌}
use mathlib.Core.Option.{Option, none, some}
use native.Mathlib.Omega.{arith}
use nzbd.Prelude.Tests.{◌==◌, if◌then◌else◌, Bool-cases}

module _ {ℓ} {A : Type ℓ} where
  abbrev pub length : List A → ℕ
  length [] = 0
  length (x ∷ xs) = suc (length xs)

  pub length-append : (xs ys : List A) → length (xs ++ ys) ≡ length xs + length ys
  length-append [] ys = omega arith
  length-append (x ∷ xs) ys = omega (arith, length-append xs ys)

  abbrev pub get_elem? : List A → ℕ → Option A
  get_elem? [] i = none
  get_elem? (x ∷ xs) zero = some x
  get_elem? (x ∷ xs) (suc i) = get_elem? xs i

  abbrev pub take : ℕ → List A → List A
  take zero xs = []
  take (suc n) [] = []
  take (suc n) (x ∷ xs) = x ∷ take n xs

  abbrev pub drop : ℕ → List A → List A
  drop zero xs = xs
  drop (suc n) [] = []
  drop (suc n) (x ∷ xs) = drop n xs

  abbrev pub any : (A → Bool) → List A → Bool
  any p [] = false
  any p (x ∷ xs) = p x || any p xs

  abbrev pub all : (A → Bool) → List A → Bool
  all p [] = true
  all p (x ∷ xs) = p x && all p xs

  -- The elements that pass a test, in order.
  abbrev pub select : (A → Bool) → List A → List A
  select p [] = []
  select p (x ∷ xs) = let rest = select p xs in if p x then x ∷ rest else rest

  -- The first element that passes a test.
  abbrev pub find : (A → Bool) → List A → Option A
  find p [] = none
  find p (x ∷ xs) = let rest = find p xs in if p x then some x else rest

  abbrev pub is_empty : List A → Bool
  is_empty [] = true
  is_empty (x ∷ xs) = false

-- Membership as a choice of the place, which proofs may take apart.
abbrev pub In : {A : Type 0} → A → List A → Type 0
In a [] = ⊥
In a (x ∷ xs) = (a ≡ x) ⊎ In a xs

abbrev pub All {ℓ} : {A : Type 0} → (A → Type ℓ) → List A → Type ℓ
All P [] = Unit
All P (x ∷ xs) = P x × All P xs

-- Every element of the first list is in the second.
abbrev pub Within : {A : Type 0} → List A → List A → Type 0
Within xs ys = All (λ x. In x ys) xs

-- Is a number in the list?
abbrev pub member : ℕ → List ℕ → Bool
member a = any (λ x. a == x)

module _ {A : Type 0} where
  pub All-of_In : (P : A → Type 0) (xs : List A) → All P xs → (a : A) → In a xs → P a
  All-of_In P [] h a m = elim m [ ]
  All-of_In P (x ∷ xs) h a (inl e) = subst P (sym e) h.0
  All-of_In P (x ∷ xs) h a (inr m) = All-of_In P xs h.1 a m

  pub All-from_In : (P : A → Type 0) (xs : List A) → ((a : A) → In a xs → P a) → All P xs
  All-from_In P [] h = tt
  All-from_In P (x ∷ xs) h = (h x (inl refl), All-from_In P xs (λ a m. h a (inr m)))

  pub In-select : (p : A → Bool) (xs : List A) (a : A) → In a xs → p a ≡ true → In a (select p xs)
  In-select p [] a m h = elim m [ ]
  In-select p (x ∷ xs) a (inl e) h = let h' = subst (λ y. p y ≡ true) e h in rw h' (inl e)
  In-select p (x ∷ xs) a (inr m) h = elim (Bool-cases (p x)) [
    | inl t ↦ rw t (inr (In-select p xs a m h))
    | inr f ↦ rw f (In-select p xs a m h)
  ]

  pub select-In : (p : A → Bool) (xs : List A) (a : A) → In a (select p xs) → In a xs × (p a ≡ true)
  select-In p [] a m = elim m [ ]
  select-In p (x ∷ xs) a m = elim (Bool-cases (p x)) [
    | inl t ↦
        let m' : (a ≡ x) ⊎ In a (select p xs) = rw t at m in
        elim m' [
          | inl e ↦ (inl e, subst (λ y. p y ≡ true) (sym e) t)
          | inr r ↦ let k = select-In p xs a r in (inr k.0, k.1)
        ]
    | inr f ↦ let r = select-In p xs a (rw f at m) in (inr r.0, r.1)
  ]

  pub In-append : (xs ys : List A) (a : A) → In a (xs ++ ys) → In a xs ⊎ In a ys
  In-append [] ys a m = inr m
  In-append (x ∷ xs) ys a (inl e) = inl (inl e)
  In-append (x ∷ xs) ys a (inr m) = elim (In-append xs ys a m) [
    | inl l ↦ inl (inr l)
    | inr r ↦ inr r
  ]

  pub In-append_left : (xs ys : List A) (a : A) → In a xs → In a (xs ++ ys)
  In-append_left [] ys a m = elim m [ ]
  In-append_left (x ∷ xs) ys a (inl e) = inl e
  In-append_left (x ∷ xs) ys a (inr m) = inr (In-append_left xs ys a m)

  pub In-append_right : (xs ys : List A) (a : A) → In a ys → In a (xs ++ ys)
  In-append_right [] ys a m = m
  In-append_right (x ∷ xs) ys a m = inr (In-append_right xs ys a m)

  pub any-In : (p : A → Bool) (xs : List A) → any p xs ≡ true → (a : A) × In a xs × (p a ≡ true)
  any-In p [] h = absurd (ground arith)
  any-In p (x ∷ xs) h = elim (Bool-cases (p x)) [
    | inl t ↦ (x, inl refl, t)
    | inr f ↦ let r = any-In p xs (rw f at h) in (r.0, inr r.1, r.2)
  ]

  pub In-any : (p : A → Bool) (xs : List A) (a : A) → In a xs → p a ≡ true → any p xs ≡ true
  In-any p [] a m h = elim m [ ]
  In-any p (x ∷ xs) a (inl e) h = let h' = subst (λ y. p y ≡ true) e h in rw h' refl
  In-any p (x ∷ xs) a (inr m) h = let r = In-any p xs a m h in ground arith

  pub all-In : (p : A → Bool) (xs : List A) → all p xs ≡ true → (a : A) → In a xs → p a ≡ true
  all-In p [] h a m = elim m [ ]
  all-In p (x ∷ xs) h a (inl e) = subst (λ y. p y ≡ true) (sym e) (ground arith)
  all-In p (x ∷ xs) h a (inr m) = all-In p xs (ground arith) a m

  pub In-all : (p : A → Bool) (xs : List A) → ((a : A) → In a xs → p a ≡ true) → all p xs ≡ true
  In-all p [] h = refl
  In-all p (x ∷ xs) h =
      let here = h x (inl refl) in
      let rest = In-all p xs (λ a m. h a (inr m)) in ground (arith, here, rest)

pub member-In : (a : ℕ) (xs : List ℕ) → member a xs ≡ true → In a xs
member-In a [] h = absurd (ground arith)
member-In a (x ∷ xs) h = elim (Bool-cases (a == x)) [
  | inl t ↦ inl (ground arith)
  | inr f ↦ inr (member-In a xs (rw f at h))
]

pub In-member : (a : ℕ) (xs : List ℕ) → In a xs → member a xs ≡ true
In-member a xs m = In-any (λ x. a == x) xs a m (ground arith)
