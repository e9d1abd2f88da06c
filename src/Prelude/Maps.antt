-- ===== src/Prelude/Maps.antt =====
-- Hash maps and hash sets keyed by numbers, as association lists and lists without repetitions, and
-- the change of the first element of a list that passes a test.
use nzbd.Prelude.Tests.{◌==◌, if◌then◌else◌, Bool-cases}
use nzbd.Prelude.Lists.{find, select, All, In}
use Prim.Native.Nat.{ℕ}
use mathlib.Core.Path.{◌≡◌, refl, sym, ap, ◌∙◌, subst}
use mathlib.Core.Logic.{inl, inr}
use mathlib.Core.Bool.{Bool, true, false, not}
use mathlib.Core.List.{List, [], ◌∷◌, map}
use mathlib.Core.Option.{Option, none, some}
use native.Mathlib.Omega.{arith}

module _ {A : Type 0} where
  abbrev pub get : ℕ → List (ℕ × A) → Option A
  get k [] = none
  get k ((x, a) ∷ m) = let rest = get k m in if x == k then some a else rest

  -- `insert`: the old value of the key is replaced.
  abbrev pub put : ℕ → A → List (ℕ × A) → List (ℕ × A)
  put k a [] = (k, a) ∷ []
  put k a ((x, b) ∷ m) = let rest = put k a m in if x == k then (k, a) ∷ m else (x, b) ∷ rest

  abbrev pub remove : ℕ → List (ℕ × A) → List (ℕ × A)
  remove k m = select (λ (e : ℕ × A). not (e.0 == k)) m

  abbrev pub update_first : (A → Bool) → (A → A) → List A → List A
  update_first p g [] = []
  update_first p g (x ∷ xs) = let rest = update_first p g xs in if p x then g x ∷ xs else x ∷ rest

-- `HashSet::remove`.
abbrev pub without : ℕ → List ℕ → List ℕ
without k l = select (λ x. not (x == k)) l

-- The first entry of a number is still the first after a change that keeps the numbers.
pub find-update_first :
    {A : Type 0} (key : A → ℕ) (g : A → A) (k : ℕ) (l : List A) (a : A)
    → ((x : A) → key (g x) ≡ key x)
    → find (λ x. key x == k) l ≡ some a
    → find (λ x. key x == k) (update_first (λ x. key x == k) g l) ≡ some (g a)
find-update_first key g k [] a same e = absurd (ground arith)
find-update_first key g k (x ∷ l) a same e = elim (Bool-cases (key x == k)) [
  | inl t ↦
      let e' : some x ≡ some a = rw t at e in
      let t' : (key (g x) == k) ≡ true = rw (same x) t in rw t (rw t' (ground arith))
  | inr f ↦ rw f (rw f (find-update_first key g k l a same (rw f at e)))
]

pub find-update_other :
    {A : Type 0} (key : A → ℕ) (g : A → A) (k m : ℕ) (l : List A)
    → (m == k) ≡ false
    → ((x : A) → key (g x) ≡ key x)
    → find (λ x. key x == k) (update_first (λ x. key x == m) g l) ≡ find (λ x. key x == k) l
find-update_other key g k m [] n same = refl
find-update_other key g k m (x ∷ l) n same = elim (Bool-cases (key x == m)) [
  | inl t ↦
      let no : (key x == k) ≡ false = ground (arith, t, n) in
      let no' : (key (g x) == k) ≡ false = rw (same x) no in rw t (rw no (rw no' refl))
  | inr f ↦ elim (Bool-cases (key x == k)) [
    | inl t ↦ rw f (rw t refl)
    | inr u ↦ rw f (rw u (find-update_other key g k m l n same))
  ]
]

pub find-In :
    {A : Type 0} (p : A → Bool) (l : List A) (a : A) → find p l ≡ some a → In a l × (p a ≡ true)
find-In p [] a e = absurd (ground (arith, e))
find-In p (x ∷ l) a e = elim (Bool-cases (p x)) [
  | inl t ↦
      let e' : some x ≡ some a = rw t at e in
      let same : x ≡ a = ground (arith, e') in (inl (sym same), subst (λ y. p y ≡ true) same t)
  | inr f ↦ let r = find-In p l a (rw f at e) in (inr r.0, r.1)
]

-- No element twice.
abbrev pub Distinct : {A : Type 0} → List A → Type 0
Distinct [] = Unit
Distinct (x ∷ xs) = (¬ In x xs) × Distinct xs

In-map : {A : Type 0} (key : A → ℕ) (l : List A) (a : A) → In a l → In (key a) (map key l)
In-map key [] a m = elim m [ ]
In-map key (x ∷ l) a (inl e) = inl (ap key e)
In-map key (x ∷ l) a (inr m) = inr (In-map key l a m)

-- Where no number comes twice, an element is what its number finds.
pub Distinct-find :
    {A : Type 0} (key : A → ℕ) (k : ℕ) (l : List A) (a b : A)
    → Distinct (map key l)
    → In a l
    → key a ≡ k
    → find (λ x. key x == k) l ≡ some b
    → a ≡ b
Distinct-find key k [] a b d m n e = elim m [ ]
Distinct-find key k (x ∷ l) a b d (inl same) n e =
    let t : (key x == k) ≡ true = subst (λ y. (key y == k) ≡ true) same (ground (arith, n)) in
    let e' : some x ≡ some b = rw t at e in same ∙ ground (arith, e')
Distinct-find key k (x ∷ l) a b d (inr m) n e = elim (Bool-cases (key x == k)) [
  | inl t ↦
      let eq : key a ≡ key x = ground (arith, n, t) in
      absurd (d.0 (subst (λ y. In y (map key l)) eq (In-map key l a m)))
  | inr f ↦ Distinct-find key k l a b d.1 m n (rw f at e)
]

pub map-update_first :
    {A : Type 0} (key : A → ℕ) (p : A → Bool) (g : A → A) (l : List A)
    → ((x : A) → key (g x) ≡ key x)
    → map key (update_first p g l) ≡ map key l
map-update_first key p g [] same = refl
map-update_first key p g (x ∷ l) same = elim (Bool-cases (p x)) [
  | inl t ↦ rw t (ap (λ k. k ∷ map key l) (same x))
  | inr f ↦ rw f (ap (λ ks. key x ∷ ks) (map-update_first key p g l same))
]

pub All-update_first :
    {A : Type 0} (P : A → Type 0) (p : A → Bool) (g : A → A) (l : List A)
    → ((x : A) → P x → P (g x))
    → All P l
    → All P (update_first p g l)
All-update_first P p g [] k h = tt
All-update_first P p g (x ∷ l) k h = elim (Bool-cases (p x)) [
  | inl t ↦ rw t (k x h.0, h.1)
  | inr f ↦ rw f (h.0, All-update_first P p g l k h.1)
]

pub find-map :
    {A : Type 0} (key : A → ℕ) (g : A → A) (k : ℕ) (l : List A) (a : A)
    → ((x : A) → key (g x) ≡ key x)
    → find (λ x. key x == k) l ≡ some a
    → find (λ x. key x == k) (map g l) ≡ some (g a)
find-map key g k [] a same e = absurd (ground (arith, e))
find-map key g k (x ∷ l) a same e = elim (Bool-cases (key x == k)) [
  | inl t ↦
      let e' : some x ≡ some a = rw t at e in
      let t' : (key (g x) == k) ≡ true = rw (same x) t in rw t' (ground (arith, e'))
  | inr f ↦
      let f' : (key (g x) == k) ≡ false = rw (same x) f in
      rw f' (find-map key g k l a same (rw f at e))
]

pub map-map_same :
    {A : Type 0} (key : A → ℕ) (g : A → A) (l : List A)
    → ((x : A) → key (g x) ≡ key x)
    → map key (map g l) ≡ map key l
map-map_same key g [] same = refl
map-map_same key g (x ∷ l) same =
    ap (λ k. k ∷ map key (map g l)) (same x) ∙ ap (λ ks. key x ∷ ks) (map-map_same key g l same)

pub All-map :
    {A : Type 0} (P : A → Type 0) (g : A → A) (l : List A)
    → ((x : A) → P x → P (g x))
    → All P l
    → All P (map g l)
All-map P g [] k h = tt
All-map P g (x ∷ l) k h = (k x h.0, All-map P g l k h.1)
