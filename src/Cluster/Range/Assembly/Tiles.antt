-- ===== src/Cluster/Range/Assembly/Tiles.antt =====
-- crates/nzbd-cluster/src/range.rs: what an assembled file is made of.
use nzbd.Prelude.{
  ℕ, zero, suc, ◌+◌, ◌-◌, ◌≤◌, ◌<◌, ◌≡◌, refl, sym, ◌∙◌, ap, subst, ◌⊎◌, inl, inr, List, [], ◌∷◌,
  ◌++◌, some, arith, Bool-cases, Option-cases, ltb, leb, In, length, get_elem?,
}
use nzbd.Cluster.Range.Assembly.{Part, byte_at, read_back}

-- The bytes of a part where it covers a place.
abbrev Covers : Part → ℕ → ℕ → Type 0
Covers p n b = (p.start ≤ n) × (get_elem? p.bytes (n - p.start) ≡ some b)

unfoldable pub joined : List Part → List ℕ
joined [] = []
joined (p ∷ l) = p.bytes ++ joined l

-- Each part starts where the one before it ends, and has at least one byte.
unfoldable pub Tiled : ℕ → List Part → Type 0
Tiled c [] = Unit {0}
Tiled c (p ∷ l) = (p.start ≡ c) × (0 < length p.bytes) × Tiled (c + length p.bytes) l

get_elem?-append_left :
    (xs ys : List ℕ) (i b : ℕ) → get_elem? xs i ≡ some b → get_elem? (xs ++ ys) i ≡ some b
get_elem?-append_left [] ys i b e = absurd (ground (arith, e))
get_elem?-append_left (x ∷ xs) ys zero b e = e
get_elem?-append_left (x ∷ xs) ys (suc i) b e = get_elem?-append_left xs ys i b e

get_elem?-append_right :
    (xs ys : List ℕ) (i : ℕ) → get_elem? (xs ++ ys) (length xs + i) ≡ get_elem? ys i
get_elem?-append_right [] ys i = ap (get_elem? ys) (omega arith)
get_elem?-append_right (x ∷ xs) ys i =
    let e : length (x ∷ xs) + i ≡ suc (length xs + i) = omega arith in
    rw e (get_elem?-append_right xs ys i)

get_elem?-some : (xs : List ℕ) (i : ℕ) → i < length xs → (b : ℕ) × (get_elem? xs i ≡ some b)
get_elem?-some [] i h = absurd (omega (arith, h))
get_elem?-some (x ∷ xs) zero h = (x, refl)
get_elem?-some (x ∷ xs) (suc i) h = get_elem?-some xs i (omega (arith, h))

-- A part of a tiling covers a place with the byte that the joined parts have there.
tile_byte :
    (c : ℕ) (l : List Part) (q : Part) (n b : ℕ)
    → Tiled c l
    → In q l
    → Covers q n b
    → (c ≤ n) × (get_elem? (joined l) (n - c) ≡ some b)
unfolding joined Tiled
tile_byte c [] q n b t m v = elim m [ ]
tile_byte c (p ∷ l) q n b t (inl e) v =
    let v' : Covers p n b = subst (λ x. Covers x n b) e v in
    let le : c ≤ n = omega (arith, t.0, v'.0) in
    (
      le,
      get_elem?-append_left p.bytes (joined l) (n - c) b
          (ap (λ k. get_elem? p.bytes (n - k)) (sym t.0) ∙ v'.1),
    )
tile_byte c (p ∷ l) q n b t (inr m) v =
    let r = tile_byte (c + length p.bytes) l q n b t.2 m v in
    let le : c ≤ n = omega (arith, r.0) in
    let split : n - c ≡ length p.bytes + (n - (c + length p.bytes)) = omega (arith, r.0) in
    (
      le,
      ap (get_elem? (p.bytes ++ joined l)) split
          ∙ get_elem?-append_right p.bytes (joined l) _
          ∙ r.1,
    )

-- Each place of the joined parts is covered.
covering :
    (c : ℕ) (l : List Part) (n b : ℕ)
    → Tiled c l
    → c ≤ n
    → get_elem? (joined l) (n - c) ≡ some b
    → (q : Part) × In q l × Covers q n b
unfolding joined Tiled
covering c [] n b t le e = absurd (ground (arith, e))
covering c (p ∷ l) n b t le e = elim (Bool-cases (ltb (n - c) (length p.bytes))) [
  | inl h ↦
      let (x, f) = get_elem?-some p.bytes (n - c) (ground (arith, h)) in
      let same : some x ≡ some b = sym (get_elem?-append_left p.bytes (joined l) (n - c) x f) ∙ e in
      (p, inl refl, (omega (arith, t.0, le), ap (λ k. get_elem? p.bytes (n - k)) t.0 ∙ f ∙ same))
  | inr h ↦
      let past : c + length p.bytes ≤ n = ground (arith, h, le) in
      let split : n - c ≡ length p.bytes + (n - (c + length p.bytes)) = omega (arith, past) in
      let r = covering (c + length p.bytes) l n b t.2 past (
        sym (get_elem?-append_right p.bytes (joined l) (n - (c + length p.bytes)))
        ∙ ap (get_elem? (p.bytes ++ joined l)) (sym split)
        ∙ e) in
      (r.0, inr r.1, r.2)
]

-- The writes leave at a place what any part covers it with, where all that cover it agree.
byte_at-covered :
    (l : List Part) (n b : ℕ)
    → ((q : Part) (x : ℕ) → In q l → Covers q n x → x ≡ b)
    → (q : Part) → In q l
    → Covers q n b
    → byte_at l n ≡ b
unfolding byte_at
byte_at-covered [] n b agree q m v = elim m [ ]
byte_at-covered (p ∷ l) n b agree q m v =
    let rest = λ (k : In q l). byte_at-covered l n b (λ r x i. agree r x (inr i)) q k v in
    elim (Option-cases (get_elem? p.bytes (n - p.start))) [
      | inl e ↦ rw (e, byte_at) (in_rest rest m (λ f. ground (arith, e, f)))
      | inr (x, e) ↦ elim (Bool-cases (leb p.start n)) [
        | inl h ↦ rw (e, byte_at) (rw h (agree p x (inl refl) (ground (arith, h), e)))
        | inr h ↦ rw (e, byte_at) (rw h (before rest m (λ f. ground (arith, h, f))))
      ]
    ]
  where
    in_rest :
        (In q l → byte_at l n ≡ b)
        → (q ≡ p) ⊎ In q l
        → (get_elem? p.bytes (n - p.start) ≡ some b → ⊥)
        → byte_at l n ≡ b
    in_rest rest (inl s) no_byte =
        absurd (no_byte (subst (λ (r : Part). get_elem? r.bytes (n - r.start) ≡ some b) s v.1))
    in_rest rest (inr k) no_byte = rest k

    before : (In q l → byte_at l n ≡ b) → (q ≡ p) ⊎ In q l → (p.start ≤ n → ⊥) → byte_at l n ≡ b
    before rest (inl s) late = absurd (late (subst (λ (r : Part). r.start ≤ n) s v.0))
    before rest (inr k) late = rest k

read_back-bytes :
    (parts : List Part) (start : ℕ) (l : List ℕ)
    → ((i b : ℕ) → get_elem? l i ≡ some b → byte_at parts (start + i) ≡ b)
    → read_back parts start (length l) ≡ l
unfolding read_back
read_back-bytes parts start [] h = refl
read_back-bytes parts start (b ∷ l) h =
    let first : byte_at parts start ≡ b = ap (byte_at parts) (omega arith) ∙ h 0 b refl in
    let rest =
      read_back-bytes parts (suc start) l
        λ i x e. ap (byte_at parts) (omega arith) ∙ h (suc i) x e in
    rw first (ap (λ r. b ∷ r) rest)

pub read_back-joined :
    (parts tiles : List Part)
    → Tiled 0 tiles
    → ((q : Part) → In q parts → In q tiles)
    → ((q : Part) → In q tiles → In q parts)
    → read_back parts 0 (length (joined tiles)) ≡ joined tiles
read_back-joined parts tiles t into from = read_back-bytes parts 0 (joined tiles) λ i b e.
    let n : 0 + i ≡ i = omega arith in
    let e' : get_elem? (joined tiles) (i - 0) ≡ some b =
      ap (get_elem? (joined tiles)) (omega arith) ∙ e in
    let c = covering 0 tiles i b t (omega arith) e' in
    ap (byte_at parts) n
    ∙ byte_at-covered parts i b
        (λ q x m v.
          let r = tile_byte 0 tiles q i x t (into q m) v in
          let same : some x ≡ some b = sym r.1 ∙ e' in ground (arith, same))
        c.0 (from c.0 c.1) c.2
