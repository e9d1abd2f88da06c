-- ===== src/Engine/Queue/Recovery/Prices.antt =====
-- crates/nzbd-engine/src/queue.rs: what `price_paused_pars` and `smallest_paused_par` answer.
use nzbd.Prelude.{
  ℕ, zero, suc, ◌+◌, ◌≤◌, ◌≡◌, ◌⊎◌, inl, inr, refl, sym, subst, ap, ◌∙◌, Bool, true, false, List,
  [], ◌∷◌, Option, none, some, arith, In, length, select, In-select, ltb, if◌then◌else◌,
}
use nzbd.Types.Job.{FileId, FileEntry, Job}
use nzbd.Engine.Queue.Recovery.{
  ParCandidate, vol_par_blocks, file_bytes, is_paused_par, price, put_price, price_files,
  price_paused_pars, min_by_bytes, first_min, smallest_paused_par,
}

-- A candidate that stands for a file, at a price of at least one block.
pub record Priced (f : FileEntry) (priced : List ParCandidate) : Type 0 where
  pub candidate : ParCandidate
  pub listed : In candidate priced
  pub named : candidate.id ≡ f.id
  pub sized : candidate.bytes ≡ file_bytes f.segments
  pub positive : 1 ≤ candidate.blocks

-- Neither the name nor the size prices the file, so it is listed without a price.
pub record Unpriced (f : FileEntry) (block_size : Option ℕ) (unpriceable : List FileId)
    : Type 0 where
  pub listed : In f.id unpriceable
  pub nameless : vol_par_blocks f.filename ≡ none
  pub sizeless : (block_size ≡ none) ⊎ (block_size ≡ some 0)

price_one :
    (f : FileEntry) (named block_size : Option ℕ) (priced : List ParCandidate)
    (unpriceable : List FileId)
    → named ≡ vol_par_blocks f.filename
    → let r =
        put_price f.id (price f (file_bytes f.segments) named block_size) (priced, unpriceable) in
      Priced f r.0 ⊎ Unpriced f block_size r.1
price_one f (some b) block_size priced unpriceable e = inl (record {
  candidate = record { id = f.id; blocks = _; bytes = file_bytes f.segments; estimated = false };
  listed = inl refl;
  named = refl;
  sized = refl;
  positive = omega arith;
})
price_one f none none priced unpriceable e =
    inr (record { listed = inl refl; nameless = sym e; sizeless = inl refl })
price_one f none (some zero) priced unpriceable e =
    inr (record { listed = inl refl; nameless = sym e; sizeless = inr refl })
price_one f none (some (suc b)) priced unpriceable e = inl (record {
  candidate = record { id = f.id; blocks = _; bytes = file_bytes f.segments; estimated = true };
  listed = inl refl;
  named = refl;
  sized = refl;
  positive = omega arith;
})

keep :
    (f : FileEntry) (block_size : Option ℕ) (id : FileId) (o : Option ParCandidate)
    (priced : List ParCandidate) (unpriceable : List FileId)
    → Priced f priced ⊎ Unpriced f block_size unpriceable
    → let r = put_price id o (priced, unpriceable) in Priced f r.0 ⊎ Unpriced f block_size r.1
keep f block_size id none priced unpriceable (inl p) = inl p
keep f block_size id none priced unpriceable (inr u) =
    inr (record { listed = inr u.listed; nameless = u.nameless; sizeless = u.sizeless })
keep f block_size id (some c) priced unpriceable (inl p) = inl (record {
  candidate = p.candidate;
  listed = inr p.listed;
  named = p.named;
  sized = p.sized;
  positive = p.positive;
})
keep f block_size id (some c) priced unpriceable (inr u) = inr u

price_files_lem :
    (block_size : Option ℕ) (l : List FileEntry) (f : FileEntry)
    → In f l
    → Priced f (price_files block_size l).0 ⊎ Unpriced f block_size (price_files block_size l).1
unfolding price_files
price_files_lem block_size [] f m = elim m [ ]
price_files_lem block_size (x ∷ rest) f (inl e) =
    subst
      (λ y.
        Priced y (price_files block_size (x ∷ rest)).0
        ⊎ Unpriced y block_size (price_files block_size (x ∷ rest)).1)
      (sym e)
      (price_one x (vol_par_blocks x.filename) block_size (price_files block_size rest).0
        (price_files block_size rest).1 refl)
price_files_lem block_size (x ∷ rest) f (inr m) =
    keep f block_size x.id _ _ _ (price_files_lem block_size rest f m)

put_price-length :
    (id : FileId) (o : Option ParCandidate) (priced : List ParCandidate) (unpriceable : List FileId)
    → let r = put_price id o (priced, unpriceable) in
      length r.0 + length r.1 ≡ suc (length priced + length unpriceable)
put_price-length id none priced unpriceable = omega arith
put_price-length id (some c) priced unpriceable = omega arith

price_files-length :
    (block_size : Option ℕ) (l : List FileEntry)
    → length (price_files block_size l).0 + length (price_files block_size l).1 ≡ length l
unfolding price_files
price_files-length block_size [] = omega arith
price_files-length block_size (x ∷ rest) =
    put_price-length x.id (price x (file_bytes x.segments) (vol_par_blocks x.filename) block_size)
      (price_files block_size rest).0 (price_files block_size rest).1
    ∙ ap suc (price_files-length block_size rest)

-- No paused par2 file of the job is dropped: it is priced, with its own size and at least one block,
-- or it is listed as unpriceable, and then its name states no count and the block size is unknown or 0.
-- The two lists together are as long as the list of the paused par2 files.
prices_every_file :
    (j : Job) (block_size : Option ℕ) (f : FileEntry)
    → In f j.files
    → f.paused ≡ true
    → f.is_par2 ≡ true
    → let r = price_paused_pars j block_size in
      (Priced f r.0 ⊎ Unpriced f block_size r.1)
      × (length r.0 + length r.1 ≡ length (select is_paused_par j.files))
unfolding price_paused_pars
prices_every_file j block_size f m p q = (
  price_files_lem block_size _ f (In-select is_paused_par j.files f m (ground arith)),
  price_files-length block_size _,
)

-- A file of those given, and none of them has fewer bytes.
abbrev Least : FileEntry → List FileEntry → FileEntry → Type 0
Least best l least =
    ((least ≡ best) ⊎ In least l)
    × (file_bytes least.segments ≤ file_bytes best.segments)
    × ((f : FileEntry) → In f l → file_bytes least.segments ≤ file_bytes f.segments)

Least-cons :
    (best x : FileEntry) (rest : List FileEntry) (least : FileEntry) (b : Bool)
    → ltb (file_bytes x.segments) (file_bytes best.segments) ≡ b
    → Least (if b then x else best) rest least
    → Least best (x ∷ rest) least
Least-cons best x rest least true e (m, k, h) = (
  elim m [ inl i ↦ inr (inl i) | inr i ↦ inr (inr i) ],
  ground arith,
  λ f n. elim n [
    | inl i ↦ ground (arith, ap (λ (y : FileEntry). file_bytes y.segments) i)
    | inr i ↦ h f i
  ],
)
Least-cons best x rest least false e (m, k, h) = (
  elim m [ inl i ↦ inl i | inr i ↦ inr (inr i) ],
  k,
  λ f n. elim n [
    | inl i ↦ ground (arith, ap (λ (y : FileEntry). file_bytes y.segments) i)
    | inr i ↦ h f i
  ],
)

min_by_bytes-Least : (best : FileEntry) (l : List FileEntry) → Least best l (min_by_bytes best l)
unfolding min_by_bytes
min_by_bytes-Least best [] = (inl refl, omega arith, λ f m. elim m [ ])
min_by_bytes-Least best (x ∷ rest) =
    let b = ltb (file_bytes x.segments) (file_bytes best.segments) in
    Least-cons best x rest _ b refl (min_by_bytes-Least (if b then x else best) rest)

-- The paused par2 file with the fewest bytes.
pub record Cheapest (files : List FileEntry) (id : FileId) : Type 0 where
  pub file : FileEntry
  pub listed : In file files
  pub named : file.id ≡ id
  pub cheapest : (f : FileEntry) → In f files → file_bytes file.segments ≤ file_bytes f.segments

-- The probe of last resort is there whenever any par2 file is paused, and it is one with the fewest
-- bytes of those.
probes-Cheapest :
    (j : Job)
    → ((smallest_paused_par j ≡ none) × (select is_paused_par j.files ≡ []))
      ⊎ ((id : FileId) × (smallest_paused_par j ≡ some id)
          × Cheapest (select is_paused_par j.files) id)
unfolding smallest_paused_par first_min
probes-Cheapest j = probe (select is_paused_par j.files)
  where
    probe :
        (l : List FileEntry)
        → ((first_min l ≡ none) × (l ≡ []))
          ⊎ ((id : FileId) × (first_min l ≡ some id) × Cheapest l id)
    probe [] = inl (refl, refl)
    probe (x ∷ rest) =
        let r = min_by_bytes-Least x rest in
        let least = min_by_bytes x rest in
        inr (
          least.id,
          refl,
          record {
            file = least;
            listed = r.0;
            named = refl;
            cheapest = λ f m. elim m [
              | inl e ↦ omega (arith, r.1, ap (λ (y : FileEntry). file_bytes y.segments) e)
              | inr i ↦ r.2 f i
            ];
          },
        )
