-- ===== src/Cluster/Range/Assembly/Settling.antt =====
-- crates/nzbd-cluster/src/range.rs: the states that the parts give to the articles of the file.
use nzbd.Prelude.{
  ◌∙◌, ap, map, ℕ, ◌≡◌, refl, sym, subst, inl, inr, true, not, List, [], ◌∷◌, some, arith,
  Bool-cases, ◌==◌, In, select-In, In-select,
}
use nzbd.Prelude.Sort.{stable_sort, stable_sort-In, In-stable_sort}
use nzbd.Types.Job.{Segment, SegmentState}
use nzbd.Cluster.Range.Assembly.{
  ok, Part, state_of, without_part, settle_segments, starts_before, no_range,
}
use nzbd.Cluster.Range.Assembly.Steps.{>>=-eq-ok, ok_or-eq}

state_of-In :
    (parts : List Part) (n : ℕ) (s : SegmentState)
    → state_of parts n ≡ some s
    → (p : Part) × In p parts × (p.number ≡ n) × (p.state ≡ s)
state_of-In [] n s e = absurd (ground (arith, e))
state_of-In (p ∷ l) n s e = elim (Bool-cases (p.number == n)) [
  | inl t ↦
      let e' : some p.state ≡ some s = rw t at e in
      (p, inl refl, ground (arith, t), ground (arith, e'))
  | inr f ↦ let r = state_of-In l n s (rw f at e) in (r.0, inr r.1, r.2, r.3)
]

-- The articles of a settled file and the parts are the same, number for number and state for state.
abbrev pub IsSettled : List Part → List Segment → Type 0
IsSettled parts segments =
    ((s : Segment)
      → In s segments
      → (p : Part) × In p parts × (p.number ≡ s.number) × (p.state ≡ s.state))
    × ((p : Part) → In p parts → (s : Segment) × In s segments × (s.number ≡ p.number))

pub settle_segments-IsSettled :
    (parts : List Part) (l segments : List Segment)
    → settle_segments parts l ≡ ok segments
    → IsSettled parts segments
unfolding settle_segments
settle_segments-IsSettled [] [] segments e =
    let same : [] ≡ segments = ground (arith, e) in
    subst (IsSettled []) same (λ s m. elim m [ ], λ p m. elim m [ ])
settle_segments-IsSettled (p ∷ parts) [] segments e = absurd (ground (arith, e))
settle_segments-IsSettled parts (s ∷ l) segments e =
    let (state, e1, r1) = ok_or-eq (state_of parts s.number) no_range _ segments e in
    let (rest, e2, r2) =
      >>=-eq-ok (settle_segments (without_part s.number parts) l)
        (λ (m : List Segment). ok (record s { state = state } ∷ m)) segments r1 in
    let same : record s { state = state } ∷ rest ≡ segments = ground (arith, r2) in
    let h = settle_segments-IsSettled (without_part s.number parts) l rest e2 in
    subst (IsSettled parts) same (into state rest e1 h, from state rest h)
  where
    into :
        (state : SegmentState) (rest : List Segment)
        → state_of parts s.number ≡ some state
        → IsSettled (without_part s.number parts) rest
        → (u : Segment) → In u (record s { state = state } ∷ rest)
        → (p : Part) × In p parts × (p.number ≡ u.number) × (p.state ≡ u.state)
    into state rest e1 h u (inl e) =
        subst
          (λ (x : Segment). (p : Part) × In p parts × (p.number ≡ x.number) × (p.state ≡ x.state))
          (sym e) (state_of-In parts s.number state e1)
    into state rest e1 h u (inr m) =
        let r = h.0 u m in
        (r.0, (select-In (λ (p : Part). not (p.number == s.number)) parts r.0 r.1).0, r.2, r.3)

    from :
        (state : SegmentState) (rest : List Segment)
        → IsSettled (without_part s.number parts) rest
        → (p : Part) → In p parts
        → (u : Segment) × In u (record s { state = state } ∷ rest) × (u.number ≡ p.number)
    from state rest h p m = elim (Bool-cases (p.number == s.number)) [
      | inl t ↦ (record s { state = state }, inl refl, ground (arith, t))
      | inr f ↦
          let k : not (p.number == s.number) ≡ true = rw f refl in
          let r = h.1 p (In-select (λ (q : Part). not (q.number == s.number)) parts p m k) in
          (r.0, inr r.1, r.2)
    ]

-- A settled file has the articles that it had.
abbrev pub numbers : List Segment → List ℕ
numbers = map λ (s : Segment). s.number

pub numbers-settle_segments :
    (parts : List Part) (l segments : List Segment)
    → settle_segments parts l ≡ ok segments
    → numbers segments ≡ numbers l
unfolding settle_segments
numbers-settle_segments [] [] segments e =
    let same : [] ≡ segments = ground (arith, e) in ap numbers (sym same)
numbers-settle_segments (p ∷ parts) [] segments e = absurd (ground (arith, e))
numbers-settle_segments parts (s ∷ l) segments e =
    let (state, e1, r1) = ok_or-eq (state_of parts s.number) no_range _ segments e in
    let (rest, e2, r2) =
      >>=-eq-ok (settle_segments (without_part s.number parts) l)
        (λ (m : List Segment). ok (record s { state = state } ∷ m)) segments r1 in
    let same : record s { state = state } ∷ rest ≡ segments = ground (arith, r2) in
    ap numbers (sym same)
    ∙ ap (λ m. s.number ∷ m) (numbers-settle_segments (without_part s.number parts) l rest e2)

pub sorted-IsSettled :
    (parts : List Part) (segments : List Segment)
    → IsSettled parts segments
    → IsSettled (stable_sort starts_before parts) segments
sorted-IsSettled parts segments h = (
  λ s m. let r = h.0 s m in (r.0, In-stable_sort starts_before parts r.0 r.1, r.2, r.3),
  λ p m. h.1 p (stable_sort-In starts_before parts p m),
)
