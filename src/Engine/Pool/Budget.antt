-- ===== src/Engine/Pool/Budget.antt =====
-- crates/nzbd-engine/src/pool.rs: a budget is taken up by as many connections as are expected.
use nzbd.Prelude.{
  ℕ, ◌≤◌, ◌≡◌, inl, inr, refl, sym, subst, ◌∙◌, Bool, true, List, [], ◌∷◌, arith, In, In-any, All,
  All-from_In, Bool-cases, any, select, length, ◌==◌,
}
use nzbd.Prelude.Maps.{Distinct}
use nzbd.Engine.Pool.{
  Connection, same_connection, Seen, BudgetTracker, new_tracker, put_connection, note, acknowledge,
  seen_of, is_ready,
}

-- What the connections acknowledged, the newest last: a generation and a connection each.
unfoldable pub acknowledge_all : List (ℕ × Connection) → BudgetTracker → BudgetTracker
acknowledge_all [] t = t
acknowledge_all (a ∷ more) t = acknowledge_all more (acknowledge a.0 a.1 t)

-- Of distinct connections, each of which acknowledged the generation.
abbrev Sound : List (ℕ × Connection) → ℕ × List Connection → Type 0
Sound acks e = Distinct e.1 × All (λ c. In (e.0, c) acks) e.1

same_connection_refl : (c : Connection) → same_connection c c ≡ true
same_connection_refl c = ground arith

module _ (acks : List (ℕ × Connection)) where
  put_connection-Sound :
      (g : ℕ) (c : Connection) (l : List Connection)
      → In (g, c) acks
      → Sound acks (g, l)
      → Sound acks (g, put_connection c l)
  unfolding put_connection
  put_connection-Sound g c l m s = elim (Bool-cases (any (same_connection c) l)) [
    | inl t ↦ rw t s
    | inr f ↦ rw f (
      (λ n. absurd (cc (sym f ∙ In-any (same_connection c) l c n (same_connection_refl c))), s.0),
      (m, s.1),
    )
  ]

  note-Sound :
      (g : ℕ) (c : Connection) (m : Seen)
      → In (g, c) acks
      → All (Sound acks) m
      → All (Sound acks) (note g c m)
  unfolding note
  note-Sound g c [] i s = (put_connection-Sound g c [] i (tt, tt), tt)
  note-Sound g c ((k, l) ∷ m) i s =
      let r = note-Sound g c m i s.1 in
      elim (Bool-cases (k == g)) [
        | inl t ↦
            let e : g ≡ k = ground arith in
            rw t (put_connection-Sound k c l (subst (λ x. In (x, c) acks) e i) s.0, s.1)
        | inr f ↦ rw f (s.0, r)
      ]

  select-Sound :
      (p : ℕ × List Connection → Bool) (m : Seen)
      → All (Sound acks) m
      → All (Sound acks) (select p m)
  select-Sound p [] s = tt
  select-Sound p (e ∷ m) s =
      let r = select-Sound p m s.1 in
      elim (Bool-cases (p e)) [ inl t ↦ rw t (s.0, r) | inr f ↦ rw f r ]

  acknowledge_all-Sound :
      (more : List (ℕ × Connection)) (t : BudgetTracker)
      → All (λ a. In a acks) more
      → All (Sound acks) t.seen
      → All (Sound acks) (acknowledge_all more t).seen
        × ((acknowledge_all more t).expected ≡ t.expected)
  unfolding acknowledge_all acknowledge
  acknowledge_all-Sound [] t h s = (s, refl)
  acknowledge_all-Sound (a ∷ more) t h s =
      acknowledge_all-Sound more (acknowledge a.0 a.1 t) h.1
        (select-Sound _ _ (note-Sound a.0 a.1 t.seen h.0 s))

  seen_of-Sound : (g : ℕ) (m : Seen) → All (Sound acks) m → Sound acks (g, seen_of g m)
  unfolding seen_of
  seen_of-Sound g [] s = (tt, tt)
  seen_of-Sound g ((k, l) ∷ m) s =
      let r = seen_of-Sound g m s.1 in
      elim (Bool-cases (k == g)) [
        | inl t ↦ let e : k ≡ g = ground arith in rw t (subst (λ x. Sound acks (x, l)) e s.0)
        | inr f ↦ rw f r
      ]

-- A generation counts as taken up only when as many distinct connections as are expected acknowledged
-- it: none counts twice, and none counts for another generation.
pub ready_when_taken_up :
    (expected generation : ℕ) (acks : List (ℕ × Connection))
    → is_ready generation (acknowledge_all acks (new_tracker expected)) ≡ true
    → (l : List Connection) × Distinct l
      × All (λ c. In (generation, c) acks) l
      × (expected ≤ length l)
unfolding is_ready
ready_when_taken_up expected generation acks h =
    let t = acknowledge_all acks (new_tracker expected) in
    let r =
      acknowledge_all-Sound acks acks (new_tracker expected) (All-from_In _ acks (λ a m. m)) tt in
    let s = seen_of-Sound acks generation t.seen r.0 in
    let e = r.1 in (seen_of generation t.seen, s.0, s.1, ground (arith, e, h))
