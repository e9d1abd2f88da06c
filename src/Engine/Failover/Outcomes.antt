-- ===== src/Engine/Failover/Outcomes.antt =====
-- crates/nzbd-engine/src/failover.rs: what an attempt's outcome changes, over a whole history.
use nzbd.Prelude.{
  ℕ, suc, ◌+◌, ◌-◌, ◌*◌, ◌≤◌, ◌<◌, ◌≡◌, ◌≢◌, ◌⊎◌, inl, inr, refl, sym, ◌∙◌, subst, ap, Bool, true,
  false, not, ◌&&◌, ◌==◌, List, [], ◌∷◌, Option, arith, In, Bool-cases, member, ltb, member-In,
  In-member, In-any, length, select,
}
use nzbd.Types.Server.{ServerDef}
use nzbd.Engine.Failover.{
  Ladder, SegmentAttempt, AttemptOutcome, success, connection_failed, article_missing, crc_error,
  retention_exceeded, other, next_server, insert, on_outcome, current_candidates, is_group_failed,
}
use nzbd.Engine.Failover.Offers.{Serves, climb_keeps}

-- What can happen to a segment's attempt: the engine asks for servers, or reports an outcome.
pub data Step (l : Ladder) (att : SegmentAttempt) : SegmentAttempt → Type 0 where
  ask :
      (is_blocked : ℕ → Bool) (age : Option ℕ)
      → Step l att (current_candidates l att is_blocked age).0
  report : (s : ℕ) (o : AttemptOutcome) → Step l att (on_outcome att s o).0

pub data Reach (l : Ladder) (att : SegmentAttempt) : SegmentAttempt → Type 0 where
  here : Reach l att att
  next : {a b : SegmentAttempt} → Reach l att a → Step l a b → Reach l att b

-- The same server, or one of its group: same tier and same group, other than group 0.
abbrev pub Peer : ServerDef → ServerDef → Type 0
Peer s p = (p.id ≡ s.id) ⊎ ((p.tier ≡ s.tier) × (p.group ≡ s.group) × (s.group ≢ 0))

insert-keeps : (s i : ℕ) (l : List ℕ) → In i l → In i (insert s l)
unfolding insert
insert-keeps s i l m = elim (Bool-cases (member s l)) [
  | inl t ↦ rw (t, insert) m
  | inr f ↦ rw (f, insert) (inr m)
]

insert-In : (s : ℕ) (l : List ℕ) → In s (insert s l)
unfolding insert
insert-In s l = elim (Bool-cases (member s l)) [
  | inl t ↦ rw (t, insert) (member-In s l t)
  | inr f ↦ rw (f, insert) (inl refl)
]

on_outcome-keeps :
    (att : SegmentAttempt) (s i : ℕ) (o : AttemptOutcome)
    → In i att.failed
    → In i (on_outcome att s o).0.failed
unfolding on_outcome
on_outcome-keeps att s i success m = m
on_outcome-keeps att s i connection_failed m = m
on_outcome-keeps att s i article_missing m = insert-keeps s i att.failed m
on_outcome-keeps att s i crc_error m = insert-keeps s i att.failed m
on_outcome-keeps att s i retention_exceeded m = insert-keeps s i att.failed m
on_outcome-keeps att s i other m = ground (arith, insert-keeps s i att.failed m)

next_server-fails :
    (att : SegmentAttempt) (s : ℕ) (o : AttemptOutcome)
    → (on_outcome att s o).1 ≡ next_server
    → In s (on_outcome att s o).0.failed
unfolding on_outcome
next_server-fails att s success e = absurd (ground arith)
next_server-fails att s connection_failed e = absurd (ground arith)
next_server-fails att s article_missing e = insert-In s att.failed
next_server-fails att s crc_error e = insert-In s att.failed
next_server-fails att s retention_exceeded e = insert-In s att.failed
next_server-fails att s other e = ground (arith, insert-In s att.failed)

current_candidates-failed :
    (l : Ladder) (att : SegmentAttempt) (is_blocked : ℕ → Bool) (age : Option ℕ)
    → (current_candidates l att is_blocked age).0.failed ≡ att.failed
unfolding current_candidates
current_candidates-failed l att is_blocked age = (climb_keeps l is_blocked age _ att).0

Step-keeps :
    (l : Ladder) (i : ℕ) {a b : SegmentAttempt} → Step l a b → In i a.failed → In i b.failed
Step-keeps l i {a} (ask is_blocked age) m =
    subst (In i) (sym (current_candidates-failed l a is_blocked age)) m
Step-keeps l i {a} (report s o) m = on_outcome-keeps a s i o m

Reach-keeps :
    (l : Ladder) (i : ℕ) {a b : SegmentAttempt} → Reach l a b → In i a.failed → In i b.failed
Reach-keeps l i here m = m
Reach-keeps l i (next r st) m = Step-keeps l i st (Reach-keeps l i r m)

Peer-failed :
    (l : Ladder) (att : SegmentAttempt) (s p : ServerDef)
    → In s l.servers
    → Peer s p
    → In s.id att.failed
    → is_group_failed l att p ≡ true
unfolding is_group_failed
Peer-failed l att s p listed (inl e) m =
    let t = In-member p.id att.failed (subst (λ i. In i att.failed) (sym e) m) in ground (arith, t)
Peer-failed l att s p listed (inr (e, g, n)) m =
    let t =
      In-any (λ o. o.tier == p.tier && o.group == p.group && member o.id att.failed) l.servers s
        listed (ground (arith, In-member s.id att.failed m)) in
    ground (arith, t)

-- Once an outcome has failed a listed server for an article, then, whatever is asked and reported
-- afterwards, neither that server nor any server of its group can serve the segment again, at any
-- tier, for any blocks and any age.
pub failed_never-Serves :
    (l : Ladder) (att later : SegmentAttempt) (s p : ServerDef) (o : AttemptOutcome)
    (is_blocked : ℕ → Bool) (age : Option ℕ)
    → In s l.servers
    → Peer s p
    → (on_outcome att s.id o).1 ≡ next_server
    → Reach l (on_outcome att s.id o).0 later
    → ¬ Serves l (current_candidates l later is_blocked age).0 age p
failed_never-Serves l att later s p o is_blocked age listed peer e r v =
    let m = Reach-keeps l s.id (next r (ask is_blocked age)) (next_server-fails att s.id o e) in
    cc (sym (Peer-failed l _ s p listed peer m) ∙ v.group_alive)

-- A row of outcomes that are neither a success nor a connection failure, each reported of a listed
-- server that had not failed yet, with any questions in between; `n` counts the reports.
pub data Ordeal (l : Ladder) : SegmentAttempt → ℕ → Type 0 where
  stop : {att : SegmentAttempt} → Ordeal l att 0
  asks :
      {att : SegmentAttempt} {n : ℕ} (is_blocked : ℕ → Bool) (age : Option ℕ)
      → Ordeal l (current_candidates l att is_blocked age).0 n
      → Ordeal l att n
  reports :
      {att : SegmentAttempt} {n : ℕ} (s : ServerDef) (o : AttemptOutcome)
      → In s l.servers
      → member s.id att.failed ≡ false
      → o ≢ success
      → o ≢ connection_failed
      → Ordeal l (on_outcome att s.id o).0 n
      → Ordeal l att (suc n)

-- How many configured servers have not failed.
abbrev pub alive : List ServerDef → List ℕ → ℕ
alive l failed = length (select (λ s. not (member s.id failed)) l)

abbrev pub budget : Ladder → SegmentAttempt → ℕ
budget l att = alive l.servers att.failed * (att.initial_retries + 1) + att.retries_left

alive-cons-le : (l : List ServerDef) (i : ℕ) (f : List ℕ) → alive l (i ∷ f) ≤ alive l f
alive-cons-le [] i f = omega arith
alive-cons-le (x ∷ l) i f = ground (arith, alive-cons-le l i f)

alive-cons-lt :
    (l : List ServerDef) (s : ServerDef) (f : List ℕ)
    → In s l
    → member s.id f ≡ false
    → alive l (s.id ∷ f) < alive l f
alive-cons-lt [] s f m h = elim m [ ]
alive-cons-lt (x ∷ l) s f (inl e) h =
    let e' = ap (λ (y : ServerDef). y.id) e in
    let h' = subst (λ i. member i f ≡ false) e' h in ground (arith, e', h', alive-cons-le l s.id f)
alive-cons-lt (x ∷ l) s f (inr m) h = ground (arith, alive-cons-lt l s f m h)

insert-fresh : (s : ℕ) (f : List ℕ) → member s f ≡ false → insert s f ≡ s ∷ f
unfolding insert
insert-fresh s f h = rw h refl

-- The fall of the budget when a fresh server fails, with the retries `r` and those after it `r'`.
budget_fall : (a a' k r r' : ℕ) → a' < a → r' < r + k + 1 → a' * (k + 1) + r' < a * (k + 1) + r
budget_fall a a' k r r' h g = grind (arith, mul-le a' a k)
  where
    mul-le : (a' a k : ℕ) → a' < a → (a' + 1) * (k + 1) ≤ a * (k + 1)
    mul-le a' a k h = grind arith

report-budget :
    (l : Ladder) (att : SegmentAttempt) (s : ServerDef) (o : AttemptOutcome)
    → In s l.servers
    → member s.id att.failed ≡ false
    → o ≢ success
    → o ≢ connection_failed
    → budget l (on_outcome att s.id o).0 < budget l att
unfolding on_outcome
report-budget l att s success m h ns nc = absurd (ns refl)
report-budget l att s connection_failed m h ns nc = absurd (nc refl)
report-budget l att s article_missing m h ns nc = rw (insert-fresh s.id att.failed h) (
    budget_fall _ _ att.initial_retries _ _ (alive-cons-lt l.servers s att.failed m h)
      (omega arith))
report-budget l att s crc_error m h ns nc = rw (insert-fresh s.id att.failed h) (
    budget_fall _ _ att.initial_retries _ _ (alive-cons-lt l.servers s att.failed m h)
      (omega arith))
report-budget l att s retention_exceeded m h ns nc = rw (insert-fresh s.id att.failed h) (
    budget_fall _ _ att.initial_retries _ _ (alive-cons-lt l.servers s att.failed m h)
      (omega arith))
report-budget l att s other m h ns nc = elim (Bool-cases (ltb 1 att.retries_left)) [
  | inl t ↦ rw t (ground arith)
  | inr f ↦
      rw (f, insert-fresh s.id att.failed h)
        (budget_fall _ _ att.initial_retries _ _ (alive-cons-lt l.servers s att.failed m h)
          (omega arith))
]

budget-eq :
    (l : Ladder) (a b : SegmentAttempt)
    → a.failed ≡ b.failed
    → a.retries_left ≡ b.retries_left
    → a.initial_retries ≡ b.initial_retries
    → budget l a ≡ budget l b
budget-eq l a b e f g = rw (e, f, g) refl

current_candidates-budget :
    (l : Ladder) (att : SegmentAttempt) (is_blocked : ℕ → Bool) (age : Option ℕ)
    → budget l (current_candidates l att is_blocked age).0 ≡ budget l att
unfolding current_candidates
current_candidates-budget l att is_blocked age =
    let k = climb_keeps l is_blocked age (suc (l.max_tier - att.tier)) att in
    budget-eq l (current_candidates l att is_blocked age).0 att k.0 k.1 k.2

-- The ladder cannot retry an article for ever: of an article's outcomes that are neither a success nor
-- a lost connection, each of a configured server that had not failed yet, with any questions between
-- them, there are no more than the budget, which is for each configured server that has not failed the
-- initial retries plus one, and the retries that are left now.
pub Ordeal-le-budget :
    (l : Ladder) {att : SegmentAttempt} {n : ℕ} → Ordeal l att n → n ≤ budget l att
Ordeal-le-budget l stop = omega arith
Ordeal-le-budget l {att} (asks is_blocked age rest) =
    omega (arith, Ordeal-le-budget l rest, current_candidates-budget l att is_blocked age)
Ordeal-le-budget l {att} (reports s o listed fresh ns nc rest) =
    omega (arith, Ordeal-le-budget l rest, report-budget l att s o listed fresh ns nc)
