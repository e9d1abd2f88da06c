-- ===== src/Cluster/Election/Takeover.antt =====
-- crates/nzbd-cluster/src/election.rs: a candidate that no other node disturbs.
use nzbd.Prelude.{
  inl, inr, Bool-cases, ℕ, zero, suc, ◌+◌, ◌^◌, ◌<◌, ◌≡◌, refl, sym, ◌∙◌, ap, subst, Bool, true,
  false, ◌&&◌, none, some, if◌then◌else◌, bytes_eq_refl, arith,
}
use nzbd.Cluster.Election.{
  saw, observed, LeaderRecord, Phase, watching, staggering, Node, Moment, LeaseFile, own_record,
  at_phase, is_own, decide, notice, is_stale, follow, stagger, write_claim, verify, act_in, act,
  next_epoch, persist_guard,
}

-- A number of steps of one node alone.
pub alone : ℕ → Moment → LeaseFile → Node → Node × LeaseFile
alone zero m file n = (n, file)
alone (suc k) m file n = let (n', file') = act m file n in alone k m file' n'

-- The clock has run out, and writes succeed.
abbrev pub in_time : Moment
in_time = record { elapsed = true; write_ok = true }

record Elected (file : LeaseFile) (x : Node × LeaseFile) : Type 0 where
  office : x.0.im_leader ≡ true
  epoch : x.0.my_epoch ≡ next_epoch file
  guard : persist_guard x.1 x.0 ≡ true

candidate_wins :
    (file : LeaseFile) (n : Node) → Elected file (alone 4 in_time file (at_phase staggering n))
unfolding alone act stagger write_claim verify persist_guard
candidate_wins file n =
    let own : is_own (own_record (next_epoch file) 1 n) (next_epoch file) n ≡ true =
      ground (arith, bytes_eq_refl n.cfg.node) in
    record {
      office = rw (own, alone) refl;
      epoch = rw (own, alone) refl;
      guard = rw (own, alone) (ground (arith, bytes_eq_refl n.cfg.node));
    }

notice-kept : (file : LeaseFile) (n : Node) → (notice file n).cfg ≡ n.cfg
notice-kept none n = refl
notice-kept (some r) n = ground arith

-- A node whose record is stale.
stale_candidate :
    (file : LeaseFile) (n : Node)
    → n.phase ≡ watching
    → n.im_leader ≡ false
    → n.cfg.eligible ≡ true
    → is_stale file in_time n ≡ true
    → Elected file (alone 5 in_time file n)
unfolding alone act follow
stale_candidate file n p l e stale =
    let eligible : (notice file n).cfg.eligible ≡ true =
      ap (λ c. c.eligible) (notice-kept file n) ∙ e in
    let first : act in_time file n ≡ (at_phase staggering (notice file n), file) =
      ap (λ (q : Phase). act_in q in_time file n) p
      ∙ ap (λ (b : Bool). (if b then decide file n else follow in_time file n, file)) l
      ∙ ap
          (λ (b : Bool). (
            if b && (notice file n).cfg.eligible
                then at_phase staggering (notice file n)
                else notice file n,
            file,
          ))
          stale
      ∙ ap (λ (b : Bool). (if b then at_phase staggering (notice file n) else notice file n, file))
          eligible in
    let same : alone 5 in_time file n ≡ alone 4 in_time file (at_phase staggering (notice file n)) =
      ap (λ (x : Node × LeaseFile). alone 4 in_time x.1 x.0) first in
    subst (Elected file) (sym same) (candidate_wins file (notice file n))

-- A node that has just come upon a record waits.
first_sight :
    (r : LeaderRecord) (n : Node)
    → n.phase ≡ watching
    → n.im_leader ≡ false
    → saw n.last_seen r ≡ false
    → act in_time (some r) n ≡ (observed r n, some r)
unfolding act follow
first_sight r n p l unseen =
    ap (λ (q : Phase). act_in q in_time (some r) n) p
    ∙ ap (λ (b : Bool). (if b then decide (some r) n else follow in_time (some r) n, some r)) l
    ∙ rw unseen refl

alone-suc :
    (k : ℕ) (m : Moment) (file : LeaseFile) (n : Node)
    → alone (suc k) m file n ≡ alone k m (act m file n).1 (act m file n).0
unfolding alone
alone-suc k m file n = refl

-- One step more where the node has not seen the file's record.
abbrev pub patience : LeaseFile → Node → ℕ
patience none n = 5
patience (some r) n = if saw n.last_seen r then 5 else 6

candidate-Elected :
    (file : LeaseFile) (n : Node)
    → n.phase ≡ watching
    → n.im_leader ≡ false
    → n.cfg.eligible ≡ true
    → Elected file (alone (patience file n) in_time file n)
candidate-Elected none n p l e = stale_candidate none n p l e refl
candidate-Elected (some r) n p l e = elim (Bool-cases (saw n.last_seen r)) [
  | inl t ↦
      let k : patience (some r) n ≡ 5 = rw t refl in
      subst (λ i. Elected (some r) (alone i in_time (some r) n)) (sym k)
        (stale_candidate (some r) n p l e (rw t refl))
  | inr f ↦
      let k : patience (some r) n ≡ 6 = rw f refl in
      let seen : is_stale (some r) in_time (observed r n) ≡ true = ground arith in
      let one : alone 6 in_time (some r) n ≡ alone 5 in_time (some r) (observed r n) =
        alone-suc 5 in_time (some r) n
        ∙ ap (λ (x : Node × LeaseFile). alone 5 in_time x.1 x.0) (first_sight r n p l f) in
      subst (λ i. Elected (some r) (alone i in_time (some r) n)) (sym k)
        (subst (Elected (some r)) (sym one) (stale_candidate (some r) (observed r n) p l e seen))
]

-- A candidate on its own takes office: an eligible node that follows, whose takeover time and stagger
-- run out and whose writes succeed while no other node writes, holds office after five steps, or after
-- six where it has yet to see the record in the file, whatever that record says, and its guard passes;
-- its epoch is one more than the file's, or 1 without a file, and so a later one, for an epoch below
-- the largest `u64`.
pub lone_candidate_takes_office :
    (file : LeaseFile) (n : Node)
    → n.phase ≡ watching
    → n.im_leader ≡ false
    → n.cfg.eligible ≡ true
    → let x = alone (patience file n) in_time file n in
      (x.0.im_leader ≡ true)
      × (persist_guard x.1 x.0 ≡ true)
      × (x.0.my_epoch ≡ next_epoch file)
      × ((r : LeaderRecord) → file ≡ some r → r.epoch + 1 < 2 ^ 64 → r.epoch < x.0.my_epoch)
lone_candidate_takes_office file n p l e =
    let w = candidate-Elected file n p l e in
    (w.office, w.guard, w.epoch, λ r f b. later r f b w.epoch)
  where
    later :
        {m : ℕ} (r : LeaderRecord)
        → file ≡ some r
        → r.epoch + 1 < 2 ^ 64
        → m ≡ next_epoch file
        → r.epoch < m
    later r f b q = let q' = rw f at q in ground (arith, q', b)
