-- ===== src/Cluster/Election/Office.antt =====
-- crates/nzbd-cluster/src/election.rs: whose guard passes.
use nzbd.Prelude.{
  ℕ, zero, suc, ◌≡◌, refl, sym, ◌∙◌, ap, inl, inr, Bool, true, false, not, ◌&&◌, List, [], ◌∷◌,
  Option, none, some, if◌then◌else◌, leb, bytes_eq, bytes_eq-eq, arith, Bool-cases, All, All-of_In,
  In, map,
}
use nzbd.Cluster.Election.{
  LeaderRecord, view_epoch, ElectionCfg, Phase, watching, renewing, reasserting, staggering,
  reading_current, claiming, verifying, Node, Moment, LeaseFile, is_own, decide, saw, notice,
  is_stale, follow, stagger, write_own, write_claim, verify, act_in, act, persist_guard, new_node,
  new_cluster, Cluster, Event, acts, lost, nodes_after, happen, run,
}

-- The phases of a leader's write, and of a candidacy.
abbrev leads : Phase → Bool
leads (renewing r) = true
leads reasserting = true
leads _ = false

abbrev runs_for_office : Phase → Bool
runs_for_office staggering = true
runs_for_office reading_current = true
runs_for_office (claiming e) = true
runs_for_office (verifying e) = true
runs_for_office _ = false

-- What a node publishes is the office that it holds.
pub record InOffice (n : Node) : Type 0 where
  pub told : n.view.is_me ≡ n.im_leader
  pub epoch_told : n.im_leader ≡ true → view_epoch n.view ≡ n.my_epoch
  pub leader_writes : leads n.phase ≡ true → n.im_leader ≡ true
  pub candidate_waits : runs_for_office n.phase ≡ true → n.im_leader ≡ false

-- A follower at the top of the loop.
follower-InOffice :
    (n : Node) → n.view.is_me ≡ false → n.im_leader ≡ false → leads n.phase ≡ false → InOffice n
follower-InOffice n v l p = record {
  told = v ∙ sym l;
  epoch_told = λ t. ground (arith, l, t);
  leader_writes = λ t. ground (arith, p, t);
  candidate_waits = λ t. l;
}

-- A leader in one of a leader's phases.
leader-InOffice :
    (n : Node)
    → n.view.is_me ≡ true
    → n.im_leader ≡ true
    → view_epoch n.view ≡ n.my_epoch
    → runs_for_office n.phase ≡ false
    → InOffice n
leader-InOffice n v l e p = record {
  told = v ∙ sym l;
  epoch_told = λ t. e;
  leader_writes = λ t. l;
  candidate_waits = λ t. ground (arith, p, t);
}

either : (P : Node → Type 0) (b : Bool) (x y : Node) → P x → P y → P (if b then x else y)
either P true x y h k = h
either P false x y h k = k

by_test :
    (P : Node → Type 0) (b : Bool) (x y : Node)
    → (b ≡ true → P x)
    → (b ≡ false → P y)
    → P (if b then x else y)
by_test P true x y h k = h refl
by_test P false x y h k = k refl

decide-InOffice :
    (file : LeaseFile) (n : Node)
    → n.phase ≡ watching
    → n.im_leader ≡ true
    → InOffice n
    → InOffice (decide file n)
unfolding decide
decide-InOffice none n p l h = leader-InOffice _ (h.told ∙ l) l (h.epoch_told l) refl
decide-InOffice (some r) n p l h =
    either InOffice (is_own r n.my_epoch n) _ _
      (leader-InOffice _ (h.told ∙ l) l (h.epoch_told l) refl)
      (either InOffice (leb n.my_epoch r.epoch && not (bytes_eq r.node n.cfg.node)) _ _
        (follower-InOffice _ refl refl (ap leads p))
        (leader-InOffice _ (h.told ∙ l) l (h.epoch_told l) refl))

notice-InOffice :
    (file : LeaseFile) (n : Node)
    → leads n.phase ≡ false
    → n.im_leader ≡ false
    → InOffice n
    → InOffice (notice file n) × ((notice file n).im_leader ≡ false)
notice-InOffice none n p l h = (h, l)
notice-InOffice (some r) n p l h =
    either (λ x. InOffice x × (x.im_leader ≡ false)) (saw n.last_seen r) _ _ (h, l)
      (follower-InOffice _ refl l p, l)

follow-InOffice :
    (m : Moment) (file : LeaseFile) (n : Node)
    → n.phase ≡ watching
    → n.im_leader ≡ false
    → InOffice n
    → InOffice (follow m file n)
unfolding follow
follow-InOffice m file n p l h =
    let (k, l') = notice-InOffice file n (ap leads p) l h in
    either InOffice (is_stale file m n && (notice file n).cfg.eligible) _ _
      (follower-InOffice _ (k.told ∙ l') l' refl) k

stagger-InOffice :
    (m : Moment) (file : LeaseFile) (n : Node)
    → n.im_leader ≡ false
    → InOffice n
    → InOffice (stagger m file n)
unfolding stagger
stagger-InOffice m none n l h =
    either InOffice m.elapsed _ _ (follower-InOffice _ (h.told ∙ l) l refl) h
stagger-InOffice m (some r) n l h =
    either InOffice m.elapsed _ _ (follower-InOffice _ (h.told ∙ l) l refl)
      (either InOffice (saw n.last_seen r) _ _ h (follower-InOffice _ refl l refl))

pair_either :
    (P : Node → Type 0) (b : Bool) (x y : Node × LeaseFile)
    → P x.0
    → P y.0
    → P (if b then x else y).0
pair_either P true x y h k = h
pair_either P false x y h k = k

write_own-InOffice :
    (m : Moment) (seq : ℕ) (last : Option LeaderRecord) (file : LeaseFile) (n : Node)
    → n.im_leader ≡ true
    → InOffice (write_own m seq last file n).0
unfolding write_own
write_own-InOffice m seq last file n l = elim (Bool-cases m.write_ok) [
  | inl t ↦ rw (t, write_own) (leader-InOffice _ refl l refl refl)
  | inr f ↦ rw (f, write_own) (follower-InOffice _ refl refl refl)
]

write_claim-InOffice :
    (m : Moment) (epoch : ℕ) (file : LeaseFile) (n : Node)
    → n.im_leader ≡ false
    → InOffice n
    → InOffice (write_claim m epoch file n).0
unfolding write_claim
write_claim-InOffice m epoch file n l h =
    pair_either InOffice m.write_ok _ _ (follower-InOffice _ (h.told ∙ l) l refl)
      (follower-InOffice _ (h.told ∙ l) l refl)

verify-InOffice :
    (epoch : ℕ) (file : LeaseFile) (n : Node)
    → n.im_leader ≡ false
    → InOffice n
    → InOffice (verify epoch file n)
unfolding verify
verify-InOffice epoch none n l h = follower-InOffice _ (h.told ∙ l) l refl
verify-InOffice epoch (some r) n l h = elim (Bool-cases (is_own r epoch n)) [
  | inl t ↦
      let e : r.epoch ≡ epoch = ground (arith, t) in
      rw (t, verify) (leader-InOffice _ refl refl e refl)
  | inr f ↦ rw (f, verify) (follower-InOffice _ refl l refl)
]

act_in-InOffice :
    (p : Phase) (m : Moment) (file : LeaseFile) (n : Node)
    → n.phase ≡ p
    → InOffice n
    → InOffice (act_in p m file n).0
act_in-InOffice watching m file n e h =
    by_test InOffice n.im_leader _ _ (λ t. decide-InOffice file n e t h)
      (λ f. follow-InOffice m file n e f h)
act_in-InOffice (renewing r) m file n e h =
    write_own-InOffice m _ _ file n (h.leader_writes (ap leads e))
act_in-InOffice reasserting m file n e h =
    write_own-InOffice m 1 none file n (h.leader_writes (ap leads e))
act_in-InOffice staggering m file n e h =
    stagger-InOffice m file n (h.candidate_waits (ap runs_for_office e)) h
act_in-InOffice reading_current m file n e h =
    let l = h.candidate_waits (ap runs_for_office e) in follower-InOffice _ (h.told ∙ l) l refl
act_in-InOffice (claiming epoch) m file n e h =
    write_claim-InOffice m epoch file n (h.candidate_waits (ap runs_for_office e)) h
act_in-InOffice (verifying epoch) m file n e h =
    verify-InOffice epoch file n (h.candidate_waits (ap runs_for_office e)) h

nodes_after-InOffice :
    (i : ℕ) (m : Moment) (file : LeaseFile) (ns : List Node)
    → All InOffice ns
    → All InOffice (nodes_after i m file ns).0
unfolding act
nodes_after-InOffice i m file [] h = tt
nodes_after-InOffice zero m file (n ∷ ns) h = (act_in-InOffice n.phase m file n refl h.0, h.1)
nodes_after-InOffice (suc i) m file (n ∷ ns) h = (h.0, nodes_after-InOffice i m file ns h.1)

run-InOffice :
    (es : List Event) (c : Cluster) → All InOffice c.nodes → All InOffice (run es c).nodes
unfolding run happen
run-InOffice [] c h = h
run-InOffice (acts i m ∷ es) c h = run-InOffice es _ (nodes_after-InOffice i m c.file c.nodes h)
run-InOffice (lost ∷ es) c h = run-InOffice es _ h

new_nodes-InOffice : (cfgs : List ElectionCfg) → All InOffice (map new_node cfgs)
new_nodes-InOffice [] = tt
new_nodes-InOffice (cfg ∷ cfgs) =
    (follower-InOffice (new_node cfg) refl refl refl, new_nodes-InOffice cfgs)

-- A guard that passes: the file names the node at the epoch of the office that it holds.
record Passed (file : LeaseFile) (n : Node) : Type 0 where
  office : n.im_leader ≡ true
  lease : LeaderRecord
  read : file ≡ some lease
  named : lease.node ≡ n.cfg.node
  at_epoch : lease.epoch ≡ n.my_epoch

persist_guard-Passed :
    (file : LeaseFile) (n : Node) → InOffice n → persist_guard file n ≡ true → Passed file n
unfolding persist_guard
persist_guard-Passed none n h g = absurd (ground (arith, g))
persist_guard-Passed (some r) n h g =
    let is_me : n.view.is_me ≡ true = ground (arith, g) in
    let name : bytes_eq r.node n.cfg.node ≡ true = ground (arith, g) in
    let epoch : r.epoch ≡ view_epoch n.view = ground (arith, g) in
    let l = sym h.told ∙ is_me in
    record {
      office = l;
      lease = r;
      read = refl;
      named = bytes_eq-eq r.node n.cfg.node name;
      at_epoch = epoch ∙ h.epoch_told l;
    }

-- Whatever the nodes of a cluster have done since they started, in whatever order their reads and
-- writes of the lease file fell, whichever writes failed and however often the file was lost: the
-- guards that pass at one moment belong to one name, each of a node that holds office, at one epoch.
pub one_office_passes :
    (cfgs : List ElectionCfg) (file : LeaseFile) (es : List Event) (a b : Node)
    → In a (run es (new_cluster cfgs file)).nodes
    → In b (run es (new_cluster cfgs file)).nodes
    → persist_guard (run es (new_cluster cfgs file)).file a ≡ true
    → persist_guard (run es (new_cluster cfgs file)).file b ≡ true
    → (a.cfg.node ≡ b.cfg.node)
      × (a.im_leader ≡ true)
      × (b.im_leader ≡ true)
      × (a.my_epoch ≡ b.my_epoch)
one_office_passes cfgs file es a b ma mb ga gb =
    let c = run es (new_cluster cfgs file) in
    let h = run-InOffice es (new_cluster cfgs file) (new_nodes-InOffice cfgs) in
    let p = persist_guard-Passed c.file a (All-of_In InOffice c.nodes h a ma) ga in
    let q = persist_guard-Passed c.file b (All-of_In InOffice c.nodes h b mb) gb in
    let same : some p.lease ≡ some q.lease = sym p.read ∙ q.read in
    let name : p.lease.node ≡ q.lease.node = ground (arith, same) in
    let epoch : p.lease.epoch ≡ q.lease.epoch = ground (arith, same) in
    (sym p.named ∙ name ∙ q.named, p.office, q.office, sym p.at_epoch ∙ epoch ∙ q.at_epoch)
