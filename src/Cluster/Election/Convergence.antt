-- ===== src/Cluster/Election/Convergence.antt =====
-- crates/nzbd-cluster/src/election.rs: two nodes that both hold office, and a candidate on its own.
use nzbd.Prelude.{
  ℕ, ◌<◌, ◌≤◌, ◌≡◌, refl, sym, ◌∙◌, ap, subst, inl, inr, ◌⊎◌, Bool, true, false, not, ◌&&◌, Option,
  none, some, if◌then◌else◌, leb, bytes_eq, bytes_eq_comm, arith, Bool-cases,
}
use nzbd.Cluster.Election.{
  LeaderRecord, Phase, watching, renewing, reasserting, Node, Moment, LeaseFile, own_record,
  at_phase, observed, is_own, decide, follow, write_own, act_in, act,
}

-- A leader's round that no other node interrupts: the read, and the write.
unfoldable pub round : Moment → LeaseFile → Node → Node × LeaseFile
round m file n = let (n', file') = act m file n in act m file' n'

-- A leader between two rounds.
pub record AtRest (n : Node) : Type 0 where
  pub office : n.im_leader ≡ true
  pub top : n.phase ≡ watching

-- The leader goes on, at rest and at its epoch, and the file names it so; or it has stepped down.
record GoesOn (n n' : Node) (file : LeaseFile) : Type 0 where
  rest : AtRest n'
  same_cfg : n'.cfg ≡ n.cfg
  same_epoch : n'.my_epoch ≡ n.my_epoch
  lease : LeaderRecord
  written : file ≡ some lease
  named : lease.node ≡ n.cfg.node
  at_epoch : lease.epoch ≡ n.my_epoch

write_own-GoesOn :
    (m : Moment) (seq : ℕ) (last : Option LeaderRecord) (file : LeaseFile) (p : Phase) (n : Node)
    → n.im_leader ≡ true
    → GoesOn n
        (write_own m seq last file (at_phase p n)).0
        (write_own m seq last file (at_phase p n)).1
      ⊎ ((write_own m seq last file (at_phase p n)).0.im_leader ≡ false)
unfolding write_own
write_own-GoesOn m seq last file p n l = elim (Bool-cases m.write_ok) [
  | inr f ↦ rw (f, write_own) (inr refl)
  | inl t ↦
      rw (t, write_own)
        (inl (record {
          rest = record { office = l; top = refl };
          same_cfg = refl;
          same_epoch = refl;
          lease = own_record n.my_epoch seq n;
          written = refl;
          named = refl;
          at_epoch = refl;
        }))
]

follow-office :
    (m : Moment) (file : LeaseFile) (n : Node) → (follow m file n).im_leader ≡ n.im_leader
unfolding follow
follow-office m none n = ground arith
follow-office m (some r) n = ground arith

act-leader :
    (m : Moment) (file : LeaseFile) (n : Node) → AtRest n → act m file n ≡ (decide file n, file)
unfolding act
act-leader m file n r =
    ap (λ (p : Phase). act_in p m file n) r.top
    ∙ ap (λ (b : Bool). (if b then decide file n else follow m file n, file)) r.office

act-follower :
    (m : Moment) (file : LeaseFile) (n : Node)
    → n.phase ≡ watching
    → n.im_leader ≡ false
    → (act m file n).0.im_leader ≡ false
unfolding act
act-follower m file n p l =
    ap (λ (q : Phase). (act_in q m file n).0.im_leader) p
    ∙ ap (λ (b : Bool). (if b then decide file n else follow m file n).im_leader) l
    ∙ follow-office m file n
    ∙ l

round-AtRest :
    (m : Moment) (file : LeaseFile) (n : Node)
    → AtRest n
    → round m file n ≡ act m file (decide file n)
unfolding round
round-AtRest m file n r = ap (λ (x : Node × LeaseFile). act m x.1 x.0) (act-leader m file n r)

-- How a round of a leader ends.
abbrev Ends : Node → Node × LeaseFile → Type 0
Ends n x = GoesOn n x.0 x.1 ⊎ (x.0.im_leader ≡ false)

act-decide-Ends :
    (m : Moment) (file : LeaseFile) (n : Node) → AtRest n → Ends n (act m file (decide file n))
unfolding act decide
act-decide-Ends m none n r = write_own-GoesOn m 1 none none reasserting n r.office
act-decide-Ends m (some l) n r = elim (Bool-cases (is_own l n.my_epoch n)) [
  | inl t ↦ rw (t, decide) (write_own-GoesOn m _ (some l) (some l) (renewing l) n r.office)
  | inr f ↦ elim (Bool-cases (leb n.my_epoch l.epoch && not (bytes_eq l.node n.cfg.node))) [
    | inl t ↦
        rw (f, decide)
          (rw t (
            inr (act-follower m (some l) (observed l (record n { im_leader = false })) r.top refl)))
    | inr u ↦ rw (f, decide) (rw u (write_own-GoesOn m 1 none (some l) reasserting n r.office))
  ]
]

round-Ends : (m : Moment) (file : LeaseFile) (n : Node) → AtRest n → Ends n (round m file n)
round-Ends m file n r = subst (Ends n) (sym (round-AtRest m file n r)) (act-decide-Ends m file n r)

-- A file that names another node, at the leader's epoch or a later one, ends its office.
deposed_by :
    (m : Moment) (n : Node) (l : LeaderRecord)
    → AtRest n
    → n.my_epoch ≤ l.epoch
    → bytes_eq l.node n.cfg.node ≡ false
    → (round m (some l) n).0.im_leader ≡ false
unfolding decide
deposed_by m n l r later other =
    let f : is_own l n.my_epoch n ≡ false = ground (arith, other) in
    let t : leb n.my_epoch l.epoch && not (bytes_eq l.node n.cfg.node) ≡ true =
      ground (arith, other, later) in
    let e : decide (some l) n ≡ observed l (record n { im_leader = false }) =
      rw (f, decide) (rw t refl) in
    ap (λ (x : Node × LeaseFile). x.0.im_leader) (round-AtRest m (some l) n r)
    ∙ ap (λ (x : Node). (act m (some l) x).0.im_leader) e
    ∙ act-follower m (some l) (observed l (record n { im_leader = false })) r.top refl

-- Two nodes of different names that both believe to hold office, whatever the file says: where each
-- of them still does after a round of the first and then of the second, each a read and a write that
-- no other node interrupts, the second's epoch is the later one, and the next round of the first ends
-- its office.
pub two_leaders_converge :
    (m1 m2 m3 : Moment) (file : LeaseFile) (a b : Node)
    → AtRest a
    → AtRest b
    → bytes_eq a.cfg.node b.cfg.node ≡ false
    → let x = round m1 file a in
      let y = round m2 x.1 b in
      x.0.im_leader ≡ true
      → y.0.im_leader ≡ true
      → (a.my_epoch < b.my_epoch) × ((round m3 y.1 x.0).0.im_leader ≡ false)
two_leaders_converge m1 m2 m3 file a b ra rb names la lb = elim (round-Ends m1 file a ra) [
  | inr over ↦ absurd (ground (arith, over, la))
  | inl ga ↦ elim (round-Ends m2 (round m1 file a).1 b rb) [
    | inr over ↦ absurd (ground (arith, over, lb))
    | inl gb ↦
        let apart : bytes_eq ga.lease.node b.cfg.node ≡ false = rw ga.named names in
        elim (Bool-cases (leb b.my_epoch a.my_epoch)) [
          | inl t ↦
              let d = deposed_by m2 b ga.lease rb (ground (arith, t, ga.at_epoch)) apart in
              let d' =
                subst (λ (f : LeaseFile). (round m2 f b).0.im_leader ≡ false) (sym ga.written) d in
              absurd (ground (arith, d', lb))
          | inr f ↦
              let sooner : a.my_epoch < b.my_epoch = ground (arith, f) in
              let apart' : bytes_eq gb.lease.node (round m1 file a).0.cfg.node ≡ false =
                rw gb.named (rw ga.same_cfg (bytes_eq_comm b.cfg.node a.cfg.node ∙ names)) in
              (
                sooner,
                subst (λ (g : LeaseFile). (round m3 g (round m1 file a).0).0.im_leader ≡ false)
                    (sym gb.written)
                    (deposed_by m3 (round m1 file a).0 gb.lease ga.rest
                      (ground (arith, sooner, gb.at_epoch, ga.same_epoch)) apart'),
              )
        ]
  ]
]
