-- ===== src/Cluster/Election/Scenarios.antt =====
-- The election between two nodes.
use nzbd.Prelude.{
  ℕ, ◌+◌, ◌<◌, ◌^◌, ◌≡◌, refl, inl, true, false, List, [], ◌∷◌, none, some, In, bytes_eq,
}
use nzbd.Cluster.Election.{
  LeaderRecord, ElectionCfg, Node, watching, Event, acts, lost, act, decide, follow, stagger,
  write_own, write_claim, verify, persist_guard, happen, run, new_node, new_cluster, next_epoch,
}
use nzbd.Cluster.Election.Office.{one_office_passes}
use nzbd.Cluster.Election.Convergence.{round, two_leaders_converge}
use nzbd.Cluster.Election.Takeover.{alone, in_time, lone_candidate_takes_office}

abbrev cfg_of : ℕ → ElectionCfg
cfg_of name = record { node = name ∷ []; api_url = []; eligible = true }

abbrev cfgs : List ElectionCfg
cfgs = cfg_of 97 ∷ cfg_of 98 ∷ []

-- The first node is elected, the file is lost, and it writes itself in again.
abbrev history : List Event
history =
    acts 0 in_time
    ∷ acts 0 in_time
    ∷ acts 1 in_time
    ∷ acts 0 in_time
    ∷ acts 0 in_time
    ∷ acts 0 in_time
    ∷ lost
    ∷ acts 0 in_time
    ∷ acts 0 in_time
    ∷ []

abbrev in_charge : LeaderRecord
in_charge = record { epoch = 1; node = 97 ∷ []; api_url = []; seq = 1 }

abbrev leader : Node
leader = record {
  cfg = cfg_of 97;
  phase = watching;
  im_leader = true;
  my_epoch = 1;
  last_seen = none;
  view = record { latest = some in_charge; is_me = true };
}

runs : Unit {0}
unfolding run happen act decide follow stagger write_own write_claim verify persist_guard bytes_eq
    round
runs = tt

leader_listed : In leader (run history (new_cluster cfgs none)).nodes
unfolding runs
leader_listed = inl refl

leader_passes : persist_guard (run history (new_cluster cfgs none)).file leader ≡ true
unfolding runs
leader_passes = refl

one_office_passes_example :
    (leader.cfg.node ≡ leader.cfg.node)
    × (leader.im_leader ≡ true)
    × (leader.im_leader ≡ true)
    × (leader.my_epoch ≡ leader.my_epoch)
one_office_passes_example =
    one_office_passes cfgs none history leader leader leader_listed leader_listed leader_passes
      leader_passes

-- The second node has taken office at a later epoch, but a delayed renewal of the first is in the file.
abbrev rival : Node
rival = record {
  cfg = cfg_of 98;
  phase = watching;
  im_leader = true;
  my_epoch = 2;
  last_seen = none;
  view = record { latest = none; is_me = true };
}

leader_goes_on : (round in_time (some in_charge) leader).0.im_leader ≡ true
unfolding runs
leader_goes_on = refl

rival_goes_on : (round in_time (round in_time (some in_charge) leader).1 rival).0.im_leader ≡ true
unfolding runs
rival_goes_on = refl

names_differ : bytes_eq leader.cfg.node rival.cfg.node ≡ false
unfolding runs
names_differ = refl

two_leaders_converge_example :
    (1 < 2)
    × ((round in_time
          (round in_time (round in_time (some in_charge) leader).1 rival).1
          (round in_time (some in_charge) leader).0).0.im_leader
        ≡ false)
two_leaders_converge_example =
    two_leaders_converge in_time in_time in_time (some in_charge) leader rival
      (record { office = refl; top = refl }) (record { office = refl; top = refl }) names_differ
      leader_goes_on rival_goes_on

lone_candidate_takes_office_example :
    let x = alone 6 in_time (some in_charge) (new_node (cfg_of 98)) in
    (x.0.im_leader ≡ true)
    × (persist_guard x.1 x.0 ≡ true)
    × (x.0.my_epoch ≡ next_epoch (some in_charge))
    × ((r : LeaderRecord) → some in_charge ≡ some r → r.epoch + 1 < 2 ^ 64 → r.epoch < x.0.my_epoch)
lone_candidate_takes_office_example =
    lone_candidate_takes_office (some in_charge) (new_node (cfg_of 98)) refl refl refl
