-- ===== src/Cluster/Election.antt =====
-- crates/nzbd-cluster/src/election.rs: the election of a leader over the lease file of the shared
-- volume. A node acts in atomic steps, each of which reads or writes the file once, so that the steps
-- of several nodes interleave anywhere between a read and the write that follows it. The local clocks
-- and the outcome of a write are answers of the moment; cancellation is left out.

pub mod Office
pub mod Convergence
pub mod Takeover
mod Scenarios
use nzbd.Prelude.{
  ℕ, zero, suc, ◌+◌, ◌%◌, ◌^◌, Bool, true, false, not, ◌&&◌, List, [], ◌∷◌, map, Option, none, some,
  if◌then◌else◌, leb, ◌==◌, bytes_eq, unwrap_or,
}
use nzbd.Types.Torrent.{Text}

pub record LeaderRecord : Type 0 where
  pub epoch : ℕ
  pub node : Text
  pub api_url : Text
  pub seq : ℕ

pub record LeaderView : Type 0 where
  pub latest : Option LeaderRecord
  pub is_me : Bool

abbrev pub view_epoch : LeaderView → ℕ
view_epoch v = elim v.latest [ none ↦ 0 | some r ↦ r.epoch ]

-- The fields of `ElectionCfg` that decide; its intervals and priority only set the clocks.
pub record ElectionCfg : Type 0 where
  pub node : Text
  pub api_url : Text
  pub eligible : Bool

-- Where `election_task` stands: at the top of its loop, before the write of a renewal or of a
-- reassertion, in the staggered candidacy, before its last read, before the write of the claim to an
-- epoch, and before the verification of it.
pub data Phase : Type 0 where
  watching : Phase
  renewing : LeaderRecord → Phase
  reasserting staggering reading_current : Phase
  claiming verifying : ℕ → Phase

-- The variables of `election_task`, with the view that it publishes.
pub record Node : Type 0 where
  pub cfg : ElectionCfg
  pub phase : Phase
  pub im_leader : Bool
  pub my_epoch : ℕ
  pub last_seen : Option (ℕ × ℕ)
  pub view : LeaderView

-- Whether the clock has run out (the takeover time, or the stagger's deadline), and whether a write
-- succeeds.
pub record Moment : Type 0 where
  pub elapsed : Bool
  pub write_ok : Bool

-- The lease file, when it can be read.
abbrev pub LeaseFile : Type 0
LeaseFile = Option LeaderRecord

abbrev pub publish : Option LeaderRecord → Bool → Node → Node
publish r is_me n = record n { view = record { latest = r; is_me = is_me } }

abbrev pub own_record : ℕ → ℕ → Node → LeaderRecord
own_record epoch seq n = record {
  epoch = epoch;
  node = n.cfg.node;
  api_url = n.cfg.api_url;
  seq = seq;
}

abbrev pub at_phase : Phase → Node → Node
at_phase p n = record n { phase = p }

-- `last_seen`, and the view of a follower.
abbrev pub observed : LeaderRecord → Node → Node
observed r n = publish (some r) false (record n { last_seen = some (r.epoch, r.seq) })

abbrev pub is_own : LeaderRecord → ℕ → Node → Bool
is_own r epoch n = bytes_eq r.node n.cfg.node && r.epoch == epoch

-- The leader's three cases: to renew, to step down, to reassert.
unfoldable pub decide : LeaseFile → Node → Node
decide none n = at_phase reasserting n
decide (some r) n =
    if is_own r n.my_epoch n
    then at_phase (renewing r) n
    else if leb n.my_epoch r.epoch && not (bytes_eq r.node n.cfg.node)
    then observed r (record n { im_leader = false })
    else at_phase reasserting n

abbrev pub saw : Option (ℕ × ℕ) → LeaderRecord → Bool
saw none r = false
saw (some s) r = s.0 == r.epoch && s.1 == r.seq

abbrev pub notice : LeaseFile → Node → Node
notice none n = n
notice (some r) n = if saw n.last_seen r then n else observed r n

-- A record that was not seen before sets `last_change` anew, and the takeover time is two seconds at
-- least (crates/nzbd/src/main.rs), so that it is not stale at once.
abbrev pub is_stale : LeaseFile → Moment → Node → Bool
is_stale none m n = true
is_stale (some r) m n = saw n.last_seen r && m.elapsed

unfoldable pub follow : Moment → LeaseFile → Node → Node
follow m file n =
    let n' = notice file n in
    if is_stale file m n && n'.cfg.eligible then at_phase staggering n' else n'

-- One round of the stagger: the deadline, or a look for a leader that came first.
unfoldable pub stagger : Moment → LeaseFile → Node → Node
stagger m file n = if m.elapsed then at_phase reading_current n else elim file [
  | none ↦ n
  | some r ↦ if saw n.last_seen r then n else at_phase watching (observed r n)
]

abbrev pub next_epoch : LeaseFile → ℕ
next_epoch none = 1
next_epoch (some r) = (r.epoch + 1) % 2 ^ 64

-- `Ok` and `Err` of the leader's write.
unfoldable pub write_own : Moment → ℕ → Option LeaderRecord → LeaseFile → Node → Node × LeaseFile
write_own m seq last file n =
    let written = own_record n.my_epoch seq n in
    if m.write_ok
    then (at_phase watching (publish (some written) true n), some written)
    else (at_phase watching (publish last false (record n { im_leader = false })), file)

unfoldable pub write_claim : Moment → ℕ → LeaseFile → Node → Node × LeaseFile
write_claim m epoch file n =
    if m.write_ok
    then (at_phase (verifying epoch) n, some (own_record epoch 1 n))
    else (at_phase watching n, file)

unfoldable pub verify : ℕ → LeaseFile → Node → Node
verify epoch none n = at_phase watching n
verify epoch (some r) n =
    if is_own r epoch n
    then at_phase watching (publish (some r) true (record n { im_leader = true; my_epoch = epoch }))
    else at_phase watching (observed r n)

abbrev pub act_in : Phase → Moment → LeaseFile → Node → Node × LeaseFile
act_in watching m file n = (if n.im_leader then decide file n else follow m file n, file)
act_in (renewing r) m file n = write_own m ((r.seq + 1) % 2 ^ 64) (some r) file n
act_in reasserting m file n = write_own m 1 none file n
act_in staggering m file n = (stagger m file n, file)
act_in reading_current m file n = (at_phase (claiming (next_epoch file)) n, file)
act_in (claiming epoch) m file n = write_claim m epoch file n
act_in (verifying epoch) m file n = (verify epoch file n, file)

-- One atomic step of `election_task`.
unfoldable pub act : Moment → LeaseFile → Node → Node × LeaseFile
act m file n = act_in n.phase m file n

-- The guard that the leader's engine asks before every rename of a snapshot.
unfoldable pub persist_guard : LeaseFile → Node → Bool
persist_guard file n =
    if n.view.is_me
    then elim file [
      | none ↦ false
      | some r ↦ bytes_eq r.node n.cfg.node && r.epoch == view_epoch n.view
    ]
    else false

-- The nodes of the cluster, and their file.
pub record Cluster : Type 0 where
  pub nodes : List Node
  pub file : LeaseFile

-- A step of one node, by its place, or the loss of the file.
pub data Event : Type 0 where
  acts : ℕ → Moment → Event
  lost : Event

abbrev pub nodes_after : ℕ → Moment → LeaseFile → List Node → List Node × LeaseFile
nodes_after i m file [] = ([], file)
nodes_after zero m file (n ∷ ns) = let (n', file') = act m file n in (n' ∷ ns, file')
nodes_after (suc i) m file (n ∷ ns) = let (ns', file') = nodes_after i m file ns in (n ∷ ns', file')

unfoldable pub happen : Event → Cluster → Cluster
happen (acts i m) c =
    let (ns, file) = nodes_after i m c.file c.nodes in record { nodes = ns; file = file }
happen lost c = record c { file = none }

-- A history of the cluster.
unfoldable pub run : List Event → Cluster → Cluster
run [] c = c
run (e ∷ es) c = run es (happen e c)

-- The locals that `election_task` starts with.
abbrev pub new_node : ElectionCfg → Node
new_node cfg = record {
  cfg = cfg;
  phase = watching;
  im_leader = false;
  my_epoch = 0;
  last_seen = none;
  view = record { latest = none; is_me = false };
}

abbrev pub new_cluster : List ElectionCfg → LeaseFile → Cluster
new_cluster cfgs file = record { nodes = map new_node cfgs; file = file }
