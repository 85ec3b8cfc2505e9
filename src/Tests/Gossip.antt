-- ===== src/Tests/Gossip.antt =====
-- Runs of the membership code on a gossip library that answers with fixed lists.
use diynamo.Base.{
  ℕ, ◌≤◌, codes, length, replicate, true, false, ok, err, Error, some, Result, List, [], ◌∷◌, ◌≡◌,
  refl, Bytes,
}
use diynamo.Config.{SocketAddr, ClusterMember}
use diynamo.Cluster.Ring.{from_roster}
use diynamo.Coordinator.Create.{Created, new, new_on, new-once}
use diynamo.Tests.Fixtures.{listed, roster}
use diynamo.Cluster.Delegate.{NodeMeta, node_meta}
use diynamo.Cluster.Membership.{
  NodeState, Memberlist, partly_joined, GossipNode, subscribe, take_subscriber,
}

abbrev pub addr : SocketAddr
addr = record { ip = codes "h"; port = 7946 }

abbrev pub meta : NodeMeta
meta = record { uuid = replicate 16 7; http_port = 8080 }

abbrev pub state : NodeState
state = record { id = codes "a"; addr = addr; meta = node_meta ok meta 512 }

-- The handle and the subscriber are 1 and 2; one seed of two answers.
abbrev pub one_seed : Memberlist ℕ ℕ ℕ
one_seed = record {
  with_delegate = λ id bind m w. (ok (1, 2), w);
  join_many = λ h seeds w. (partly_joined (addr ∷ []), w);
  online_members = λ h w. (state ∷ [], w);
  members = λ h w. (state ∷ [], w);
  leave = λ h ms w. (ok true, w);
  shutdown = λ h w. (ok tt, w);
}

abbrev pub node : GossipNode ℕ ℕ
node = record {
  inner = 1;
  node_id = codes "a";
  gossip_bind = addr;
  event_sub = record { poisoned = false; value = some 2 };
}

-- A coordinator of three members on that gossip node.
abbrev created : Created (List Bytes) ℕ ℕ
created = new listed (ok tt) node (codes "a") roster 2 2 2 1

new-once_example :
    (2 ≤ length roster)
    × (node.event_sub.value ≡ some 2)
    × ((http' : Result (Unit {0})) (self_id' : Bytes) (roster' : List ClusterMember)
          (n' w' r' vnodes' : ℕ)
        → (x : Error) × ((new listed http' created.1 self_id' roster' n' w' r' vnodes').0 ≡ err x))
unfolding new new_on subscribe take_subscriber from_roster
new-once_example = new-once listed (ok tt) node (codes "a") roster 2 2 2 1 _ _ refl
