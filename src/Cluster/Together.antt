-- ===== src/Cluster/Together.antt =====
-- clusterserver with sys_rpc: the master and its nodes together. The answers and notices of the
-- master travel as messages, each a pair of the node that it goes to and the remote that it names,
-- and arrive in any order; a node that takes its proxy is a new process with no connections, and
-- the others see at any time that their connections to the old one are lost.
pub mod OnWay
pub mod Joins
pub mod Delivery
pub mod Connected
pub mod Restart
use my_cluster.Common.{
  ℕ, zero, suc, List, [], ◌∷◌, ◌++◌, Option, none, some, String, lookup, insert, delete, string_eq,
}
use my_cluster.Cluster.Conf.{ClusterConf}
use my_cluster.Cluster.Master.{take_proxy}
use my_cluster.Cluster.Master.Told.{Links, notice_links, reply_links}
use my_cluster.Cluster.Master.Links.{Cluster, MasterEvent, takes_proxy, loses, step, start}
use my_cluster.Cluster.Node.{Node, Result, done, panics, root_take_proxy, cc_connection_lost}

pub record Whole : Type 0 where
  pub cluster : Cluster
  pub nodes : List (String × Node)
  pub in_flight : Links

pub data WholeEvent : Type 0 where
  -- A node takes its proxy on a connection; the master loses a connection; a node sees that a
  -- connection to a remote is lost; a message arrives.
  joins : String → ℕ → WholeEvent
  master_loses : ℕ → WholeEvent
  remote_lost : String → ℕ → WholeEvent
  delivers : ℕ → WholeEvent

abbrev pub new_node : String → ClusterConf → Node
new_node name cconf = record {
  name = name;
  cconf = cconf;
  remote_nodes_mgr = [];
  childs_mgr = [];
  remote_property = [];
  child_property = [];
  proxies_sent = [];
}

-- The messages that a call of `TakeProxy` makes.
unfoldable pub messages : String → ℕ → Cluster → Links
messages name fconn s =
    let reply = (take_proxy name fconn s.master).1 in
    reply_links name reply.roots ++ notice_links name reply.notices

-- The message of a place in the list, and the others.
unfoldable pub take_out : ℕ → Links → Option ((String × String) × Links)
take_out i [] = none
take_out zero (m ∷ ms) = some (m, ms)
take_out (suc i) (m ∷ ms) = elim (take_out i ms) [
  | none ↦ none
  | some (x, rest) ↦ some (x, m ∷ rest)
]

-- A node that panics is gone.
unfoldable pub node_after : String → Result → List (String × Node) → List (String × Node)
node_after name (done n) nodes = insert name n nodes
node_after name panics nodes = delete name nodes

unfoldable pub after_remote_loss :
    String → ℕ → Option Node → List (String × Node) → List (String × Node)
after_remote_loss c conn none nodes = nodes
after_remote_loss c conn (some n) nodes = insert c (cc_connection_lost conn n) nodes

module _ (dial : Node → String → Option ℕ) where
  unfoldable pub deliver_to :
      String → String → Option Node → List (String × Node) → List (String × Node)
  deliver_to c p none nodes = nodes
  deliver_to c p (some n) nodes = node_after c (root_take_proxy dial p n) nodes

  unfoldable pub delivered : Option ((String × String) × Links) → Whole → Whole
  delivered none s = s
  delivered (some ((c, p), rest)) s = record s {
    nodes = deliver_to c p (lookup c s.nodes) s.nodes;
    in_flight = rest;
  }

  unfoldable pub whole_step : WholeEvent → Whole → Whole
  whole_step (joins name fconn) s = record {
    cluster = step s.cluster (takes_proxy name fconn);
    nodes = insert name (new_node name s.cluster.master.cconf) s.nodes;
    in_flight = s.in_flight ++ messages name fconn s.cluster;
  }
  whole_step (master_loses fconn) s = record s { cluster = step s.cluster (loses fconn) }
  whole_step (remote_lost c conn) s = record s {
    nodes = after_remote_loss c conn (lookup c s.nodes) s.nodes;
  }
  whole_step (delivers i) s = delivered (take_out i s.in_flight) s

  abbrev pub whole_run : List WholeEvent → Whole → Whole
  whole_run [] s = s
  whole_run (e ∷ es) s = whole_run es (whole_step e s)

abbrev pub nobody : ClusterConf → Whole
nobody conf = record { cluster = start conf; nodes = []; in_flight = [] }
