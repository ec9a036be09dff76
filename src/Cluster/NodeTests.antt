-- ===== src/Cluster/NodeTests.antt =====
-- The side of a node: the theorems on a small cluster.
use my_cluster.Common.{ℕ, ◌≡◌, refl, ◌&&◌, ◌||◌, [], Option, some, String, has_key, string_eq}
use my_cluster.Cluster.Conf.{wants}
use my_cluster.Cluster.Master.{new_master, take_proxy}
use my_cluster.Cluster.Node.{Node, done, connected_to_master}
use my_cluster.Cluster.Node.Remotes.{Reaches, is_configured}
use my_cluster.Cluster.Node.Join.{response_of, join_lem}
use my_cluster.Cluster.Tests.{two_nodes}

abbrev game : Node
game = record {
  name = "game1";
  cconf = two_nodes;
  remote_nodes_mgr = [];
  childs_mgr = [];
  remote_property = [];
  child_property = [];
  proxies_sent = [];
}

abbrev pub dial_seven : Node → String → Option ℕ
dial_seven n rname = some 7

pub dial_seven-Reaches : Reaches dial_seven
dial_seven-Reaches n rname = refl

join_lem_example :
    let r = take_proxy "game1" 1 (new_master two_nodes) in
    (n' : Node) × (connected_to_master dial_seven (response_of r.1) game ≡ done n')
    × ((p : String)
        → has_key p n'.remote_nodes_mgr ≡ (
            ((wants (new_master two_nodes).cconf "game1" p && has_key p r.0.online_nodes)
              && is_configured p game)
            || has_key p game.remote_nodes_mgr))
join_lem_example = join_lem dial_seven game 1 (new_master two_nodes) dial_seven-Reaches
