-- ===== src/Cluster/Tests.antt =====
-- The cluster: tests of the master and of the calls, and their theorems on a small configuration.
use my_cluster.Common.{
  Bool, true, false, List, [], ◌∷◌, ◌≡◌, refl, some, arith, lookup, insert, nat_eq, string_eq,
  String, has_key,
}
use my_cluster.Cluster.Conf.{ClusterServerConf, ClusterConf, get_remotes_by_name, wants, UniqueKeys}
use my_cluster.Cluster.ChildMgr.{Childs}
use my_cluster.Cluster.Master.{Master, new_master, add_node, connection_lost, take_proxy}
use my_cluster.Cluster.Master.Told.{has_link}
use my_cluster.Cluster.Master.Links.{MasterEvent, takes_proxy, run, step, start, run_links}
use my_cluster.Cluster.Master.Loss.{drops_reconnected}

abbrev server : String → List String → ClusterServerConf
server name remotes = record {
  name = name;
  host = "localhost";
  root_port = 9999;
  udp_port = 0;
  net_port = 0;
  remotes = remotes;
  module_name = "";
  log = "";
}

-- A gate, and a game node that connects to it.
abbrev pub two_nodes : ClusterConf
two_nodes = record {
  master = server "master" [];
  servers = ("gate1", server "gate1" []) ∷ ("game1", server "game1" ("gate1" ∷ [])) ∷ [];
}

-- The game node is first, so that it is told of the gate by a notice.
abbrev both_online : List MasterEvent
both_online = takes_proxy "game1" 1 ∷ takes_proxy "gate1" 2 ∷ []

game_online : has_key "game1" (run (start two_nodes) both_online).master.online_nodes ≡ true
unfolding run step take_proxy new_master add_node insert lookup
game_online = refl

gate_online : has_key "gate1" (run (start two_nodes) both_online).master.online_nodes ≡ true
unfolding run step take_proxy new_master add_node insert lookup
gate_online = refl

game_wants : wants two_nodes "game1" "gate1" ≡ true
unfolding get_remotes_by_name lookup
game_wants = refl

run_links_example : has_link "game1" "gate1" (run (start two_nodes) both_online).told ≡ true
run_links_example =
    run_links two_nodes both_online "game1" "gate1" game_online gate_online game_wants

abbrev game_master : Master
game_master = add_node "game1" 1 (new_master two_nodes)

drops_reconnected_example :
    let m' = add_node "game1" 2 (add_node "game1" 1 (new_master two_nodes)) in
    (lookup "game1" m'.childs ≡ some (record { name = "game1"; conn = 2 }))
    × (has_key "game1" (connection_lost 1 m').childs ≡ false)
    × (has_key "game1" (connection_lost 1 m').online_nodes ≡ false)
drops_reconnected_example =
    drops_reconnected (new_master two_nodes) "game1" 1 2 (λ e. omega (arith, e))

abbrev game_child : Childs
game_child = ("game1", record { name = "game1"; conn = 1 }) ∷ []

abbrev gate_online_nodes : List (String × Bool)
gate_online_nodes = ("gate1", true) ∷ []

abbrev two_gates : List String
two_gates = "gate1" ∷ "gate2" ∷ []

two_nodes-UniqueKeys : UniqueKeys two_nodes.servers
unfolding lookup
two_nodes-UniqueKeys = (refl, (refl, tt))
