-- ===== src/Cluster/TogetherTests.antt =====
-- The master and its nodes together: the theorem on a small cluster.
use my_cluster.Common.{
  ◌⊎◌, ◌++◌, false, nat_eq, ◌≡◌, refl, true, List, [], ◌∷◌, some, has_key, is_some, lookup, insert,
  string_eq,
}
use my_cluster.Cluster.Conf.{wants, get_remotes_by_name}
use my_cluster.Cluster.Node.{
  add_remote, dialled, get_remote, Node, root_take_proxy, connect_to_remote, connect_configured,
  connect_new,
}
use my_cluster.Cluster.ChildMgr.{Child, get_child, Childs, add_child, remove_child, get_childs}
use my_cluster.Cluster.Master.Shutdown.{NamesGate, AllGates, NoGates, times, shutdown, shutdown_lem}
use my_cluster.Cluster.Together.Restart.{notice_race}
use my_cluster.Cluster.Master.{
  take_proxy, new_master, add_node, notified, is_among, roots_for, online_roots,
}
use my_cluster.Cluster.Master.Told.{reply_links, notice_links, root_links, forget}
use my_cluster.Cluster.Master.Links.{step}
use my_cluster.Cluster.Tests.{two_nodes}
use my_cluster.Cluster.NodeTests.{dial_seven, dial_seven-Reaches}
use my_cluster.Cluster.Together.{
  Whole, remote_lost, new_node, WholeEvent, joins, delivers, whole_run, nobody, whole_step,
  messages, take_out, delivered, deliver_to, node_after,
}
use my_cluster.Cluster.Together.Connected.{whole_run-connected}

-- The game comes up, then the gate, and the notice to the game arrives.
abbrev both_join : List WholeEvent
both_join = joins "game1" 1 ∷ joins "gate1" 2 ∷ delivers 0 ∷ []

both_join-arrived : (whole_run dial_seven both_join (nobody two_nodes)).in_flight ≡ []
unfolding whole_step step take_proxy new_master add_node insert lookup add_child get_childs notified
    is_among get_remotes_by_name messages reply_links notice_links root_links roots_for online_roots
    take_out delivered deliver_to root_take_proxy connect_to_remote connect_configured connect_new
    node_after forget
both_join-arrived = refl

game_is_online :
    has_key "game1" (whole_run dial_seven both_join (nobody two_nodes)).cluster.master.online_nodes
    ≡ true
unfolding whole_step step take_proxy new_master add_node insert lookup take_out delivered messages
    get_remotes_by_name notified get_childs add_child is_among reply_links notice_links roots_for
    online_roots root_links forget
game_is_online = refl

gate_is_online :
    has_key "gate1" (whole_run dial_seven both_join (nobody two_nodes)).cluster.master.online_nodes
    ≡ true
unfolding whole_step step take_proxy new_master add_node insert lookup take_out delivered messages
    get_remotes_by_name notified get_childs add_child is_among reply_links notice_links roots_for
    online_roots root_links forget
gate_is_online = refl

game_wants_gate : wants two_nodes "game1" "gate1" ≡ true
unfolding get_remotes_by_name lookup
game_wants_gate = refl

gate_configured : is_some (lookup "gate1" two_nodes.servers) ≡ true
unfolding lookup
gate_configured = refl

whole_run-connected_example :
    (n : Node) × (lookup "game1" (whole_run dial_seven both_join (nobody two_nodes)).nodes ≡ some n)
    × (has_key "gate1" n.remote_nodes_mgr ≡ true)
whole_run-connected_example =
    whole_run-connected dial_seven two_nodes both_join "game1" "gate1" dial_seven-Reaches refl
      both_join-arrived game_is_online gate_is_online game_wants_gate gate_configured

abbrev two_childs : Childs
two_childs = add_child "game1" 1 (add_child "gate1" 2 [])

abbrev one_child : Childs
one_child = remove_child "gate1" two_childs

shutdown_lem_example :
    ((xs : List Child) × (ys : List Child) × (shutdown two_childs one_child ≡ xs ++ ys)
      × AllGates xs
      × NoGates ys)
    × ((NamesGate "gate1"
          × (times "gate1" (shutdown two_childs one_child) ≡ times "gate1" (get_childs two_childs)))
        ⊎ ((NamesGate "gate1" → ⊥)
            × (times "gate1" (shutdown two_childs one_child)
                ≡ times "gate1" (get_childs one_child))))
shutdown_lem_example = shutdown_lem "gate1" two_childs one_child

-- The game is connected, and the gate starts again.
abbrev gate_again : List WholeEvent
gate_again = joins "game1" 1 ∷ joins "gate1" 2 ∷ delivers 0 ∷ joins "gate1" 3 ∷ []

abbrev again : Whole
again = whole_run dial_seven gate_again (nobody two_nodes)

abbrev connected_game : Node
connected_game = add_remote "gate1" 7 (new_node "game1" two_nodes)

game_runs : lookup "game1" again.nodes ≡ some connected_game
unfolding whole_step step take_proxy new_master add_node insert lookup add_child get_childs notified
    is_among get_remotes_by_name messages reply_links notice_links root_links roots_for online_roots
    take_out delivered deliver_to root_take_proxy connect_to_remote connect_configured connect_new
    node_after forget add_remote dialled get_remote get_child
game_runs = refl

notice_waits : take_out 0 again.in_flight ≡ some (("game1", "gate1"), [])
unfolding whole_step step take_proxy new_master add_node insert lookup add_child get_childs notified
    is_among get_remotes_by_name messages reply_links notice_links root_links roots_for online_roots
    take_out delivered deliver_to root_take_proxy connect_to_remote connect_configured connect_new
    node_after forget add_remote dialled get_remote get_child
notice_waits = refl

notice_race_example :
    ((n' : Node) × (lookup "game1"
          (whole_step dial_seven
            (remote_lost "game1" 7)
            (whole_step dial_seven (delivers 0) again)).nodes
        ≡ some n')
      × (has_key "gate1" n'.remote_nodes_mgr ≡ false))
    × ((n' : Node) × (lookup "game1"
            (whole_step dial_seven
              (delivers 0)
              (whole_step dial_seven (remote_lost "game1" 7) again)).nodes
          ≡ some n')
        × (has_key "gate1" n'.remote_nodes_mgr ≡ true))
unfolding add_remote add_child lookup insert
notice_race_example =
    notice_race dial_seven again "game1" "gate1" 7 0 connected_game [] dial_seven-Reaches game_runs
      refl refl refl notice_waits
