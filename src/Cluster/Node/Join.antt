-- ===== src/Cluster/Node/Join.antt =====
-- clusterserver/clusterserver.go against sys_rpc/master_rpc.go: a node that takes its proxy at the
-- master, for the first time and after it has lost the master.
use my_cluster.Common.{
  ℕ, ◌≡◌, refl, ap, ◌∙◌, false, ◌&&◌, ◌||◌, List, Option, none, some, String, string_eq, has_key,
  contains,
}
use my_cluster.Cluster.Conf.{get_remotes_by_name, wants}
use my_cluster.Cluster.Master.{
  Master, TakeProxyReply, take_proxy, add_node, roots_for, online_roots,
}
use my_cluster.Cluster.Master.Replies.{online_roots_exact}
use my_cluster.Cluster.Node.{Node, done, Roots, strings, Response, answered, connected_to_master}
use my_cluster.Cluster.Node.Remotes.{Reaches, is_configured, connect_all_lem}

-- The master's slice of strings comes back from gob as a slice of strings.
abbrev pub roots_value : Option (List String) → Option Roots
roots_value none = none
roots_value (some roots) = some (strings roots)

abbrev pub response_of : TakeProxyReply → Response
response_of reply = answered (roots_value reply.roots)

joined :
    (dial : Node → String → Option ℕ) (n : Node) (m : Master) (o : Option (List String))
    → Reaches dial
    → (n' : Node) × (connected_to_master dial (answered (roots_value (roots_for m o))) n ≡ done n')
      × ((p : String)
          → has_key p n'.remote_nodes_mgr ≡ (
              (((elim o [ none ↦ false | some remotes ↦ contains p remotes ])
                  && has_key p m.online_nodes)
                && is_configured p n)
              || has_key p n.remote_nodes_mgr))
unfolding roots_for
joined dial n m none r = (n, unfold connected_to_master in refl, λ p. refl)
joined dial n m (some remotes) r =
    let c = connect_all_lem dial (online_roots m.online_nodes remotes) n r in
    (
      c.0,
      c.1,
      λ p.
          c.3 p
          ∙ ap (λ b. (b && is_configured p n) || has_key p n.remote_nodes_mgr)
              (online_roots_exact m.online_nodes p remotes),
    )

-- When the network reaches every node, a node that takes its proxy at the master connects without a
-- panic, and its remotes are then those it had and the parents of its configuration that the master
-- has online and that it has configured itself.
pub join_lem :
    (dial : Node → String → Option ℕ) (n : Node) (fconn : ℕ) (m : Master)
    → Reaches dial
    → let r = take_proxy n.name fconn m in
      (n' : Node) × (connected_to_master dial (response_of r.1) n ≡ done n')
      × ((p : String)
          → has_key p n'.remote_nodes_mgr ≡ (
              ((wants m.cconf n.name p && has_key p r.0.online_nodes) && is_configured p n)
              || has_key p n.remote_nodes_mgr))
unfolding take_proxy add_node
join_lem dial n fconn m r =
    joined dial n (add_node n.name fconn m) (get_remotes_by_name m.cconf n.name) r
