-- ===== src/Cluster/Together/Restart.antt =====
-- clusterserver with sys_rpc: a remote that starts again, and the two orders in which a node can hear
-- of it.
use my_cluster.Common.{
  ℕ, ◌≡◌, refl, sym, ap, ◌∙◌, List, Option, some, String, lookup, insert, string_eq, nat_eq, true,
  false, is_some, has_key, beq_refl, Option-cases, inl, inr, has_key-delete, false≢true,
  lookup-insert,
}
use my_cluster.Cluster.ChildMgr.{remove_child, get_child}
use my_cluster.Cluster.Master.Told.{Links}
use my_cluster.Cluster.Node.{
  Node, done, root_take_proxy, connect_to_remote, connect_configured, connect_new, get_remote,
  cc_connection_lost, lose_remote,
}
use my_cluster.Cluster.Node.Remotes.{Reaches, connect_to_remote-done}
use my_cluster.Cluster.Together.{
  Whole, remote_lost, delivers, take_out, whole_step, delivered, deliver_to, node_after,
  after_remote_loss,
}

lookup-put :
    (c : String) (n : Node) (nodes : List (String × Node)) → lookup c (insert c n nodes) ≡ some n
lookup-put c n nodes = lookup-insert c c n nodes ∙ rw (beq_refl c) refl

module _ (dial : Node → String → Option ℕ) (p : String) (n : Node) where
  -- A node that has the remote does nothing.
  already_there :
      is_some (lookup p n.cconf.servers) ≡ true
      → has_key p n.remote_nodes_mgr ≡ true
      → root_take_proxy dial p n ≡ done n
  unfolding root_take_proxy connect_to_remote connect_configured connect_new get_remote get_child
  already_there configured has = elim (Option-cases (lookup p n.cconf.servers)) [
    | inl e ↦ absurd (false≢true (ap is_some (sym e) ∙ configured))
    | inr (conf, e) ↦ elim (Option-cases (lookup p n.remote_nodes_mgr)) [
      | inl e' ↦ absurd (false≢true (ap is_some (sym e') ∙ has))
      | inr (child, e') ↦ rw (e, e') refl
    ]
  ]

  loses_it :
      (conn : ℕ)
      → lookup conn n.remote_property ≡ some p
      → has_key p (cc_connection_lost conn n).remote_nodes_mgr ≡ false
  unfolding cc_connection_lost lose_remote remove_child
  loses_it conn e = rw e (has_key-delete p p n.remote_nodes_mgr ∙ rw (beq_refl p) refl)

  keeps_conf : (conn : ℕ) → (cc_connection_lost conn n).cconf ≡ n.cconf
  unfolding cc_connection_lost lose_remote
  keeps_conf conn = elim (Option-cases (lookup conn n.remote_property)) [
    | inl e ↦ rw e refl
    | inr (rname, e) ↦ rw e refl
  ]

-- A node runs and has a configured remote on a connection, the network reaches every node, and the
-- notice that the remote has started again is on its way. If the notice arrives before the node sees
-- that its old connection is lost, then the node ends without the remote; in the other order it has
-- the remote again.
pub notice_race :
    (dial : Node → String → Option ℕ) (s : Whole) (c p : String) (conn i : ℕ) (n : Node)
    (rest : Links)
    → Reaches dial
    → lookup c s.nodes ≡ some n
    → is_some (lookup p n.cconf.servers) ≡ true
    → has_key p n.remote_nodes_mgr ≡ true
    → lookup conn n.remote_property ≡ some p
    → take_out i s.in_flight ≡ some ((c, p), rest)
    → ((n' : Node) × (lookup c
            (whole_step dial (remote_lost c conn) (whole_step dial (delivers i) s)).nodes
          ≡ some n')
        × (has_key p n'.remote_nodes_mgr ≡ false))
      × ((n' : Node) × (lookup c
              (whole_step dial (delivers i) (whole_step dial (remote_lost c conn) s)).nodes
            ≡ some n')
          × (has_key p n'.remote_nodes_mgr ≡ true))
unfolding whole_step delivered deliver_to node_after after_remote_loss root_take_proxy
notice_race dial s c p conn i n rest reaches here configured has on message =
    let lost = cc_connection_lost conn n in
    let known : is_some (lookup p lost.cconf.servers) ≡ true =
      ap (λ k. is_some (lookup p k.servers)) (keeps_conf dial p n conn) ∙ configured in
    let (n', done', w) = connect_to_remote-done dial p lost reaches in
    let has' : has_key p n'.remote_nodes_mgr ≡ true =
      w.remotes_are p ∙ rw (beq_refl p, known) refl in
    let noticed : connect_to_remote dial p n ≡ done n = already_there dial p n configured has in
    (
      (
        lost,
        rw (message, here, noticed, lookup-put c n s.nodes)
            (lookup-put c lost (insert c n s.nodes)),
        loses_it dial p n conn on,
      ),
      (
        n',
        rw (here, message, lookup-put c lost s.nodes, done')
            (lookup-put c n' (insert c lost s.nodes)),
        has',
      ),
    )
