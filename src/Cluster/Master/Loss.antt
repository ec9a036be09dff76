-- ===== src/Cluster/Master/Loss.antt =====
-- clusterserver/master.go: what the loss of a connection does.
use my_cluster.Common.{
  ℕ, ◌≡◌, ◌≢◌, refl, sym, ap, ◌∙◌, Option, none, some, Bool, false, not, ◌&&◌, String, lookup,
  insert, string_eq, nat_eq, beq, has_key, lookup-insert, has_key-delete, beq_refl, beq_ne,
}
use my_cluster.Cluster.ChildMgr.{add_child, remove_child}
use my_cluster.Cluster.Master.{Master, add_node, remove_node, connection_lost, after_loss}

-- Is the property "child" of a connection, if it has one, this name.
abbrev pub is_named : String → Option String → Bool
is_named k none = false
is_named k (some name) = beq name k

after_loss_lem :
    (m : Master) (k : String) (o : Option String)
    → (has_key k (after_loss m o).online_nodes ≡ (not (is_named k o) && has_key k m.online_nodes))
      × (has_key k (after_loss m o).childs ≡ (not (is_named k o) && has_key k m.childs))
unfolding remove_node remove_child
after_loss_lem m k none = (refl, refl)
after_loss_lem m k (some name) =
    (has_key-delete name k m.online_nodes, has_key-delete name k m.childs)

-- The loss of a connection takes the node that took its proxy there off the registered children and
-- off the nodes marked online, and no other node.
pub connection_lost_lem :
    (fconn : ℕ) (m : Master) (k : String)
    → let took = is_named k (lookup fconn m.child_property) in
      (has_key k (connection_lost fconn m).online_nodes ≡ (not took && has_key k m.online_nodes))
      × (has_key k (connection_lost fconn m).childs ≡ (not took && has_key k m.childs))
unfolding connection_lost
connection_lost_lem fconn m k = after_loss_lem m k (lookup fconn m.child_property)

-- A node that took its proxy on a connection and then again on a newer one is registered with the
-- newer one; when the master learns of the loss of the older one it drops the node all the same.
pub drops_reconnected :
    (m : Master) (name : String) (older newer : ℕ)
    → older ≢ newer
    → let m' = add_node name newer (add_node name older m) in
      (lookup name m'.childs ≡ some (record { name = name; conn = newer }))
      × (has_key name (connection_lost older m').childs ≡ false)
      × (has_key name (connection_lost older m').online_nodes ≡ false)
unfolding add_node add_child
drops_reconnected m name older newer ne =
    let m' = add_node name newer (add_node name older m) in
    let still : lookup older m'.child_property ≡ some name =
      lookup-insert newer older name (insert older name m.child_property)
      ∙ rw (beq_ne newer older (λ e. ne (sym e)))
          (lookup-insert older older name m.child_property ∙ rw (beq_refl older) refl) in
    let took : not (is_named name (lookup older m'.child_property)) ≡ false =
      ap (λ o. not (is_named name o)) still ∙ ap not (beq_refl name) in
    let lost = connection_lost_lem older m' name in
    (
      lookup-insert name name _ _ ∙ rw (beq_refl name) refl,
      lost.1 ∙ ap (λ b. b && has_key name m'.childs) took,
      lost.0 ∙ ap (λ b. b && has_key name m'.online_nodes) took,
    )
