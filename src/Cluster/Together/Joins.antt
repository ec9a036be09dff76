-- ===== src/Cluster/Together/Joins.antt =====
-- clusterserver with sys_rpc: nodes that take their proxy, and connections that are lost.
use my_cluster.Common.{
  Option-cases, ℕ, ◌≡◌, refl, sym, subst, ◌∙◌, List, Option, none, some, String, lookup, insert,
  string_eq, nat_eq, true, false, ◌||◌, is_some, has_key, beq, Bool-cases, inl, inr, lookup-insert,
  has_key-insert, has_key-delete, some_inj, and_right,
}
use my_cluster.Cluster.Conf.{ClusterConf}
use my_cluster.Cluster.Master.{take_proxy, add_node, remove_node, connection_lost, after_loss}
use my_cluster.Cluster.Master.Told.{has_link, forget}
use my_cluster.Cluster.Master.Links.{takes_proxy, loses, step, step-cconf, Inv, step-Inv}
use my_cluster.Cluster.Node.{Node, cc_connection_lost, lose_remote}
use my_cluster.Cluster.Together.{
  Whole, joins, master_loses, remote_lost, after_remote_loss, new_node, messages, whole_step,
}
use my_cluster.Cluster.Together.OnWay.{has_link_of_forget, has_link-sent, or_map, or_of_right}

-- What the nodes know, and that what the node `me` was told is on its way or has been done.
pub record Joined (conf : ClusterConf) (me : String) (s : Whole) : Type 0 where
  pub inv : Inv s.cluster
  pub same_conf : s.cluster.master.cconf ≡ conf
  pub node_conf : (c : String) (n : Node) → lookup c s.nodes ≡ some n → n.cconf ≡ conf
  pub present :
      (c : String) → has_key c s.cluster.master.online_nodes ≡ true → has_key c s.nodes ≡ true
  pub on_way :
      (p : String) (n : Node)
      → lookup me s.nodes ≡ some n
      → is_some (lookup p conf.servers) ≡ true
      → has_link me p s.cluster.told ≡ true
      → (has_link me p s.in_flight || has_key p n.remote_nodes_mgr) ≡ true

pub lookup-insert_ne :
    (k j : String) (v : Node) (m : List (String × Node))
    → beq k j ≡ false
    → lookup j (insert k v m) ≡ lookup j m
lookup-insert_ne k j v m e = lookup-insert k j v m ∙ rw e refl

pub lookup-insert_same :
    (k j : String) (v : Node) (m : List (String × Node))
    → beq k j ≡ true
    → lookup j (insert k v m) ≡ some v
lookup-insert_same k j v m e = lookup-insert k j v m ∙ rw e refl

-- A node that is put in keeps the configurations.
pub insert-node_conf :
    (conf : ClusterConf) (c : String) (n : Node) (nodes : List (String × Node))
    → ((k : String) (m : Node) → lookup k nodes ≡ some m → m.cconf ≡ conf)
    → n.cconf ≡ conf
    → (k : String) (m : Node) → lookup k (insert c n nodes) ≡ some m
    → m.cconf ≡ conf
insert-node_conf conf c n nodes h e k m l = elim (Bool-cases (beq c k)) [
  | inl same ↦
      subst (λ (x : Node). x.cconf ≡ conf)
        (some_inj n m (sym (lookup-insert_same c k n nodes same) ∙ l)) e
  | inr other ↦ h k m (sym (lookup-insert_ne c k n nodes other) ∙ l)
]

module _ (dial : Node → String → Option ℕ) (conf : ClusterConf) (me : String) (s : Whole)
    (v : Joined conf me s) where
  pub joins-Joined :
      (name : String) (fconn : ℕ) → Joined conf me (whole_step dial (joins name fconn) s)
  unfolding whole_step step take_proxy add_node messages
  joins-Joined name fconn =
      let fresh = new_node name s.cluster.master.cconf in
      record {
        inv = step-Inv s.cluster (takes_proxy name fconn) v.inv;
        same_conf = v.same_conf;
        node_conf = insert-node_conf conf name fresh s.nodes v.node_conf v.same_conf;
        present = λ c h.
            has_key-insert name c fresh s.nodes
            ∙ or_map (beq name c) (has_key c s.cluster.master.online_nodes) (has_key c s.nodes)
                (v.present c) (sym (has_key-insert name c true s.cluster.master.online_nodes) ∙ h);
        on_way = λ p n l configured h.
            has_link-sent me p _ _ (forget name s.cluster.told) s.in_flight _
              (λ left.
                let (told, other) = has_link_of_forget me p name s.cluster.told left in
                v.on_way p n (sym (lookup-insert_ne name me fresh s.nodes other) ∙ l) configured
                  told)
              h;
      }

  loss-online :
      (c : String) (o : Option String)
      → has_key c (after_loss s.cluster.master o).online_nodes ≡ true
      → has_key c s.cluster.master.online_nodes ≡ true
  unfolding remove_node
  loss-online c none h = h
  loss-online c (some name) h =
      and_right _ _ (sym (has_key-delete name c s.cluster.master.online_nodes) ∙ h)

  pub loses-Joined : (fconn : ℕ) → Joined conf me (whole_step dial (master_loses fconn) s)
  unfolding whole_step step connection_lost
  loses-Joined fconn = record {
    inv = step-Inv s.cluster (loses fconn) v.inv;
    same_conf = step-cconf s.cluster (loses fconn) ∙ v.same_conf;
    node_conf = v.node_conf;
    present = λ c h. v.present c (loss-online c (lookup fconn s.cluster.master.child_property) h);
    on_way = v.on_way;
  }

  lost-cconf : (conn : ℕ) (n : Node) → (cc_connection_lost conn n).cconf ≡ n.cconf
  unfolding cc_connection_lost lose_remote
  lost-cconf conn n = elim (Option-cases (lookup conn n.remote_property)) [
    | inl e ↦ rw e refl
    | inr (rname, e) ↦ rw e refl
  ]

  pub remote_lost-Joined :
      (c : String) (conn : ℕ)
      → beq c me ≡ false
      → Joined conf me (whole_step dial (remote_lost c conn) s)
  unfolding whole_step after_remote_loss
  remote_lost-Joined c conn other = elim (Option-cases (lookup c s.nodes)) [
    | inl e ↦ rw e v
    | inr (n, e) ↦
        let n' = cc_connection_lost conn n in
        rw e (record {
          inv = v.inv;
          same_conf = v.same_conf;
          node_conf =
              insert-node_conf conf c n' s.nodes v.node_conf
                (lost-cconf conn n ∙ v.node_conf c n e);
          present = λ k h.
              has_key-insert c k n' s.nodes
              ∙ or_of_right (beq c k) (has_key k s.nodes) (v.present k h);
          on_way = λ p m l configured h.
              v.on_way p m (sym (lookup-insert_ne c me n' s.nodes other) ∙ l) configured h;
        })
  ]
