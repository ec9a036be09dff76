-- ===== src/Cluster/Together/Delivery.antt =====
-- clusterserver with sys_rpc: a message arrives, and the node connects.
use my_cluster.Common.{
  ℕ, ◌≡◌, refl, sym, ap, subst, ◌∙◌, List, Option, none, some, String, lookup, insert, string_eq,
  nat_eq, Bool, true, false, ◌&&◌, ◌||◌, is_some, has_key, beq, Bool-cases, Option-cases, inl, inr,
  has_key-insert, some_inj, false≢true, eq_of_beq,
}
use my_cluster.Cluster.Conf.{ClusterConf}
use my_cluster.Cluster.Master.Told.{Links, has_link}
use my_cluster.Cluster.Node.{Node, root_take_proxy}
use my_cluster.Cluster.Node.Remotes.{Reaches, Connects, connect_to_remote-done}
use my_cluster.Cluster.Together.{
  Whole, delivers, take_out, node_after, deliver_to, delivered, whole_step,
}
use my_cluster.Cluster.Together.OnWay.{take_out-has_link, or_of_right, not_this, is_done}
use my_cluster.Cluster.Together.Joins.{
  Joined, lookup-insert_ne, lookup-insert_same, insert-node_conf,
}

module _ (dial : Node → String → Option ℕ) (conf : ClusterConf) (me : String) (s : Whole)
    (v : Joined conf me s) where
  module _ (c₀ p₀ : String) (rest : Links) where
    abbrev left_over : List (String × Node) → Whole
    left_over nodes = record s { nodes = nodes; in_flight = rest }

    -- The links that were on their way are the message and the others.
    abbrev Taken : Type 0
    Taken =
        (c p : String) → has_link c p s.in_flight ≡ ((beq c₀ c && beq p₀ p) || has_link c p rest)

    no_node : Taken → lookup c₀ s.nodes ≡ none → Joined conf me (left_over s.nodes)
    no_node taken e = record {
      inv = v.inv;
      same_conf = v.same_conf;
      node_conf = v.node_conf;
      present = v.present;
      on_way = λ p n l configured h.
          not_this (beq c₀ me) (beq p₀ p) (has_link me p rest) (has_key p n.remote_nodes_mgr)
            (another me n l)
            (sym (ap (λ (x : Bool). x || has_key p n.remote_nodes_mgr) (taken me p))
              ∙ v.on_way p n l configured h);
    }
      where
        another : (c : String) (n : Node) → lookup c s.nodes ≡ some n → beq c₀ c ≡ false
        another c n l = elim (Bool-cases (beq c₀ c)) [
          | inr other ↦ other
          | inl same ↦
              let k = eq_of_beq c₀ c same in
              absurd (
                false≢true
                  (ap is_some (sym e) ∙ ap (λ x. is_some (lookup x s.nodes)) k ∙ ap is_some l))
        ]

    connected :
        (n₀ n' : Node)
        → Taken
        → lookup c₀ s.nodes ≡ some n₀
        → Connects n₀ p₀ n'
        → Joined conf me (left_over (insert c₀ n' s.nodes))
    connected n₀ n' taken e w =
        let kept = v.node_conf c₀ n₀ e in
        record {
          inv = v.inv;
          same_conf = v.same_conf;
          node_conf = insert-node_conf conf c₀ n' s.nodes v.node_conf (w.same_conf ∙ kept);
          present = λ c h.
              has_key-insert c₀ c n' s.nodes
              ∙ or_of_right (beq c₀ c) (has_key c s.nodes) (v.present c h);
          on_way = λ p n l configured h. elim (Bool-cases (beq c₀ me)) [
            | inl same ↦
                let there = subst (λ k. lookup k s.nodes ≡ some n₀) (eq_of_beq c₀ me same) e in
                subst (λ (m : Node). (has_link me p rest || has_key p m.remote_nodes_mgr) ≡ true)
                  (some_inj n' n (sym (lookup-insert_same c₀ me n' s.nodes same) ∙ l))
                  (ap (λ (x : Bool). has_link me p rest || x) (w.remotes_are p)
                    ∙ is_done (beq c₀ me) (beq p₀ p) (has_link me p rest) _ _
                        (ap (λ (k : ClusterConf). is_some (lookup p k.servers)) kept ∙ configured)
                        (sym (ap (λ (x : Bool). x || has_key p n₀.remote_nodes_mgr) (taken me p))
                          ∙ v.on_way p n₀ there configured h))
            | inr other ↦
                not_this (beq c₀ me) (beq p₀ p) (has_link me p rest) (has_key p n.remote_nodes_mgr)
                  other
                  (sym (ap (λ (x : Bool). x || has_key p n.remote_nodes_mgr) (taken me p))
                    ∙ v.on_way p n (sym (lookup-insert_ne c₀ me n' s.nodes other) ∙ l) configured h)
          ];
        }

    to_node :
        (o : Option Node)
        → Reaches dial
        → Taken
        → lookup c₀ s.nodes ≡ o
        → Joined conf me (left_over (deliver_to dial c₀ p₀ o s.nodes))
    unfolding deliver_to root_take_proxy node_after
    to_node none reaches taken e = no_node taken e
    to_node (some n₀) reaches taken e =
        let (n', is, w) = connect_to_remote-done dial p₀ n₀ reaches in
        rw is (connected n₀ n' taken e w)

  pub delivers-Joined : (i : ℕ) → Reaches dial → Joined conf me (whole_step dial (delivers i) s)
  unfolding whole_step delivered
  delivers-Joined i reaches = elim (Option-cases (take_out i s.in_flight)) [
    | inl e ↦ rw e v
    | inr (((c₀, p₀), rest), e) ↦ rw e (
        to_node c₀ p₀ rest (lookup c₀ s.nodes) reaches
          (λ c p. take_out-has_link c p i s.in_flight rest (c₀, p₀) e) refl)
  ]
