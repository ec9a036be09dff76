-- ===== src/Cluster/Master/Links.antt =====
-- clusterserver/master.go and sys_rpc/master_rpc.go over any history of nodes that come and go:
-- whom the master has online, and whom it has told to connect to whom.
use my_cluster.Common.{
  ℕ, ◌≡◌, refl, sym, ap, subst, ◌∙◌, List, [], ◌∷◌, ◌++◌, Option, none, some, true, false, not,
  ◌&&◌, ◌||◌, inl, inr, String, lookup, string_eq, nat_eq, Bool-cases, Option-cases, beq, has_key,
  has_key-insert, has_key-delete, and_right, or_first, or_second, or_third, eq_of_beq, beq_refl,
}
use my_cluster.Cluster.Conf.{ClusterConf, get_remotes_by_name, wants}
use my_cluster.Cluster.ChildMgr.{add_child, remove_child}
use my_cluster.Cluster.Master.{
  Master, new_master, add_node, remove_node, connection_lost, after_loss, TakeProxyReply,
  take_proxy,
}
use my_cluster.Cluster.Master.Told.{
  Links, has_link, forget, notice_links, reply_links, has_link-append, has_link-forget,
  has_link-notice_links, roots_named,
}
use my_cluster.Cluster.Master.Replies.{Named, add_child-Named, remove_child-Named, notified_exact}

-- What reaches the master: a call of `TakeProxy` on a connection, or the loss of a connection.
pub data MasterEvent : Type 0 where
  takes_proxy : String → ℕ → MasterEvent
  loses : ℕ → MasterEvent

pub record Cluster : Type 0 where
  pub master : Master
  pub told : Links

unfoldable pub step : Cluster → MasterEvent → Cluster
step s (takes_proxy name fconn) =
    let (m, reply) = take_proxy name fconn s.master in
    record {
      master = m;
      told =
          reply_links name reply.roots ++ (notice_links name reply.notices ++ forget name s.told);
    }
step s (loses fconn) = record s { master = connection_lost fconn s.master }

unfoldable pub run : Cluster → List MasterEvent → Cluster
run s [] = s
run s (e ∷ es) = run (step s e) es

pub record Inv (s : Cluster) : Type 0 where
  pub named : Named s.master.childs
  pub same_nodes : (k : String) → has_key k s.master.childs ≡ has_key k s.master.online_nodes
  pub linked :
      (c p : String)
      → has_key c s.master.online_nodes ≡ true
      → has_key p s.master.online_nodes ≡ true
      → wants s.master.cconf c p ≡ true
      → has_link c p s.told ≡ true

remove_node-Inv :
    (name : String) (s : Cluster) → Inv s → Inv (record s { master = remove_node name s.master })
unfolding remove_node remove_child
remove_node-Inv name s v = record {
  named = unfold remove_child in remove_child-Named name s.master.childs v.named;
  same_nodes = λ k.
      has_key-delete name k s.master.childs
      ∙ ap (λ b. not (beq name k) && b) (v.same_nodes k)
      ∙ sym (has_key-delete name k s.master.online_nodes);
  linked = λ c p hc hp w.
      v.linked c p (and_right _ _ (sym (has_key-delete name c s.master.online_nodes) ∙ hc))
        (and_right _ _ (sym (has_key-delete name p s.master.online_nodes) ∙ hp)) w;
}

module _ (name : String) (fconn : ℕ) (s : Cluster) (v : Inv s) where
  abbrev m' : Master
  m' = add_node name fconn s.master

  abbrev reply : TakeProxyReply
  reply = (take_proxy name fconn s.master).1

  named' : Named m'.childs
  unfolding add_node
  named' = add_child-Named name fconn s.master.childs v.named

  online' :
      (k : String) → has_key k m'.online_nodes ≡ (beq name k || has_key k s.master.online_nodes)
  unfolding add_node
  online' k = has_key-insert name k true s.master.online_nodes

  same_nodes' : (k : String) → has_key k m'.childs ≡ has_key k m'.online_nodes
  unfolding add_node add_child
  same_nodes' k =
      has_key-insert name k (record { name = name; conn = fconn }) s.master.childs
      ∙ ap (λ b. beq name k || b) (v.same_nodes k)
      ∙ sym (has_key-insert name k true s.master.online_nodes)

  -- The answer names every online remote, and the notices reach every online child.
  answered :
      (p : String)
      → has_key p m'.online_nodes ≡ true
      → wants s.master.cconf name p ≡ true
      → has_link name p (reply_links name reply.roots) ≡ true
  unfolding take_proxy add_node
  answered p h w = roots_named name m' (get_remotes_by_name s.master.cconf name) p h w

  notice_sent :
      (c : String)
      → has_key c m'.online_nodes ≡ true
      → wants s.master.cconf c name ≡ true
      → has_link c name (notice_links name reply.notices) ≡ true
  unfolding take_proxy add_node
  notice_sent c h w =
      has_link-notice_links c name name _
      ∙ rw (beq_refl name) (
          ap (λ b. b && true) (notified_exact s.master.cconf name c _ named')
          ∙ rw (same_nodes' c, h, w) refl)

  linked' :
      (c p : String)
      → has_key c m'.online_nodes ≡ true
      → has_key p m'.online_nodes ≡ true
      → wants s.master.cconf c p ≡ true
      → has_link c p
          (reply_links name reply.roots ++ (notice_links name reply.notices ++ forget name s.told))
        ≡ true
  linked' c p hc hp w =
      has_link-append c p (reply_links name reply.roots) _
      ∙ ap (λ b. has_link c p (reply_links name reply.roots) || b)
          (has_link-append c p (notice_links name reply.notices) (forget name s.told))
      ∙ cases
    where
      before :
          (k : String)
          → beq name k ≡ false
          → has_key k m'.online_nodes ≡ true
          → has_key k s.master.online_nodes ≡ true
      before k ne h = sym (ap (λ b. b || has_key k s.master.online_nodes) ne) ∙ sym (online' k) ∙ h

      cases :
          (has_link c p (reply_links name reply.roots)
            || (has_link c p (notice_links name reply.notices)
                || has_link c p (forget name s.told)))
          ≡ true
      cases = elim (Bool-cases (beq name c)) [
        | inl e ↦
            let same = eq_of_beq name c e in
            or_first _ _ (
              subst (λ x. has_link x p (reply_links name reply.roots) ≡ true) same
                (answered p hp (subst (λ x. wants s.master.cconf x p ≡ true) (sym same) w)))
        | inr e ↦ elim (Bool-cases (beq name p)) [
          | inl e' ↦
              let same = eq_of_beq name p e' in
              or_second _ _ _ (
                subst (λ x. has_link c x (notice_links name reply.notices) ≡ true) same
                  (notice_sent c hc (subst (λ x. wants s.master.cconf c x ≡ true) (sym same) w)))
          | inr e' ↦ or_third _ _ _ (
              has_link-forget c p name s.told e e'
              ∙ v.linked c p (before c e hc) (before p e' hp) w)
        ]
      ]

lost-Inv :
    (s : Cluster) (o : Option String) → Inv s → Inv (record s { master = after_loss s.master o })
lost-Inv s none v = v
lost-Inv s (some name) v = remove_node-Inv name s v

pub step-Inv : (s : Cluster) (e : MasterEvent) → Inv s → Inv (step s e)
unfolding step take_proxy add_node connection_lost
step-Inv s (takes_proxy name fconn) v = record {
  named = named' name fconn s v;
  same_nodes = same_nodes' name fconn s v;
  linked = linked' name fconn s v;
}
step-Inv s (loses fconn) v = lost-Inv s (lookup fconn s.master.child_property) v

run-Inv : (s : Cluster) (es : List MasterEvent) → Inv s → Inv (run s es)
unfolding run
run-Inv s [] v = v
run-Inv s (e ∷ es) v = run-Inv (step s e) es (step-Inv s e v)

abbrev pub start : ClusterConf → Cluster
start conf = record { master = new_master conf; told = [] }

pub start-Inv : (conf : ClusterConf) → Inv (start conf)
unfolding new_master lookup
start-Inv conf = record { named = tt; same_nodes = λ k. refl; linked = λ c p h. cc }

connection_lost-cconf : (fconn : ℕ) (m : Master) → (connection_lost fconn m).cconf ≡ m.cconf
unfolding connection_lost remove_node
connection_lost-cconf fconn m = elim (Option-cases (lookup fconn m.child_property)) [
  | inl e ↦ rw e refl
  | inr (name, e) ↦ rw e refl
]

pub step-cconf : (s : Cluster) (e : MasterEvent) → (step s e).master.cconf ≡ s.master.cconf
unfolding step take_proxy add_node
step-cconf s (takes_proxy name fconn) = refl
step-cconf s (loses fconn) = connection_lost-cconf fconn s.master

pub run-cconf : (s : Cluster) (es : List MasterEvent) → (run s es).master.cconf ≡ s.master.cconf
unfolding run
run-cconf s [] = refl
run-cconf s (e ∷ es) = run-cconf (step s e) es ∙ step-cconf s e

-- From a new master, after any history of nodes that take their proxy and connections that are
-- lost: the nodes marked online are exactly the registered children, and each child is registered
-- under its own name.
pub run_nodes :
    (conf : ClusterConf) (es : List MasterEvent)
    → let m = (run (start conf) es).master in
      Named m.childs × ((k : String) → has_key k m.childs ≡ has_key k m.online_nodes)
run_nodes conf es = let v = run-Inv (start conf) es (start-Inv conf) in (v.named, v.same_nodes)

-- From a new master, after any history of nodes that take their proxy and connections that are
-- lost: if a node and a remote of its configuration are both online, then the node has been told to
-- connect to the remote since both last took their proxy.
pub run_links :
    (conf : ClusterConf) (es : List MasterEvent) (c p : String)
    → has_key c (run (start conf) es).master.online_nodes ≡ true
    → has_key p (run (start conf) es).master.online_nodes ≡ true
    → wants conf c p ≡ true
    → has_link c p (run (start conf) es).told ≡ true
unfolding new_master
run_links conf es c p hc hp w =
    (run-Inv (start conf) es (start-Inv conf)).linked c p hc hp
      (subst (λ k. wants k c p ≡ true) (sym (run-cconf (start conf) es)) w)
