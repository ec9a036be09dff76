-- ===== src/Cluster/Together/Connected.antt =====
-- clusterserver with sys_rpc: when the messages have arrived, the nodes are connected.
use my_cluster.Common.{
  Bool, not, ◌&&◌, beq, false, ℕ, ◌≡◌, refl, sym, ap, subst, ◌∙◌, List, [], ◌∷◌, Option, some,
  String, lookup, string_eq, nat_eq, true, ◌||◌, is_some, has_key, Option-cases, inl, inr,
  false≢true,
}
use my_cluster.Cluster.Conf.{ClusterConf, wants}
use my_cluster.Cluster.Master.{new_master}
use my_cluster.Cluster.Master.Told.{has_link}
use my_cluster.Cluster.Master.Links.{start-Inv}
use my_cluster.Cluster.Node.{Node}
use my_cluster.Cluster.Node.Remotes.{Reaches}
use my_cluster.Cluster.Together.{
  Whole, WholeEvent, joins, master_loses, remote_lost, delivers, whole_run, nobody,
}
use my_cluster.Cluster.Together.Joins.{Joined, joins-Joined, loses-Joined, remote_lost-Joined}
use my_cluster.Cluster.Together.Delivery.{delivers-Joined}

-- The node sees no loss of a connection to a remote.
abbrev pub keeps_remotes : String → List WholeEvent → Bool
keeps_remotes c [] = true
keeps_remotes c (remote_lost d conn ∷ events) = not (beq d c) && keeps_remotes c events
keeps_remotes c (joins name fconn ∷ events) = keeps_remotes c events
keeps_remotes c (master_loses fconn ∷ events) = keeps_remotes c events
keeps_remotes c (delivers i ∷ events) = keeps_remotes c events

run-Joined :
    (dial : Node → String → Option ℕ) (conf : ClusterConf) (me : String) (events : List WholeEvent)
    (s : Whole)
    → Reaches dial
    → keeps_remotes me events ≡ true
    → Joined conf me s
    → Joined conf me (whole_run dial events s)
run-Joined dial conf me [] s reaches k v = v
run-Joined dial conf me (joins name fconn ∷ events) s reaches k v =
    run-Joined dial conf me events _ reaches k (joins-Joined dial conf me s v name fconn)
run-Joined dial conf me (master_loses fconn ∷ events) s reaches k v =
    run-Joined dial conf me events _ reaches k (loses-Joined dial conf me s v fconn)
run-Joined dial conf me (remote_lost d conn ∷ events) s reaches k v =
    let (other, later) = both (beq d me) (keeps_remotes me events) k in
    run-Joined dial conf me events _ reaches later
      (remote_lost-Joined dial conf me s v d conn other)
  where
    both : (a b : Bool) → (not a && b) ≡ true → (a ≡ false) × (b ≡ true)
    both true b e = absurd (false≢true e)
    both false b e = (refl, e)
run-Joined dial conf me (delivers i ∷ events) s reaches k v =
    run-Joined dial conf me events _ reaches k (delivers-Joined dial conf me s v i reaches)

nobody-Joined : (conf : ClusterConf) (me : String) → Joined conf me (nobody conf)
unfolding new_master lookup
nobody-Joined conf me = record {
  inv = start-Inv conf;
  same_conf = refl;
  node_conf = λ c n h. cc;
  present = λ c h. h;
  on_way = λ p n h. cc;
}

-- From a cluster of nobody, when the network reaches every node: after any history of nodes that
-- take their proxy, connections that the master loses, connections to remotes that nodes see lost,
-- and messages that arrive in any order, if no message is left and two nodes are online at the
-- master, of which the first wants the second and has seen no connection to a remote lost, and the
-- second is configured, then the first node runs and has the second among its remotes.
pub whole_run-connected :
    (dial : Node → String → Option ℕ) (conf : ClusterConf) (events : List WholeEvent) (c p : String)
    → Reaches dial
    → keeps_remotes c events ≡ true
    → (whole_run dial events (nobody conf)).in_flight ≡ []
    → has_key c (whole_run dial events (nobody conf)).cluster.master.online_nodes ≡ true
    → has_key p (whole_run dial events (nobody conf)).cluster.master.online_nodes ≡ true
    → wants conf c p ≡ true
    → is_some (lookup p conf.servers) ≡ true
    → (n : Node) × (lookup c (whole_run dial events (nobody conf)).nodes ≡ some n)
      × (has_key p n.remote_nodes_mgr ≡ true)
whole_run-connected dial conf events c p reaches keeps arrived hc hp w configured =
    let s = whole_run dial events (nobody conf) in
    let v = run-Joined dial conf c events (nobody conf) reaches keeps (nobody-Joined conf c) in
    elim (Option-cases (lookup c s.nodes)) [
      | inl e ↦ absurd (false≢true (ap is_some (sym e) ∙ v.present c hc))
      | inr (n, e) ↦
          let told = v.inv.linked c p hc hp (subst (λ k. wants k c p ≡ true) (sym v.same_conf) w) in
          (
            n,
            e,
            subst (λ flight. (has_link c p flight || has_key p n.remote_nodes_mgr) ≡ true) arrived
                (v.on_way p n e configured told),
          )
    ]
