-- ===== src/Cluster/Node/Remotes.antt =====
-- clusterserver/clusterserver.go: whom a node is connected to.
use my_cluster.Common.{
  ℕ, ◌≡◌, refl, ap, sym, ◌∙◌, Bool, true, false, ◌&&◌, ◌||◌, List, [], ◌∷◌, Option, none, some,
  String, lookup, string_eq, nat_eq, is_some, has_key, false≢true, has_key-insert, contains, beq,
  eq_of_beq, arith, Bool-cases, inl, inr,
}
use my_cluster.Cluster.Conf.{ClusterServerConf}
use my_cluster.Cluster.ChildMgr.{Child, add_child, get_child}
use my_cluster.Cluster.Node.{
  Node, done, get_remote, add_remote, dialled, connect_new, connect_configured, connect_to_remote,
  and_then, connect_all, strings, answered, connected_to_master,
}

-- The network can reach every node.
abbrev pub Reaches : (Node → String → Option ℕ) → Type 0
Reaches dial = (n : Node) (rname : String) → is_some (dial n rname) ≡ true

abbrev pub is_configured : String → Node → Bool
is_configured k n = is_some (lookup k n.cconf.servers)

-- What a connection leaves: the configuration, and the remotes there were with the new one, if it is
-- configured.
pub record Connects (n : Node) (rname : String) (n' : Node) : Type 0 where
  pub same_conf : n'.cconf ≡ n.cconf
  pub remotes_are :
      (k : String)
      → has_key k n'.remote_nodes_mgr
        ≡ ((beq rname k && is_configured k n) || has_key k n.remote_nodes_mgr)

-- For a key that the test singles out, or for any other.
by_key :
    (rname k : String) (a b : Bool)
    → (beq rname k ≡ true → (a || b) ≡ b)
    → ((beq rname k && a) || b) ≡ b
by_key rname k a b h = elim (Bool-cases (beq rname k)) [ inl e ↦ rw e (h e) | inr e ↦ rw e refl ]

or_true : (a b : Bool) → b ≡ true → (a || b) ≡ b
or_true true b e = sym e
or_true false b e = refl

missing : (rname : String) (n : Node) → lookup rname n.cconf.servers ≡ none → Connects n rname n
missing rname n e = record {
  same_conf = refl;
  remotes_are = λ k. sym (
      by_key rname k (is_configured k n) (has_key k n.remote_nodes_mgr) (λ same.
        ap (λ o. is_some o || has_key k n.remote_nodes_mgr)
          (ap (λ j. lookup j n.cconf.servers) (sym (eq_of_beq rname k same)) ∙ e)));
}

already : (rname : String) (n : Node) → has_key rname n.remote_nodes_mgr ≡ true → Connects n rname n
already rname n e = record {
  same_conf = refl;
  remotes_are = λ k. sym (
      by_key rname k (is_configured k n) (has_key k n.remote_nodes_mgr) (λ same.
        or_true (is_configured k n) (has_key k n.remote_nodes_mgr)
          (ap (λ j. has_key j n.remote_nodes_mgr) (sym (eq_of_beq rname k same)) ∙ e)));
}

added :
    (rname : String) (conn : ℕ) (n : Node)
    → is_configured rname n ≡ true
    → Connects n rname (add_remote rname conn n)
unfolding add_remote add_child
added rname conn n e = record {
  same_conf = refl;
  remotes_are = λ k.
      has_key-insert rname k (record { name = rname; conn = conn }) n.remote_nodes_mgr
      ∙ ap (λ b. b || has_key k n.remote_nodes_mgr)
          (elim (Bool-cases (beq rname k)) [
            | inl same ↦ rw same (sym e ∙ ap (λ j. is_configured j n) (eq_of_beq rname k same))
            | inr other ↦ rw other refl
          ]);
}

dialled-done :
    (rname : String) (n : Node) (o : Option ℕ)
    → is_some o ≡ true
    → is_configured rname n ≡ true
    → (n' : Node) × (dialled rname n o ≡ done n') × Connects n rname n'
unfolding dialled
dialled-done rname n none h e = absurd (false≢true h)
dialled-done rname n (some conn) h e = (add_remote rname conn n, refl, added rname conn n e)

connect_new-done :
    (rname : String) (n : Node) (d : Option ℕ) (o : Option Child)
    → is_some d ≡ true
    → is_configured rname n ≡ true
    → lookup rname n.remote_nodes_mgr ≡ o
    → (n' : Node) × (connect_new rname d n o ≡ done n') × Connects n rname n'
unfolding connect_new
connect_new-done rname n d (some child) h e l = (n, refl, already rname n (ap is_some l))
connect_new-done rname n d none h e l = dialled-done rname n d h e

connect_configured-done :
    (rname : String) (n : Node) (d : Option ℕ) (o : Option ClusterServerConf)
    → is_some d ≡ true
    → lookup rname n.cconf.servers ≡ o
    → (n' : Node) × (connect_configured rname d n o ≡ done n') × Connects n rname n'
unfolding connect_configured get_remote get_child
connect_configured-done rname n d none h l = (n, refl, missing rname n l)
connect_configured-done rname n d (some conf) h l =
    connect_new-done rname n d (lookup rname n.remote_nodes_mgr) h (ap is_some l) refl

pub connect_to_remote-done :
    (dial : Node → String → Option ℕ) (rname : String) (n : Node)
    → Reaches dial
    → (n' : Node) × (connect_to_remote dial rname n ≡ done n') × Connects n rname n'
unfolding connect_to_remote
connect_to_remote-done dial rname n r =
    connect_configured-done rname n (dial n rname) (lookup rname n.cconf.servers) (r n rname) refl

split_or : (b c f h : Bool) → ((c && f) || ((b && f) || h)) ≡ (((b || c) && f) || h)
split_or b c f h = ground arith

-- When the network reaches every node, a node that is answered the roots of a response connects to
-- them without a panic: its remotes are then those it had and the roots that are configured, and no
-- others.
pub connect_all_lem :
    (dial : Node → String → Option ℕ) (roots : List String) (n : Node)
    → Reaches dial
    → (n' : Node) × (connected_to_master dial (answered (some (strings roots))) n ≡ done n')
      × (n'.cconf ≡ n.cconf)
      × ((k : String)
          → has_key k n'.remote_nodes_mgr
            ≡ ((contains k roots && is_configured k n) || has_key k n.remote_nodes_mgr))
unfolding connected_to_master connect_all and_then
connect_all_lem dial [] n r = (n, refl, refl, λ k. refl)
connect_all_lem dial (root ∷ roots) n r =
    let one = connect_to_remote-done dial root n r in
    let rest = connect_all_lem dial roots one.0 r in
    (
      rest.0,
      ap (and_then (connect_all dial roots)) one.1 ∙ rest.1,
      rest.2 ∙ one.2.same_conf,
      λ k.
          rest.3 k
          ∙ ap
              (λ c.
                (contains k roots && is_some (lookup k c.servers))
                || has_key k one.0.remote_nodes_mgr)
              one.2.same_conf
          ∙ ap (λ b. (contains k roots && is_configured k n) || b) (one.2.remotes_are k)
          ∙ split_or (beq root k) (contains k roots) (is_configured k n)
              (has_key k n.remote_nodes_mgr),
    )
