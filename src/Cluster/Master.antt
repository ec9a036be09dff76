-- ===== src/Cluster/Master.antt =====
-- clusterserver/master.go and sys_rpc/master_rpc.go: the master knows which nodes are online and
-- tells nodes whom to connect to. Its state is the `Master` object, the property bags of the
-- connections, and, for the specification only, what nodes were told.
pub mod Replies
pub mod Told
pub mod Links
pub mod Loss
pub mod Shutdown
use my_cluster.Common.{
  ℕ, ◌≡◌, ◌≢◌, refl, sym, ap, ◌∙◌, List, [], ◌∷◌, ◌++◌, Option, none, some, arith, if◌then◌else◌,
  Bool, true, false, not, ◌&&◌, ◌||◌, inl, inr, String, lookup, insert, delete, string_eq, nat_eq,
  Bool-cases, Option-cases, beq, contains, ◌⊎◌, is_some, has_key,
}
use my_cluster.Cluster.Conf.{ClusterConf, get_remotes_by_name}
use my_cluster.Cluster.ChildMgr.{Child, Childs, add_child, remove_child, get_childs}

pub record Master : Type 0 where
  pub online_nodes : List (String × Bool)
  pub cconf : ClusterConf
  pub childs : Childs
  -- The property "child" of each connection.
  pub child_property : List (ℕ × String)

unfoldable pub new_master : ClusterConf → Master
new_master cconf = record { online_nodes = []; cconf = cconf; childs = []; child_property = [] }

unfoldable pub add_node : String → ℕ → Master → Master
add_node name writer m = record m {
  childs = add_child name writer m.childs;
  child_property = insert writer name m.child_property;
  online_nodes = insert name true m.online_nodes;
}

unfoldable pub remove_node : String → Master → Master
remove_node name m = record m {
  childs = remove_child name m.childs;
  online_nodes = delete name m.online_nodes;
}

-- `DoConnectionLost`, with the property "child" of the connection.
abbrev pub after_loss : Master → Option String → Master
after_loss m none = m
after_loss m (some nodename) = remove_node nodename m

unfoldable pub connection_lost : ℕ → Master → Master
connection_lost fconn m = after_loss m (lookup fconn m.child_property)

-- The parents that are online, in the order of the configuration.
unfoldable pub online_roots : List (String × Bool) → List String → List String
online_roots online [] = []
online_roots online (r ∷ remotes) =
    if has_key r online then r ∷ online_roots online remotes else online_roots online remotes

-- The response of `TakeProxy`: the key "roots" is missing for a node that is not configured.
unfoldable pub roots_for : Master → Option (List String) → Option (List String)
roots_for m none = none
roots_for m (some remotes) = some (online_roots m.online_nodes remotes)

-- The inner loop: is the node that has come online among the remotes of a child.
unfoldable pub is_among : String → Option (List String) → Bool
is_among name none = false
is_among name (some remotes) = contains name remotes

-- The connected children that are sent `RootTakeProxy`.
unfoldable pub notified : ClusterConf → String → List Child → List Child
notified cconf name [] = []
notified cconf name (child ∷ childs) =
    if is_among name (get_remotes_by_name cconf child.name)
    then child ∷ notified cconf name childs
    else notified cconf name childs

pub record TakeProxyReply : Type 0 where
  pub roots : Option (List String)
  pub notices : List Child

unfoldable pub take_proxy : String → ℕ → Master → Master × TakeProxyReply
take_proxy name fconn m =
    let m' = add_node name fconn m in
    (
      m',
      record {
        roots = roots_for m' (get_remotes_by_name m'.cconf name);
        notices = notified m'.cconf name (get_childs m'.childs);
      },
    )
