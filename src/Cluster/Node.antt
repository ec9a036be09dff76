-- ===== src/Cluster/Node.antt =====
-- clusterserver/clusterserver.go with sys_rpc/child_rpc.go and sys_rpc/root_rpc.go: the side of a
-- node. Dialling a remote is the parameter `dial`: the new connection, or none.
pub mod Remotes
pub mod Join
use my_cluster.Common.{
  ℕ, ◌≡◌, Bool, true, false, List, [], ◌∷◌, ◌++◌, Option, none, some, String, lookup, insert,
  delete, string_eq, nat_eq, if◌then◌else◌,
}
use my_cluster.Cluster.Conf.{ClusterConf, ClusterServerConf}
use my_cluster.Cluster.ChildMgr.{Child, Childs, add_child, remove_child, get_child}

-- The connections by their names, the properties "remote" and "child" of the connections, and the
-- calls of `TakeProxy` that were sent: the connection and the name that is its argument.
pub record Node : Type 0 where
  pub name : String
  pub cconf : ClusterConf
  pub remote_nodes_mgr : Childs
  pub childs_mgr : Childs
  pub remote_property : List (ℕ × String)
  pub child_property : List (ℕ × String)
  pub proxies_sent : List (ℕ × String)

-- `fnet.NewTcpClient` panics when it cannot connect.
pub data Result : Type 0 where
  done : Node → Result
  panics : Result

unfoldable pub get_remote : String → Node → Option Child
get_remote rname n = get_child rname n.remote_nodes_mgr

unfoldable pub add_remote : String → ℕ → Node → Node
add_remote rname conn n = record n {
  remote_nodes_mgr = add_child rname conn n.remote_nodes_mgr;
  remote_property = insert conn rname n.remote_property;
  proxies_sent = (conn, n.name) ∷ n.proxies_sent;
}

unfoldable pub dialled : String → Node → Option ℕ → Result
dialled rname n none = panics
dialled rname n (some conn) = done (add_remote rname conn n)

unfoldable pub connect_new : String → Option ℕ → Node → Option Child → Result
connect_new rname dial n (some child) = done n
connect_new rname dial n none = dialled rname n dial

unfoldable pub connect_configured : String → Option ℕ → Node → Option ClusterServerConf → Result
connect_configured rname dial n none = done n
connect_configured rname dial n (some conf) = connect_new rname dial n (get_remote rname n)

unfoldable pub connect_to_remote : (Node → String → Option ℕ) → String → Node → Result
connect_to_remote dial rname n =
    connect_configured rname (dial n rname) n (lookup rname n.cconf.servers)

-- The notice of the master that a remote is online.
unfoldable pub root_take_proxy : (Node → String → Option ℕ) → String → Node → Result
root_take_proxy dial rname n = connect_to_remote dial rname n

-- The loop over the roots that the master answered.
unfoldable pub and_then : (Node → Result) → Result → Result
and_then k (done n) = k n
and_then k panics = panics

unfoldable pub connect_all : (Node → String → Option ℕ) → List String → Node → Result
connect_all dial [] n = done n
connect_all dial (root ∷ roots) n =
    and_then (connect_all dial roots) (connect_to_remote dial root n)

-- The value under "roots" in a response, as gob gives it back: a slice of strings, or one of
-- interfaces.
pub data Roots : Type 0 where
  strings interfaces : List String → Roots

-- `ConnectToMaster` and `ReConnectMasterCB` after the call of `TakeProxy`, whose error is a panic.
-- Each asserts a type of its own.
pub data Response : Type 0 where
  failed : Response
  answered : Option Roots → Response

unfoldable pub connected_to_master : (Node → String → Option ℕ) → Response → Node → Result
connected_to_master dial failed n = panics
connected_to_master dial (answered none) n = done n
connected_to_master dial (answered (some (strings roots))) n = connect_all dial roots n
connected_to_master dial (answered (some (interfaces roots))) n = panics

unfoldable pub reconnect_master_cb : (Node → String → Option ℕ) → Response → Node → Result
reconnect_master_cb dial failed n = panics
reconnect_master_cb dial (answered none) n = done n
reconnect_master_cb dial (answered (some (interfaces roots))) n = connect_all dial roots n
reconnect_master_cb dial (answered (some (strings roots))) n = panics

-- A child has connected: `RootRpc.TakeProxy`.
unfoldable pub take_child : String → ℕ → Node → Node
take_child name writer n = record n {
  childs_mgr = add_child name writer n.childs_mgr;
  child_property = insert writer name n.child_property;
}

unfoldable pub lose_child : Node → Option String → Node
lose_child n none = n
lose_child n (some name) = record n { childs_mgr = remove_child name n.childs_mgr }

-- `DoCSConnectionLost`, on a connection that was accepted, and `DoCCConnectionLost`, on one dialled.
unfoldable pub cs_connection_lost : ℕ → Node → Node
cs_connection_lost fconn n = lose_child n (lookup fconn n.child_property)

unfoldable pub lose_remote : Node → Option String → Node
lose_remote n none = n
lose_remote n (some rname) = record n { remote_nodes_mgr = remove_child rname n.remote_nodes_mgr }

unfoldable pub cc_connection_lost : ℕ → Node → Node
cc_connection_lost fconn n = lose_remote n (lookup fconn n.remote_property)
