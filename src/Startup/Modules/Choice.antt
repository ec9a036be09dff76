-- ===== src/Startup/Modules/Choice.antt =====
-- clusterserver/clusterserver.go: which protocol a node has for the modules of its API.
use my_cluster.Common.{ℕ, zero, suc, ◌≡◌, refl, ◌⊎◌, String, ◌==◌, false, arith}
use my_cluster.Strings.{codes}
use my_cluster.Strings.Contains.{Within}
use my_cluster.Cluster.Conf.{ClusterServerConf}
use my_cluster.Startup.Modules.{
  Protocol, rpc_server, net_protocol, initial_protocol, gate_protocol, chosen,
}

-- The protocol of a server by its ports.
abbrev pub serves : ℕ → ℕ → Protocol
serves net_port (suc root_port) = rpc_server
serves (suc net_port) zero = net_protocol
serves zero zero = initial_protocol

pub chosen-serves : (net_port root_port : ℕ) → chosen net_port root_port ≡ serves net_port root_port
chosen-serves net_port (suc root_port) =
    let some_port : (suc root_port == 0) ≡ false = ground arith in rw some_port refl
chosen-serves (suc net_port) zero =
    let some_port : (suc net_port == 0) ≡ false = ground arith in rw some_port refl
chosen-serves zero zero = refl

-- The gate's protocol for a name with the word, and for any other the one of the server.
abbrev pub Serves : String → ClusterServerConf → Protocol → Type 0
Serves name conf p =
    (Within (codes "gate") (codes name) × (p ≡ gate_protocol))
    ⊎ ((Within (codes "gate") (codes name) → ⊥) × (p ≡ serves conf.net_port conf.root_port))
