-- ===== src/Startup/ModulesTests.antt =====
-- clusterserver/clusterserver.go: the start of a node at a concrete configuration.
use my_cluster.Common.{ℕ, ◌≡◌, refl, List, [], ◌∷◌, ◌++◌, some, true, not, ◌==◌, lookup, string_eq}
use my_cluster.Cluster.Conf.{ClusterServerConf, ClusterConf}
use my_cluster.Startup.Modules.{
  Setup, rpc_server, set_up, new_cluster_server, api_protocol, register_modules, start_tcp_server,
}
use my_cluster.Startup.Modules.Choice.{Serves}
use my_cluster.Startup.Modules.Registered.{
  ModuleCall, rpc_module, api_module, module_calls, apis_of, rpcs_of, given_to, given_to_rpc,
  register_modules-routers,
}

abbrev lobby : ClusterServerConf
lobby = record {
  name = "gate1";
  host = "localhost";
  root_port = 9999;
  udp_port = 0;
  net_port = 8109;
  remotes = [];
  module_name = "lobby";
  log = "";
}

abbrev cconf : ClusterConf
cconf = record { master = lobby; servers = ("gate1", lobby) ∷ [] }

abbrev lobby_setup : Setup ℕ
lobby_setup = record {
  name = "gate1";
  log_name = "server.log";
  protoc = rpc_server;
  has_rpc_server = true;
  modules_rpc = [];
  modules_api = [];
  routers = [];
  tcp_port = 8109;
  listens = [];
}

found : lookup "gate1" cconf.servers ≡ some lobby
unfolding lookup
found = refl

made : new_cluster_server "gate1" cconf "server.log" 8109 ≡ some lobby_setup
unfolding new_cluster_server set_up lookup
made = refl

abbrev three_modules : List (ModuleCall ℕ)
three_modules = api_module "lobby" 1 ∷ rpc_module "hall" 2 ∷ rpc_module "lobby" 3 ∷ []

register_modules-routers_example :
    ((register_modules lobby (module_calls three_modules lobby_setup)).routers
      ≡ given_to (api_protocol lobby_setup) (apis_of "lobby" three_modules)
        ++ given_to_rpc (not (lobby.root_port == 0)) (rpcs_of "lobby" three_modules))
    × Serves "gate1" lobby (api_protocol lobby_setup)
register_modules-routers_example =
    register_modules-routers "gate1" "server.log" cconf 8109 lobby three_modules lobby_setup found
      made

-- With both ports only the net port is opened, and the protocol is the one of the RPC server.
only_net_port : (start_tcp_server lobby lobby_setup).listens ≡ 8109 ∷ []
unfolding start_tcp_server
only_net_port = refl
