-- ===== src/Startup/Modules.antt =====
-- clusterserver/clusterserver.go: the protocols that `NewClusterServer` chooses, the port that
-- `StartTcpServer` opens, and the modules that `StartClusterServer` gives to the protocols. A module
-- is a value of the type `R`.
pub mod Choice
pub mod Registered
use my_cluster.Common.{
  ℕ, Bool, true, false, not, List, [], ◌∷◌, ◌++◌, Option, none, some, String, string_eq, beq,
  lookup, insert, if◌then◌else◌, ◌==◌, ltb,
}
use my_cluster.Strings.{codes, contains_text}
use my_cluster.Cluster.Conf.{ClusterServerConf, ClusterConf}

-- The objects that a router is added to; the first one is made before `main`.
pub data Protocol : Type 0 where
  initial_protocol net_protocol rpc_server rpc_client gate_protocol : Protocol

-- What is set of the global object and of the cluster server. `RpcCProtoc` is always made, and
-- `ProtocGate` under the test that `AddRouter` makes.
pub record Setup (R : Type 0) : Type 0 where
  pub name : String
  pub log_name : String
  pub protoc : Protocol
  pub has_rpc_server : Bool
  pub modules_rpc : List (String × List R)
  pub modules_api : List (String × List R)
  -- What was added to which protocol, the first first.
  pub routers : List (Protocol × R)
  pub tcp_port : ℕ
  pub listens : List ℕ

abbrev pub chosen : ℕ → ℕ → Protocol
chosen net_port root_port =
    if not (root_port == 0)
    then rpc_server
    else if not (net_port == 0)
    then net_protocol
    else initial_protocol

abbrev pub modules_under : {R : Type 0} → Option (List R) → List R
modules_under none = []
modules_under (some ms) = ms

module _ {R : Type 0} where
  -- A name that is not configured is a nil pointer, whose field is read.
  unfoldable pub set_up : String → String → ℕ → Option ClusterServerConf → Option (Setup R)
  set_up name log_name tcp_port none = none
  set_up name log_name tcp_port (some conf) = some (record {
    name = name;
    log_name = if beq conf.log "" then log_name else conf.log;
    protoc = chosen conf.net_port conf.root_port;
    has_rpc_server = not (conf.root_port == 0);
    modules_rpc = [];
    modules_api = [];
    routers = [];
    tcp_port = tcp_port;
    listens = [];
  })

  -- With the name of the log and the port that are set before.
  unfoldable pub new_cluster_server : String → ClusterConf → String → ℕ → Option (Setup R)
  new_cluster_server name cconf log_name tcp_port =
      set_up name log_name tcp_port (lookup name cconf.servers)

  abbrev pub listen : ℕ → Setup R → Setup R
  listen port s = record s { tcp_port = port; listens = s.listens ++ port ∷ [] }

  -- `StartTcpServer` of a node that is configured, without its database and its frames.
  unfoldable pub start_tcp_server : ClusterServerConf → Setup R → Setup R
  start_tcp_server conf s =
      if ltb 0 conf.net_port
      then listen conf.net_port s
      else if ltb 0 conf.root_port
      then listen conf.root_port s
      else s

  abbrev pub append_module : String → R → List (String × List R) → List (String × List R)
  append_module mname m ms = insert mname (modules_under (lookup mname ms) ++ m ∷ []) ms

  unfoldable pub add_module_rpc : String → R → Setup R → Setup R
  add_module_rpc mname m s = record s { modules_rpc = append_module mname m s.modules_rpc }

  unfoldable pub add_module_api : String → R → Setup R → Setup R
  add_module_api mname m s = record s { modules_api = append_module mname m s.modules_api }

  abbrev pub api_protocol : Setup R → Protocol
  api_protocol s = if contains_text (codes s.name) (codes "gate") then gate_protocol else s.protoc

  unfoldable pub cs_add_router : Setup R → R → Setup R
  cs_add_router s m = record s { routers = s.routers ++ (api_protocol s, m) ∷ [] }

  unfoldable pub cs_add_rpc_router : Setup R → R → Setup R
  cs_add_rpc_router s m = record s {
    routers =
        (s.routers ++ (rpc_client, m) ∷ [])
        ++ (if s.has_rpc_server then (rpc_server, m) ∷ [] else []);
  }

  abbrev pub each : (Setup R → R → Setup R) → List R → Setup R → Setup R
  each add [] s = s
  each add (m ∷ ms) s = each add ms (add s m)

  -- The loops of `StartClusterServer` over the modules of a node.
  unfoldable pub register_modules : ClusterServerConf → Setup R → Setup R
  register_modules conf s =
      let s' = each cs_add_router (modules_under (lookup conf.module_name s.modules_api)) s in
      each cs_add_rpc_router (modules_under (lookup conf.module_name s'.modules_rpc)) s'
