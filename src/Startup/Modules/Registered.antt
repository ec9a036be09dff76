-- ===== src/Startup/Modules/Registered.antt =====
-- clusterserver/clusterserver.go: which modules get to which protocol.
use my_cluster.Common.{
  ℕ, ◌≡◌, refl, ap, ap₂, sym, ◌∙◌, Bool, List, [], ◌∷◌, ◌++◌, some, String, string_eq, beq, lookup,
  if◌then◌else◌, lookup-insert, Bool-cases, inl, inr, append_assoc, append-nil, eq_of_beq, some_inj,
  ◌==◌, not, subst,
}
use my_cluster.Strings.{codes}
use my_cluster.Strings.Contains.{contains_text-cases}
use my_cluster.Cluster.Conf.{ClusterServerConf, ClusterConf}
use my_cluster.Startup.Modules.Choice.{Serves, chosen-serves}
use my_cluster.Startup.Modules.{
  chosen, Protocol, rpc_client, rpc_server, Setup, modules_under, set_up, new_cluster_server,
  add_module_rpc, add_module_api, append_module, api_protocol, cs_add_router, cs_add_rpc_router,
  each, register_modules,
}

-- A call of `AddModuleRpc` or of `AddModuleApi`.
pub data ModuleCall (R : Type 0) : Type 0 where
  rpc_module api_module : String → R → ModuleCall R

module _ {R : Type 0} where
  unfoldable pub module_call : ModuleCall R → Setup R → Setup R
  module_call (rpc_module mname m) s = add_module_rpc mname m s
  module_call (api_module mname m) s = add_module_api mname m s

  abbrev pub module_calls : List (ModuleCall R) → Setup R → Setup R
  module_calls [] s = s
  module_calls (c ∷ cs) s = module_calls cs (module_call c s)

  -- The modules of the calls under a name.
  abbrev pub apis_of : String → List (ModuleCall R) → List R
  apis_of k [] = []
  apis_of k (rpc_module mname m ∷ cs) = apis_of k cs
  apis_of k (api_module mname m ∷ cs) = (if beq mname k then m ∷ [] else []) ++ apis_of k cs

  abbrev pub rpcs_of : String → List (ModuleCall R) → List R
  rpcs_of k [] = []
  rpcs_of k (api_module mname m ∷ cs) = rpcs_of k cs
  rpcs_of k (rpc_module mname m ∷ cs) = (if beq mname k then m ∷ [] else []) ++ rpcs_of k cs

  abbrev pub given_to : Protocol → List R → List (Protocol × R)
  given_to p [] = []
  given_to p (m ∷ ms) = (p, m) ∷ given_to p ms

  -- A module of calls gets to the client, and to the server where there is one.
  abbrev pub given_to_rpc : Bool → List R → List (Protocol × R)
  given_to_rpc server [] = []
  given_to_rpc server (m ∷ ms) =
      (rpc_client, m) ∷ ((if server then (rpc_server, m) ∷ [] else []) ++ given_to_rpc server ms)

  append_module-under :
      (mname k : String) (m : R) (ms : List (String × List R))
      → modules_under (lookup k (append_module mname m ms))
        ≡ modules_under (lookup k ms) ++ (if beq mname k then m ∷ [] else [])
  append_module-under mname k m ms = elim (Bool-cases (beq mname k)) [
    | inl same ↦
        ap modules_under (lookup-insert mname k _ ms)
        ∙ rw same (ap (λ j. modules_under (lookup j ms) ++ m ∷ []) (eq_of_beq mname k same))
    | inr other ↦
        ap modules_under (lookup-insert mname k _ ms)
        ∙ rw other (sym (append-nil (modules_under (lookup k ms))))
  ]

  apis-module_calls :
      (k : String) (cs : List (ModuleCall R)) (s : Setup R)
      → modules_under (lookup k (module_calls cs s).modules_api)
        ≡ modules_under (lookup k s.modules_api) ++ apis_of k cs
  unfolding module_call add_module_rpc add_module_api
  apis-module_calls k [] s = sym (append-nil (modules_under (lookup k s.modules_api)))
  apis-module_calls k (rpc_module mname m ∷ cs) s =
      apis-module_calls k cs (add_module_rpc mname m s)
  apis-module_calls k (api_module mname m ∷ cs) s =
      apis-module_calls k cs (add_module_api mname m s)
      ∙ ap (λ (ms : List R). ms ++ apis_of k cs) (append_module-under mname k m s.modules_api)
      ∙ append_assoc (modules_under (lookup k s.modules_api)) _ (apis_of k cs)

  rpcs-module_calls :
      (k : String) (cs : List (ModuleCall R)) (s : Setup R)
      → modules_under (lookup k (module_calls cs s).modules_rpc)
        ≡ modules_under (lookup k s.modules_rpc) ++ rpcs_of k cs
  unfolding module_call add_module_rpc add_module_api
  rpcs-module_calls k [] s = sym (append-nil (modules_under (lookup k s.modules_rpc)))
  rpcs-module_calls k (api_module mname m ∷ cs) s =
      rpcs-module_calls k cs (add_module_api mname m s)
  rpcs-module_calls k (rpc_module mname m ∷ cs) s =
      rpcs-module_calls k cs (add_module_rpc mname m s)
      ∙ ap (λ (ms : List R). ms ++ rpcs_of k cs) (append_module-under mname k m s.modules_rpc)
      ∙ append_assoc (modules_under (lookup k s.modules_rpc)) _ (rpcs_of k cs)

  -- The calls change nothing but the two maps.
  record Same (s s' : Setup R) : Type 0 where
    same_api : api_protocol s' ≡ api_protocol s
    same_server : s'.has_rpc_server ≡ s.has_rpc_server
    same_routers : s'.routers ≡ s.routers

  module_calls-Same : (cs : List (ModuleCall R)) (s : Setup R) → Same s (module_calls cs s)
  unfolding module_call add_module_rpc add_module_api
  module_calls-Same [] s = record { same_api = refl; same_server = refl; same_routers = refl }
  module_calls-Same (rpc_module mname m ∷ cs) s =
      let v = module_calls-Same cs (add_module_rpc mname m s) in
      record { same_api = v.same_api; same_server = v.same_server; same_routers = v.same_routers }
  module_calls-Same (api_module mname m ∷ cs) s =
      let v = module_calls-Same cs (add_module_api mname m s) in
      record { same_api = v.same_api; same_server = v.same_server; same_routers = v.same_routers }

  each-apis :
      (ms : List R) (s : Setup R)
      → each cs_add_router ms s ≡ record s { routers = s.routers ++ given_to (api_protocol s) ms }
  unfolding cs_add_router
  each-apis [] s =
      ap (λ (rs : List (Protocol × R)). record s { routers = rs }) (sym (append-nil s.routers))
  each-apis (m ∷ ms) s =
      each-apis ms (cs_add_router s m)
      ∙ ap (λ (rs : List (Protocol × R)). record s { routers = rs })
          (append_assoc s.routers ((api_protocol s, m) ∷ []) (given_to (api_protocol s) ms))

  each-rpcs :
      (ms : List R) (s : Setup R)
      → (each cs_add_rpc_router ms s).routers ≡ s.routers ++ given_to_rpc s.has_rpc_server ms
  unfolding cs_add_rpc_router
  each-rpcs [] s = sym (append-nil s.routers)
  each-rpcs (m ∷ ms) s =
      let also : List (Protocol × R) = if s.has_rpc_server then (rpc_server, m) ∷ [] else [] in
      each-rpcs ms (cs_add_rpc_router s m)
      ∙ append_assoc (s.routers ++ (rpc_client, m) ∷ []) also (given_to_rpc s.has_rpc_server ms)
      ∙ append_assoc s.routers ((rpc_client, m) ∷ []) (also ++ given_to_rpc s.has_rpc_server ms)

  -- What a node is before the first call.
  record Fresh (name : String) (conf : ClusterServerConf) (s : Setup R) : Type 0 where
    no_rpc : s.modules_rpc ≡ []
    no_api : s.modules_api ≡ []
    no_routers : s.routers ≡ []
    server_is : s.has_rpc_server ≡ not (conf.root_port == 0)
    name_is : s.name ≡ name
    protoc_is : s.protoc ≡ chosen conf.net_port conf.root_port

  set_up-Fresh :
      (name log_name : String) (port : ℕ) (conf : ClusterServerConf) (s : Setup R)
      → set_up name log_name port (some conf) ≡ some s
      → Fresh name conf s
  unfolding set_up
  set_up-Fresh name log_name port conf s e = subst (Fresh name conf) (some_inj _ s e) (record {
    no_rpc = refl;
    no_api = refl;
    no_routers = refl;
    server_is = refl;
    name_is = refl;
    protoc_is = refl;
  })

  api_protocol-Serves :
      (name : String) (conf : ClusterServerConf) (s : Setup R)
      → Fresh name conf s
      → Serves name conf (api_protocol s)
  api_protocol-Serves name conf s v = elim (contains_text-cases (codes name) (codes "gate")) [
    | inl (found, w) ↦
        inl (w, ap (λ (k : String). api_protocol (record s { name = k })) v.name_is ∙ rw found refl)
    | inr (missing, w) ↦ inr (
      w,
      ap (λ (k : String). api_protocol (record s { name = k })) v.name_is
          ∙ rw missing (v.protoc_is ∙ chosen-serves conf.net_port conf.root_port),
    )
  ]

  -- For a node that is configured, after NewClusterServer and any calls of AddModuleRpc and
  -- AddModuleApi: StartClusterServer gives the modules that were added for the API under the node's
  -- module name, in their order, to the gate's protocol on a gate and else to the server's; and then
  -- those that were added for RPC under that name, in their order, to the RPC client and, where the
  -- root port is not 0, also to the RPC server; and no others. A gate is a node in whose name the word
  -- stands; the server's protocol is the RPC server's where there is a root port, or else that of
  -- clients where there is a net port, or else the initial one.
  pub register_modules-routers :
      (name log_name : String) (cconf : ClusterConf) (port : ℕ) (conf : ClusterServerConf)
      (cs : List (ModuleCall R)) (s : Setup R)
      → lookup name cconf.servers ≡ some conf
      → new_cluster_server name cconf log_name port ≡ some s
      → ((register_modules conf (module_calls cs s)).routers
          ≡ given_to (api_protocol s) (apis_of conf.module_name cs)
            ++ given_to_rpc (not (conf.root_port == 0)) (rpcs_of conf.module_name cs))
        × Serves name conf (api_protocol s)
  unfolding register_modules new_cluster_server lookup
  register_modules-routers name log_name cconf port conf cs s found made =
      let v =
        set_up-Fresh name log_name port conf s
          (ap (set_up name log_name port) (sym found) ∙ made) in
      let s1 = module_calls cs s in
      let same = module_calls-Same cs s in
      let k = conf.module_name in
      let apis = modules_under (lookup k s1.modules_api) in
      let s2 : Setup R = record s1 { routers = s1.routers ++ given_to (api_protocol s1) apis } in
      let apis_are : apis ≡ apis_of k cs =
        apis-module_calls k cs s
        ∙ ap (λ (ms : List (String × List R)). modules_under (lookup k ms) ++ apis_of k cs)
            v.no_api in
      let rpcs_are : modules_under (lookup k s1.modules_rpc) ≡ rpcs_of k cs =
        rpcs-module_calls k cs s
        ∙ ap (λ (ms : List (String × List R)). modules_under (lookup k ms) ++ rpcs_of k cs)
            v.no_rpc in
      (
        rw (each-apis apis s1) (
            each-rpcs (modules_under (lookup k s1.modules_rpc)) s2
            ∙ ap₂ ◌++◌
                (ap₂ ◌++◌ (same.same_routers ∙ v.no_routers) (ap₂ given_to same.same_api apis_are))
                (ap₂ given_to_rpc (same.same_server ∙ v.server_is) rpcs_are)),
        api_protocol-Serves name conf s v,
      )
