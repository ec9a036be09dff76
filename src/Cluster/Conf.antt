-- ===== src/Cluster/Conf.antt =====
-- cluster/clusterconf.go. The configuration is read from a JSON file; here it is given.
use my_cluster.Common.{
  ℕ, ◌≡◌, refl, List, [], ◌∷◌, Option, none, some, arith, if◌then◌else◌, Bool, false, String,
  lookup, string_eq, contains,
}

-- The fields that only configure the web server and the database are left out.
pub record ClusterServerConf : Type 0 where
  pub name : String
  pub host : String
  pub root_port : ℕ
  pub udp_port : ℕ
  pub net_port : ℕ
  pub remotes : List String
  pub module_name : String
  pub log : String

pub record ClusterConf : Type 0 where
  pub master : ClusterServerConf
  pub servers : List (String × ClusterServerConf)

remotes_of : Option ClusterServerConf → Option (List String)
remotes_of none = none
remotes_of (some server) = some server.remotes

unfoldable pub get_remotes_by_name : ClusterConf → String → Option (List String)
unfolding remotes_of
get_remotes_by_name conf name = remotes_of (lookup name conf.servers)

-- The loop of `GetChildsByName`, with its inner loop as a test.
unfoldable pub childs_among : String → List (String × ClusterServerConf) → List String
childs_among name [] = []
childs_among name ((ser_name, ser) ∷ servers) =
    if contains name ser.remotes
    then ser_name ∷ childs_among name servers
    else childs_among name servers

unfoldable pub get_childs_by_name : ClusterConf → String → List String
unfolding childs_among
get_childs_by_name conf name = childs_among name conf.servers

-- `name` is configured with `parent` among its remotes.
abbrev pub wants : ClusterConf → String → String → Bool
wants conf name parent = elim (get_remotes_by_name conf name) [
  | none ↦ false
  | some remotes ↦ contains parent remotes
]

-- As a Go map has it: no key stands twice.
abbrev pub UniqueKeys : List (String × ClusterServerConf) → Type 0
UniqueKeys [] = Unit
UniqueKeys ((k, v) ∷ m) = (lookup k m ≡ none) × UniqueKeys m

contains-childs_among :
    (name c : String) (servers : List (String × ClusterServerConf))
    → UniqueKeys servers
    → contains c (childs_among name servers)
      ≡ (elim (remotes_of (lookup c servers)) [ none ↦ false | some rs ↦ contains name rs ])
unfolding childs_among remotes_of lookup
contains-childs_among name c [] u = refl
contains-childs_among name c ((k, ser) ∷ servers) u =
    ground (arith, contains-childs_among name c servers u.1, string_eq.beq_iff k c, u.0)

-- The two lookups of the configuration agree: a node is among the children of `name` exactly when it
-- is configured and `name` is among its remotes.
pub contains-get_childs_by_name :
    (conf : ClusterConf) (name c : String)
    → UniqueKeys conf.servers
    → contains c (get_childs_by_name conf name) ≡ wants conf c name
unfolding get_childs_by_name get_remotes_by_name
contains-get_childs_by_name conf name c u = contains-childs_among name c conf.servers u
