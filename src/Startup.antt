-- ===== src/Startup.antt =====
-- clusterserver/clusterserver.go, `StartConnectDb`: a gate that starts takes the first number of its
-- requests from the database.
pub mod Modules
pub mod MaxRid
mod Tests
mod ModulesTests
use my_cluster.Common.{ℕ, Bool, true, false, List, [], Option, none, some, if◌then◌else◌, ◌==◌}
use my_cluster.Wire.{Bytes}
use my_cluster.Strings.{bytes_eq}
use my_cluster.Strings.Decimal.{itoa}
use my_cluster.Globals.{GlobalObj}
use my_cluster.Db.{Redis, Dbop, Outcome, done, panicked, blocks, ◌>>=◌, new_dbop, start, init_db}

-- The fields of `ClusterServerConf` that this reads.
pub record DbConf : Type 0 where
  pub db : Bytes
  pub dbid : Bytes
  pub dbpwd : Bytes
  -- A `uint64`.
  pub startid : ℕ

-- `MaxRid` keeps its value when the database gives 0.
unfoldable pub with_max_rid : ℕ → GlobalObj → GlobalObj
with_max_rid ret g = if ret == 0 then g else record g { max_rid = ret }

module _ (r : Redis) where
  open r use {S}

  abbrev pub connect_db : DbConf → GlobalObj → S → Outcome (GlobalObj × Option Dbop × S)
  connect_db conf g w =
      start r (new_dbop conf.dbid conf.db conf.dbpwd) w
      >>= (λ s. init_db r (itoa conf.startid) s.0 s.1)
      >>= λ t. done (with_max_rid t.0 g, some t.1, t.2)

  -- With the configuration of the node, if it has one; the database object is `Dbmgr` then.
  unfoldable pub start_connect_db :
      Option DbConf → GlobalObj → S → Outcome (GlobalObj × Option Dbop × S)
  start_connect_db none g w = panicked
  start_connect_db (some conf) g w =
      if bytes_eq conf.db [] then done (g, none, w) else connect_db conf g w
