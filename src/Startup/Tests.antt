-- ===== src/Startup/Tests.antt =====
-- clusterserver/clusterserver.go, `StartConnectDb`, at a concrete input: a database that knows one key.
use my_cluster.Common.{
  Option, none, not, ◌==◌, ℕ, ◌≡◌, ◌^◌, ◌-◌, refl, List, [], ◌∷◌, some, false, arith, ltb,
  if◌then◌else◌,
}
use my_cluster.Wire.{Bytes}
use my_cluster.Strings.{codes, bytes_eq}
use my_cluster.Strings.Decimal.{itoa}
use my_cluster.Globals.{GlobalObj}
use my_cluster.Db.{Arg, text, Redis, Dbop, done, start, dialled, auth, must, connected, new_dbop}
use my_cluster.Startup.{DbConf, start_connect_db}
use my_cluster.Startup.MaxRid.{start_connect_db-fresh}

-- The value that a SET gives.
abbrev value_of : List Arg → Option Bytes
value_of (text key ∷ text val ∷ []) = some val
value_of _ = none

abbrev is_set : Option Bytes → ℕ
is_set none = 0
is_set (some val) = 1

-- A database of the one key, known by its value.
abbrev one_key : Redis
one_key = record {
  S = Option Bytes;
  Reply = ℕ;
  dial = λ addr w. some w;
  command = λ c args w.
      if bytes_eq c (codes "EXISTS")
      then (some (is_set w), w)
      else if bytes_eq c (codes "SET")
      then (some 1, value_of args)
      else (some 1, w);
  as_bool = λ reply. not (reply == 0);
  as_uint64 = λ reply. reply;
}

abbrev conf : DbConf
conf = record { db = codes "host"; dbid = codes "0"; dbpwd = []; startid = 1000 }

abbrev gate : GlobalObj
gate = record { name = codes "gate1"; frequency_control = []; max_rid = 0 }

has_db : bytes_eq conf.db [] ≡ false
unfolding bytes_eq
has_db = refl

abbrev conf_db : Dbop
conf_db = new_dbop conf.dbid conf.db conf.dbpwd

starts : start one_key conf_db none ≡ done (connected one_key conf_db, none)
unfolding start dialled auth must bytes_eq new_dbop
starts = refl

start_connect_db-fresh_example :
    (d : Dbop) × (start_connect_db one_key (some conf) gate none
      ≡ done (
        record gate { max_rid = if ltb 1000 (2 ^ 63) then 1000 else 2 ^ 63 - 1 },
        some d,
        some (itoa 1000),
      ))
unfolding bytes_eq
start_connect_db-fresh_example =
    start_connect_db-fresh one_key conf gate none none none (some (itoa 1000)) 0 1 has_db
      (omega arith) starts refl refl refl
