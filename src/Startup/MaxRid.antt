-- ===== src/Startup/MaxRid.antt =====
-- clusterserver/clusterserver.go with db/db.go: the first number of the requests of a gate.
use my_cluster.Common.{
  ℕ, ◌-◌, ◌^◌, ◌<◌, ◌≡◌, refl, ap, sym, ◌∙◌, false, [], ◌∷◌, some, if◌then◌else◌, ltb, ◌==◌, arith,
  Bool-cases, inl, inr,
}
use my_cluster.Strings.{codes, bytes_eq}
use my_cluster.Strings.Decimal.{itoa}
use my_cluster.Strings.Atoi.{unsigned, read_digits, read_digits-digits, digits-first}
use my_cluster.Globals.{GlobalObj}
use my_cluster.Db.{
  text, Redis, Dbop, done, start, connected, do_db_task, first_try, rid_of, init_db, parse_int,
  up_to, new_dbop,
}
use my_cluster.Startup.{DbConf, with_max_rid, start_connect_db}

-- The text of a number is parsed to the number, or to the bound of an `int64` above it.
parse_int-itoa : (n : ℕ) → parse_int (itoa n) ≡ up_to (some n)
unfolding parse_int itoa unsigned
parse_int-itoa n =
    let (c, s, e, first) = digits-first n n in
    let minus : (c == b'-') ≡ false = ground arith in
    let plus : (c == b'+') ≡ false = ground arith in
    rw e (
      rw (minus, plus)
        (ap up_to (ap (read_digits 0) (sym e) ∙ read_digits-digits n n (omega arith))))

-- A number that is not 0 is not parsed to 0.
up_to_suc : (n : ℕ) → 0 < n → (up_to (some n) == 0) ≡ false
up_to_suc n h = elim (Bool-cases (ltb n (2 ^ 63))) [
  | inl fits ↦ rw fits (ground (arith, h))
  | inr large ↦ rw large (ground arith)
]

module _ (r : Redis) where
  open r use {S, Reply, command, as_bool}

  -- A node with an address of a database and a first number that is not 0: when the database starts,
  -- answers EXISTS of the key by no, and answers the SET of the key to the text of that number, then
  -- StartConnectDb ends with the state after that SET, and MaxRid is the number, or 2 ^ 63 - 1 where
  -- the number is greater.
  pub start_connect_db-fresh :
      (conf : DbConf) (g : GlobalObj) (w w1 w2 w3 : S) (reply stored : Reply)
      → bytes_eq conf.db [] ≡ false
      → 0 < conf.startid
      → start r (new_dbop conf.dbid conf.db conf.dbpwd) w
        ≡ done (connected r (new_dbop conf.dbid conf.db conf.dbpwd), w1)
      → command (codes "EXISTS") (text (codes "login_max_rid") ∷ []) w1 ≡ (some reply, w2)
      → as_bool reply ≡ false
      → command (codes "SET") (text (codes "login_max_rid") ∷ text (itoa conf.startid) ∷ []) w2
        ≡ (some stored, w3)
      → (d : Dbop) × (start_connect_db r (some conf) g w
          ≡ done (
            record g { max_rid = if ltb conf.startid (2 ^ 63) then conf.startid else 2 ^ 63 - 1 },
            some d,
            w3,
          ))
  unfolding start_connect_db with_max_rid init_db rid_of do_db_task first_try
  start_connect_db-fresh conf g w w1 w2 w3 reply stored named h started exists no_key set =
      let fresh = record (connected r (new_dbop conf.dbid conf.db conf.dbpwd)) { reconn_ct = 0 } in
      (
        fresh,
        rw (named, started, exists, no_key, set, parse_int-itoa conf.startid)
            (rw (up_to_suc conf.startid h) refl),
      )
