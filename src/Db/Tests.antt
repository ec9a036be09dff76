-- ===== src/Db/Tests.antt =====
-- db/db.go at concrete inputs: a server that keeps a list of the commands that it was sent.
use my_cluster.Common.{ℕ, ◌≡◌, refl, List, [], ◌∷◌, ◌++◌, none, some, true, arith, if◌then◌else◌}
use my_cluster.Wire.{Bytes}
use my_cluster.Strings.{codes, bytes_eq}
use my_cluster.Db.{
  Arg, text, texts, OpSt, panicked, Redis, Dbop, done, new_dbop, start, must, dialled, auth,
  connected, do_db_task, first_try, second_try, keep, all_texts, re_conn,
}
use my_cluster.Db.Again.{Accounted, do_db_task-Accounted, re_conn-panics}

-- A server that answers all, and one whose commands but SELECT fail.
abbrev Sent : Type 0
Sent = List (Bytes × List Arg)

abbrev recorder : Redis
recorder = record {
  S = Sent;
  Reply = ℕ;
  dial = λ addr w. some w;
  command = λ c args w. (some 1, w ++ (c, args) ∷ []);
  as_bool = λ reply. true;
  as_uint64 = λ reply. reply;
}

abbrev failing : Redis
failing = record recorder {
  command = λ c args w. (if bytes_eq c (codes "SELECT") then some 1 else none, w ++ (c, args) ∷ []);
}

abbrev db : Dbop
db = new_dbop (codes "0") (codes "host") []

abbrev set_args : List Arg
set_args = text (codes "k") ∷ text (codes "v") ∷ []

abbrev waiting_db : Dbop
waiting_db = record db {
  op_pool = record { op_cmd = codes "SET"; op_args = codes "k" ∷ codes "v" ∷ [] } ∷ [];
}

abbrev tried : Sent
tried =
    (codes "SET", set_args) ∷ (codes "SELECT", text (codes "0") ∷ []) ∷ (codes "SET", set_args) ∷ []

abbrev kept_db : Dbop
kept_db = record (connected failing db) {
  op_pool = record { op_cmd = codes "SET"; op_args = codes "k" ∷ codes "v" ∷ [] } ∷ [];
  planned = 1;
}

set_fails : do_db_task failing (codes "SET") set_args db [] ≡ done (none, kept_db, tried)
unfolding do_db_task first_try second_try start dialled auth must keep all_texts bytes_eq new_dbop
set_fails = refl

do_db_task-Accounted_example : Accounted failing (codes "SET") set_args db (none, kept_db, tried)
do_db_task-Accounted_example =
    do_db_task-Accounted failing (codes "SET") set_args db [] (none, kept_db, tried) set_fails

abbrev select : Bytes × List Arg
select = (codes "SELECT", text (codes "0") ∷ [])

abbrev set_again : Bytes × List Arg
set_again = (codes "SET", texts (codes "k" ∷ codes "v" ∷ []) ∷ [])

abbrev set_op : OpSt
set_op = record { op_cmd = codes "SET"; op_args = codes "k" ∷ codes "v" ∷ [] }

starts : start failing waiting_db [] ≡ done (connected failing waiting_db, select ∷ [])
unfolding start dialled auth must bytes_eq new_dbop
starts = refl

starts_again :
    start failing (connected failing db) (select ∷ set_again ∷ [])
    ≡ done (connected failing db, select ∷ set_again ∷ select ∷ [])
unfolding start dialled auth must bytes_eq new_dbop
starts_again = refl

re_conn-panics_example : re_conn failing 2 waiting_db [] ≡ panicked
unfolding new_dbop bytes_eq
re_conn-panics_example =
    re_conn-panics failing 1 set_op [] waiting_db [] (select ∷ []) (select ∷ set_again ∷ [])
      (select ∷ set_again ∷ select ∷ []) (select ∷ set_again ∷ select ∷ set_again ∷ []) refl
      (omega arith) starts refl starts_again refl
