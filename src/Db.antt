-- ===== src/Db.antt =====
-- db/db.go: commands to a redis server, which are tried again on a new connection and then kept. The
-- redis client is a parameter: the state of the world `S`, dialling it and a command on it.
pub mod Again
mod Tests
use my_cluster.Common.{
  ℕ, zero, suc, ◌+◌, ◌%◌, ◌^◌, Bool, true, false, not, List, [], ◌∷◌, ◌++◌, Option, none, some,
  if◌then◌else◌, length, ltb, leb, ◌-◌, ◌==◌,
}
use my_cluster.Wire.{Bytes}
use my_cluster.Strings.{codes, bytes_eq}
use my_cluster.Strings.Atoi.{unsigned}

-- An argument of a command: a text, or a whole list of texts as one value.
pub data Arg : Type 0 where
  text : Bytes → Arg
  texts : List Bytes → Arg

pub record OpSt : Type 0 where
  pub op_cmd : Bytes
  pub op_args : List Bytes

-- What the code uses of the client: a dial, a command with its reply or an error, and two readers of
-- replies.
pub record Redis : Type 1 where
  pub S : Type 0
  pub Reply : Type 0
  pub dial : Bytes → S → Option S
  pub command : Bytes → List Arg → S → Option Reply × S
  pub as_bool : Reply → Bool
  pub as_uint64 : Reply → ℕ

-- The object and the variables of the package; the calls planned with the timer are counted.
pub record Dbop : Type 0 where
  pub is_conn : Bool
  pub op_pool : List OpSt
  pub dbid : Bytes
  pub addr : Bytes
  pub pwd : Bytes
  pub g_timer : Bool
  pub reconn_ct : ℕ
  pub loops : ℕ
  pub planned : ℕ

pub data Outcome (A : Type 0) : Type 0 where
  done : A → Outcome A
  panicked : Outcome A
  blocks : Outcome A

infixl 5 ◌>>=◌
abbrev pub ◌>>=◌ : {A B : Type 0} → Outcome A → (A → Outcome B) → Outcome B
done a >>= f = f a
panicked >>= f = panicked
blocks >>= f = blocks

unfoldable pub new_dbop : Bytes → Bytes → Bytes → Dbop
new_dbop dbid addr pwd = record {
  is_conn = false;
  op_pool = [];
  dbid = dbid;
  addr = addr;
  pwd = pwd;
  g_timer = false;
  reconn_ct = 0;
  loops = 0;
  planned = 0;
}

abbrev pub now_key : Bytes
now_key = codes "login_max_rid"

-- `strconv.ParseInt` of 64 bits, whose error is ignored, as a `uint64`: 0 for a text that is no
-- number, the bound for one that is out of range.
abbrev pub up_to : Option ℕ → ℕ
up_to none = 0
up_to (some n) = if ltb n (2 ^ 63) then n else 2 ^ 63 - 1

abbrev pub down_to : Option ℕ → ℕ
down_to none = 0
down_to (some n) = if leb n (2 ^ 63) then (2 ^ 64 - n) % 2 ^ 64 else 2 ^ 63

unfoldable pub parse_int : Bytes → ℕ
parse_int [] = 0
parse_int (c ∷ s) =
    if c == b'-'
    then down_to (unsigned s)
    else if c == b'+'
    then up_to (unsigned s)
    else up_to (unsigned (c ∷ s))

module _ (r : Redis) where
  open r use {S, Reply, dial, command, as_bool, as_uint64}

  -- A command whose error is a panic.
  unfoldable pub must : Option Reply × S → Outcome S
  must (none, w) = panicked
  must (some reply, w) = done w

  unfoldable pub dialled : Option S → Outcome S
  dialled none = panicked
  dialled (some w) = done w

  unfoldable pub auth : Bytes → S → Outcome S
  auth pwd w =
      if not (bytes_eq pwd []) then must (command (codes "AUTH") (text pwd ∷ []) w) else done w

  -- The end of `Start`: the first time it plans a PING for every second.
  abbrev pub connected : Dbop → Dbop
  connected d = record d {
    is_conn = true;
    g_timer = true;
    loops = if d.g_timer then d.loops else d.loops + 1;
  }

  unfoldable pub start : Dbop → S → Outcome (Dbop × S)
  start d w =
      dialled (dial d.addr w)
      >>= auth d.pwd
      >>= (λ w'. must (command (codes "SELECT") (text d.dbid ∷ []) w'))
      >>= (λ w'. done (connected d, w'))

  -- The assertions `val.(string)`.
  unfoldable pub all_texts : List Arg → Option (List Bytes)
  all_texts [] = some []
  all_texts (text s ∷ args) = elim (all_texts args) [ none ↦ none | some rest ↦ some (s ∷ rest) ]
  all_texts (texts ss ∷ args) = none

  -- A command that failed twice is kept, and another attempt is planned.
  unfoldable pub keep : Bytes → Option (List Bytes) → Dbop → S → Outcome (Option Reply × Dbop × S)
  keep op_cmd none d w = panicked
  keep op_cmd (some ss) d w =
      if ltb (length d.op_pool) 1024
      then done (
        none,
        record d {
          op_pool = d.op_pool ++ record { op_cmd = op_cmd; op_args = ss } ∷ [];
          planned = d.planned + 1;
        },
        w,
      )
      else blocks

  unfoldable pub second_try :
      Bytes → List Arg → Dbop → Option Reply × S → Outcome (Option Reply × Dbop × S)
  second_try op_cmd args d (none, w) = keep op_cmd (all_texts args) d w
  second_try op_cmd args d (some reply, w) = done (some reply, d, w)

  unfoldable pub first_try :
      Bytes → List Arg → Dbop → Option Reply × S → Outcome (Option Reply × Dbop × S)
  first_try op_cmd args d (some reply, w) = done (some reply, record d { reconn_ct = 0 }, w)
  first_try op_cmd args d (none, w) =
      start d w >>= λ s. second_try op_cmd args s.0 (command op_cmd args s.1)

  -- `DoDbTask`: `none` in the result is its error.
  unfoldable pub do_db_task : Bytes → List Arg → Dbop → S → Outcome (Option Reply × Dbop × S)
  do_db_task op_cmd args d w = first_try op_cmd args d (command op_cmd args w)

  -- A command of the pool that fails is a panic.
  unfoldable pub redone : Option Reply × Dbop × S → Outcome (Dbop × S)
  redone (none, d, w) = panicked
  redone (some reply, d, w) = done (d, w)

  -- The loop of `ReConn`; `blocks` when the fuel is not enough.
  unfoldable pub redo_pool : ℕ → List OpSt → Dbop → S → Outcome (Dbop × S)
  redo_pool zero ops d w = blocks
  redo_pool (suc fuel) [] d w = done (d, w)
  redo_pool (suc fuel) (op ∷ ops) d w =
      do_db_task op.op_cmd (texts op.op_args ∷ []) (record d { op_pool = ops }) w
      >>= redone
      >>= λ s. redo_pool fuel s.0.op_pool s.0 s.1

  unfoldable pub re_conn : ℕ → Dbop → S → Outcome (Dbop × S)
  re_conn fuel d w =
      if leb 10 d.reconn_ct
      then done (record d { loops = d.loops + 1 }, w)
      else (start d w >>= (λ s. redo_pool fuel s.0.op_pool s.0 s.1) >>= λ s.
          done (record s.0 { reconn_ct = s.0.reconn_ct + 1 }, s.1))

  -- The rest of `InitDb`: with the reply to GET; with the state after SET; with the reply to EXISTS.
  unfoldable pub rid_found : Option Reply × Dbop × S → Outcome (ℕ × Dbop × S)
  rid_found (none, d, w) = panicked
  rid_found (some reply, d, w) = done (as_uint64 reply, d, w)

  unfoldable pub rid_of : Bytes → Option Reply × Dbop × S → Outcome (ℕ × Dbop × S)
  rid_of val (none, d, w) = panicked
  rid_of val (some reply, d, w) =
      if as_bool reply
      then do_db_task (codes "GET") (text now_key ∷ []) d w >>= rid_found
      else (do_db_task (codes "SET") (text now_key ∷ text val ∷ []) d w >>= λ s.
          done (parse_int val, s.1, s.2))

  unfoldable pub init_db : Bytes → Dbop → S → Outcome (ℕ × Dbop × S)
  init_db val d w = do_db_task (codes "EXISTS") (text now_key ∷ []) d w >>= rid_of val
