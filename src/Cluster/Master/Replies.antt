-- ===== src/Cluster/Master/Replies.antt =====
-- sys_rpc/master_rpc.go: what `TakeProxy` answers and whom it notifies.

use my_cluster.Common.{
  ℕ, ◌≡◌, refl, List, [], ◌∷◌, arith, Bool, ◌&&◌, String, lookup, insert, delete, string_eq, nat_eq,
  contains, has_key,
}
use my_cluster.Cluster.Conf.{ClusterConf, wants}
use my_cluster.Cluster.ChildMgr.{Child, Childs, add_child, remove_child, get_childs}
use my_cluster.Cluster.Master.{online_roots, is_among, notified}

-- A child is registered under its own name.
abbrev pub Named : Childs → Type 0
Named [] = Unit
Named ((k, child) ∷ childs) = (child.name ≡ k) × Named childs

abbrev pub names : List Child → List String
names [] = []
names (c ∷ cs) = c.name ∷ names cs

pub add_child-Named :
    (name : String) (conn : ℕ) (childs : Childs) → Named childs → Named (add_child name conn childs)
unfolding add_child insert
add_child-Named name conn [] h = (refl, tt)
add_child-Named name conn ((k, c) ∷ childs) h = ground (arith, add_child-Named name conn childs h.1)

pub remove_child-Named :
    (name : String) (childs : Childs) → Named childs → Named (remove_child name childs)
unfolding remove_child delete
remove_child-Named name [] h = tt
remove_child-Named name ((k, c) ∷ childs) h = ground (arith, remove_child-Named name childs h.1)

-- The notices go to exactly the connected nodes that have the new node among their remotes.
pub notified_exact :
    (conf : ClusterConf) (name c : String) (childs : Childs)
    → Named childs
    → contains c (names (notified conf name (get_childs childs)))
      ≡ (has_key c childs && wants conf c name)
unfolding notified get_childs lookup is_among
notified_exact conf name c [] h = refl
notified_exact conf name c ((k, child) ∷ childs) h =
    ground (arith, string_eq.beq_iff k c, h.0, notified_exact conf name c childs h.1)

-- The roots are exactly the remotes that are online.
pub online_roots_exact :
    (online : List (String × Bool)) (r : String) (remotes : List String)
    → contains r (online_roots online remotes) ≡ (contains r remotes && has_key r online)
unfolding online_roots
online_roots_exact online r [] = refl
online_roots_exact online r (x ∷ remotes) =
    ground (arith, string_eq.beq_iff x r, online_roots_exact online r remotes)
