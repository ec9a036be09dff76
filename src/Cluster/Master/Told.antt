-- ===== src/Cluster/Master/Told.antt =====
-- clusterserver/master.go and sys_rpc/master_rpc.go: what the nodes have been told, as pairs of a
-- child and a parent.
use my_cluster.Common.{
  ◌≡◌, refl, sym, ap, ap₂, ◌∙◌, false≢true, List, [], ◌∷◌, ◌++◌, Option, none, some, arith,
  if◌then◌else◌, Bool, true, false, ◌&&◌, ◌||◌, inl, inr, String, string_eq, nat_eq, Bool-cases,
  beq, contains, has_key, eq_of_beq, beq_refl,
}
use my_cluster.Cluster.ChildMgr.{Child}
use my_cluster.Cluster.Master.{Master, roots_for, online_roots}
use my_cluster.Cluster.Master.Replies.{names, online_roots_exact}

-- Pairs of a child and a parent: the child was told to connect to the parent.
abbrev pub Links : Type 0
Links = List (String × String)

abbrev pub has_link : String → String → Links → Bool
has_link c p [] = false
has_link c p ((a, b) ∷ links) = (beq a c && beq b p) || has_link c p links

-- A node that takes its proxy again has forgotten its links, and its parents have lost theirs to it.
unfoldable pub forget : String → Links → Links
forget name [] = []
forget name ((a, b) ∷ links) =
    if beq name a || beq name b then forget name links else (a, b) ∷ forget name links

unfoldable pub root_links : String → List String → Links
root_links name [] = []
root_links name (r ∷ roots) = (name, r) ∷ root_links name roots

unfoldable pub notice_links : String → List Child → Links
notice_links name [] = []
notice_links name (c ∷ childs) = (c.name, name) ∷ notice_links name childs

unfoldable pub reply_links : String → Option (List String) → Links
reply_links name none = []
reply_links name (some roots) = root_links name roots

pub has_link-append :
    (c p : String) (xs ys : Links) → has_link c p (xs ++ ys) ≡ (has_link c p xs || has_link c p ys)
has_link-append c p [] ys = refl
has_link-append c p ((a, b) ∷ xs) ys = ground (arith, has_link-append c p xs ys)

not_link :
    (a b c p name : String)
    → (beq name a || beq name b) ≡ true
    → beq name c ≡ false
    → beq name p ≡ false
    → (beq a c && beq b p) ≡ false
not_link a b c p name h nc np = elim (Bool-cases (beq a c)) [
  | inr e ↦ rw e refl
  | inl e ↦ elim (Bool-cases (beq b p)) [
    | inr e' ↦ rw (e, e') refl
    | inl e' ↦ absurd (
        false≢true (
          sym (ap₂ ◌||◌ nc np)
          ∙ ap₂ (λ x y. beq name x || beq name y) (sym (eq_of_beq a c e)) (sym (eq_of_beq b p e'))
          ∙ h))
  ]
]

pub has_link-forget :
    (c p name : String) (links : Links)
    → beq name c ≡ false
    → beq name p ≡ false
    → has_link c p (forget name links) ≡ has_link c p links
unfolding forget
has_link-forget c p name [] nc np = refl
has_link-forget c p name ((a, b) ∷ links) nc np = elim (Bool-cases (beq name a || beq name b)) [
  | inl e ↦ rw (e, not_link a b c p name e nc np) (has_link-forget c p name links nc np)
  | inr e ↦ rw e (ap (λ x. (beq a c && beq b p) || x) (has_link-forget c p name links nc np))
]

pub has_link-root_links :
    (c p name : String) (roots : List String)
    → has_link c p (root_links name roots) ≡ (beq name c && contains p roots)
unfolding root_links
has_link-root_links c p name [] = ground arith
has_link-root_links c p name (r ∷ roots) = ground (arith, has_link-root_links c p name roots)

pub has_link-notice_links :
    (c p name : String) (childs : List Child)
    → has_link c p (notice_links name childs) ≡ (contains c (names childs) && beq name p)
unfolding notice_links
has_link-notice_links c p name [] = refl
has_link-notice_links c p name (x ∷ childs) = ground (arith, has_link-notice_links c p name childs)

pub roots_named :
    (name : String) (m : Master) (o : Option (List String)) (p : String)
    → has_key p m.online_nodes ≡ true
    → (elim o [ none ↦ false | some remotes ↦ contains p remotes ]) ≡ true
    → has_link name p (reply_links name (roots_for m o)) ≡ true
unfolding roots_for reply_links
roots_named name m none p h w = cc
roots_named name m (some remotes) p h w =
    has_link-root_links name p name (online_roots m.online_nodes remotes)
    ∙ rw (beq_refl name) (online_roots_exact m.online_nodes p remotes ∙ rw (w, h) refl)
