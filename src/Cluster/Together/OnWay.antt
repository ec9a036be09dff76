-- ===== src/Cluster/Together/OnWay.antt =====
-- clusterserver with sys_rpc: the messages that are on their way.
use my_cluster.Common.{
  or_swap, ℕ, zero, suc, ◌≡◌, refl, sym, ap, subst, ◌∙◌, [], ◌∷◌, ◌++◌, none, some, String,
  string_eq, nat_eq, Bool, true, false, ◌&&◌, ◌||◌, beq, Bool-cases, Option-cases, inl, inr,
  some_inj, false≢true, eq_of_beq,
}
use my_cluster.Cluster.Master.Told.{Links, has_link, forget, has_link-append}
use my_cluster.Cluster.Together.{take_out}

-- A link that is left when a node's links are forgotten was there, and is not the node's.
pub has_link_of_forget :
    (c p name : String) (links : Links)
    → has_link c p (forget name links) ≡ true
    → (has_link c p links ≡ true) × (beq name c ≡ false)
unfolding forget
has_link_of_forget c p name [] h = cc
has_link_of_forget c p name ((a, b) ∷ links) h = elim (Bool-cases (beq name a || beq name b)) [
  | inl gone ↦
      let (there, other) = has_link_of_forget c p name links (rw gone at h) in
      (or_right (beq a c && beq b p) (has_link c p links) there, other)
  | inr stays ↦ elim (Bool-cases (beq a c && beq b p)) [
    | inl this ↦ (
      rw this refl,
      ap (beq name) (sym (eq_of_beq a c (and_left (beq a c) (beq b p) this)))
          ∙ or_left_false (beq name a) (beq name b) stays,
    )
    | inr another ↦
        let (there, other) = has_link_of_forget c p name links (rw (stays, another) at h) in
        (rw another there, other)
  ]
]
  where
    or_right : (x y : Bool) → y ≡ true → (x || y) ≡ true
    or_right true y e = refl
    or_right false y e = e

    and_left : (x y : Bool) → (x && y) ≡ true → x ≡ true
    and_left true y e = refl
    and_left false y e = e

    or_left_false : (x y : Bool) → (x || y) ≡ false → x ≡ false
    or_left_false true y e = e
    or_left_false false y e = refl

abbrev found_or : String → String → (String × String) × Links → Bool
found_or c p (x, rest) = (beq x.0 c && beq x.1 p) || has_link c p rest

pub take_out-has_link :
    (c p : String) (i : ℕ) (links rest : Links) (x : String × String)
    → take_out i links ≡ some (x, rest)
    → has_link c p links ≡ ((beq x.0 c && beq x.1 p) || has_link c p rest)
unfolding take_out
take_out-has_link c p i [] rest x e = cc
take_out-has_link c p zero ((a, b) ∷ links) rest x e =
    subst (λ y. has_link c p ((a, b) ∷ links) ≡ found_or c p y)
      (some_inj ((a, b), links) (x, rest) e) refl
take_out-has_link c p (suc i) ((a, b) ∷ links) rest x e = elim (Option-cases (take_out i links)) [
  | inl no_message ↦ absurd (none_some (rw no_message at e))
  | inr found ↦
      let ((y, later), there) = found in
      subst (λ z. has_link c p ((a, b) ∷ links) ≡ found_or c p z)
        (some_inj (y, (a, b) ∷ later) (x, rest) (rw there at e))
        (ap (λ (t : Bool). (beq a c && beq b p) || t) (take_out-has_link c p i links later y there)
          ∙ or_swap (beq a c && beq b p) (beq y.0 c && beq y.1 p) (has_link c p later))
]
  where
    none_some : {z : (String × String) × Links} → none ≡ some z → ⊥
    none_some h = cc

pub or_of_right : (x y : Bool) → y ≡ true → (x || y) ≡ true
or_of_right true y e = refl
or_of_right false y e = e

pub or_map : (b x y : Bool) → (x ≡ true → y ≡ true) → (b || x) ≡ true → (b || y) ≡ true
or_map true x y f h = refl
or_map false x y f h = f h

sent_or_old :
    (a b o f k : Bool)
    → (o ≡ true → (f || k) ≡ true)
    → (a || (b || o)) ≡ true
    → ((f || (a || b)) || k) ≡ true
sent_or_old a b o true k g h = refl
sent_or_old true b o false k g h = refl
sent_or_old false true o false k g h = refl
sent_or_old false false o false k g h = g h

-- A link of the new ones was sent, and a link that is left was on its way.
pub has_link-sent :
    (c p : String) (xs ys old flight : Links) (k : Bool)
    → (has_link c p old ≡ true → (has_link c p flight || k) ≡ true)
    → has_link c p (xs ++ (ys ++ old)) ≡ true
    → (has_link c p (flight ++ (xs ++ ys)) || k) ≡ true
has_link-sent c p xs ys old flight k g h =
    ap (λ (x : Bool). x || k)
      (has_link-append c p flight (xs ++ ys)
        ∙ ap (λ (x : Bool). has_link c p flight || x) (has_link-append c p xs ys))
    ∙ sent_or_old (has_link c p xs) (has_link c p ys) (has_link c p old) (has_link c p flight) k g (
        sym (
          has_link-append c p xs (ys ++ old)
          ∙ ap (λ (x : Bool). has_link c p xs || x) (has_link-append c p ys old))
        ∙ h)

-- A message for another node is not the one that is taken out.
pub not_this : (b d r k : Bool) → b ≡ false → (((b && d) || r) || k) ≡ true → (r || k) ≡ true
not_this true d r k e h = absurd (false≢true (sym e))
not_this false d r k e h = h

-- What was on its way to the node is on its way or has just been done.
pub is_done :
    (b d r f k : Bool) → f ≡ true → (((b && d) || r) || k) ≡ true → (r || ((d && f) || k)) ≡ true
is_done b d true f k e h = refl
is_done b true false true k e h = refl
is_done b true false false k e h = absurd (false≢true e)
is_done true false false f k e h = h
is_done false false false f k e h = h
