-- ===== src/Fnet/MsgHandle/Router/Named.antt =====
-- fnet/msghandle.go, `AddRouter`: the methods by their names.
use my_cluster.Common.{
  false, contains, ℕ, ◌%◌, ◌^◌, ◌<◌, ◌≡◌, refl, ap, ◌∙◌, true, List, [], ◌∷◌, ◌++◌, Option, none,
  some, if◌then◌else◌, lookup, nat_eq, beq, arith,
}
use my_cluster.Wire.{Bytes}
use my_cluster.Strings.{codes, contains_text, has_prefix}
use my_cluster.Strings.Pieces.{AllFree, join, split-join}
use my_cluster.Strings.Decimal.{itoa, itoa-IsFree}
use my_cluster.Strings.Atoi.{atoi, atoi-itoa}
use my_cluster.Fnet.MsgHandle.Router.{last_of, last_piece, index_of, api_index, add_router_raw}
use my_cluster.Fnet.MsgHandle.Router.Numbers.{after_method, numbered, add_router_raw-numbered}

-- The name of a method: `Api` and any text, then pieces and at last a number, with `_` between; or a
-- name without `Api`.
pub data MethodName : Type 0 where
  api_name : Bytes → List Bytes → ℕ → MethodName
  helper_name : Bytes → MethodName

abbrev pub name_text : MethodName → Bytes
name_text (api_name start pieces n) =
    join (b'_' ∷ []) (codes "Api" ++ start) (pieces ++ itoa n ∷ [])
name_text (helper_name name) = name

-- No piece has a `_`, and the number has 32 bits.
abbrev pub IsName : MethodName → Type 0
IsName (api_name start pieces n) = AllFree b'_' (start ∷ pieces) × (n < 2 ^ 32)
IsName (helper_name name) = contains_text name (codes "Api") ≡ false

AllFree-append :
    (c : ℕ) (ps : List Bytes) (p : Bytes)
    → AllFree c ps
    → contains c p ≡ false
    → AllFree c (ps ++ p ∷ [])
AllFree-append c [] p h e = (e, tt)
AllFree-append c (q ∷ ps) p h e = (h.0, AllFree-append c ps p h.1 e)

last_of-append : (q : Bytes) (ps : List Bytes) (p : Bytes) → last_of q (ps ++ p ∷ []) ≡ p
last_of-append q [] p = refl
last_of-append q (r ∷ ps) p = last_of-append r ps p

join-Api :
    (start : Bytes) (ps : List Bytes)
    → contains_text (join (b'_' ∷ []) (codes "Api" ++ start) ps) (codes "Api") ≡ true
unfolding contains_text has_prefix join
join-Api start [] = refl
join-Api start (p ∷ ps) = refl

-- The number of the name, if it is one of an API.
abbrev pub number_of : MethodName → Option ℕ
number_of (api_name start pieces n) = some n
number_of (helper_name name) = none

pub api_index-name : (m : MethodName) → IsName m → api_index (name_text m) ≡ number_of m
unfolding api_index
api_index-name (helper_name name) h = rw h refl
api_index-name (api_name start pieces n) h =
    let free = itoa-IsFree b'_' n (λ d k. ground arith) in
    let plain : n % 2 ^ 32 ≡ n = omega (arith, h.1) in
    let all_free : AllFree b'_' ((codes "Api" ++ start) ∷ (pieces ++ itoa n ∷ [])) =
      (h.0.0, AllFree-append b'_' pieces (itoa n) h.0.1 free) in
    rw (join-Api start (pieces ++ itoa n ∷ [])) (
      ap (λ (ps : List Bytes). index_of (atoi (last_piece ps)))
        (split-join b'_' (codes "Api" ++ start) (pieces ++ itoa n ∷ []) all_free)
      ∙ ap (λ (p : Bytes). index_of (atoi p))
          (last_of-append (codes "Api" ++ start) pieces (itoa n))
      ∙ ap index_of (atoi-itoa n (omega (arith, h.1)))
      ∙ ap some plain)

module _ {H : Type 0} where
  abbrev pub AreNames : List (MethodName × H) → Type 0
  AreNames [] = Unit
  AreNames (m ∷ ms) = IsName m.0 × AreNames ms

  -- The methods as the router has them.
  abbrev pub router : List (MethodName × H) → List (Bytes × H)
  router [] = []
  router (m ∷ ms) = (name_text m.0, m.1) ∷ router ms

  -- The method with the number, or what there was.
  abbrev pub handler_of : ℕ → List (MethodName × H) → Option H → Option H
  handler_of k [] old = old
  handler_of k ((api_name start pieces n, f) ∷ ms) old =
      handler_of k ms (if beq n k then some f else old)
  handler_of k ((helper_name name, f) ∷ ms) old = handler_of k ms old

  numbered-handler_of :
      (k : ℕ) (ms : List (MethodName × H)) (old : Option H)
      → AreNames ms
      → numbered k (router ms) old ≡ handler_of k ms old
  numbered-handler_of k [] old h = refl
  numbered-handler_of k ((api_name start pieces n, f) ∷ ms) old h =
      ap (λ (o : Option ℕ). numbered k (router ms) (after_method k o f old))
        (api_index-name (api_name start pieces n) h.0)
      ∙ numbered-handler_of k ms (if beq n k then some f else old) h.1
  numbered-handler_of k ((helper_name name, f) ∷ ms) old h =
      ap (λ (o : Option ℕ). numbered k (router ms) (after_method k o f old))
        (api_index-name (helper_name name) h.0)
      ∙ numbered-handler_of k ms old h.1

  -- When the methods of a router are added without a panic, and each method's name is either `Api`
  -- and any text, then pieces and at last a number of 32 bits, with `_` between, or a name without
  -- `Api`: each number has the method with that number at the end of its name, or else what it had.
  pub add_router_raw_lem :
      (ms : List (MethodName × H)) (apis apis' : List (ℕ × H))
      → AreNames ms
      → add_router_raw (router ms) apis ≡ some apis'
      → (k : ℕ) → lookup k apis' ≡ handler_of k ms (lookup k apis)
  add_router_raw_lem ms apis apis' h e k =
      add_router_raw-numbered (router ms) apis apis' e k
      ∙ numbered-handler_of k ms (lookup k apis) h
