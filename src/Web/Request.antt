-- ===== src/Web/Request.antt =====
-- web/web.go: what `parseReqBody` finds in the path of a request.
use my_cluster.Common.{
  ℕ, ◌≡◌, refl, ap, ◌∙◌, List, [], ◌∷◌, ◌++◌, false, contains, insert, nat_eq, arith,
}
use my_cluster.Wire.{Bytes}
use my_cluster.Strings.{split, bytes_instance}
use my_cluster.Strings.Pieces.{join, split-join, AllFree}
use my_cluster.Web.{Params, inner_req_name, add_pair, add_pairs, add_query, parse_req_body}

-- The text of a pair, and of the pairs of a query.
abbrev pub pair_text : Bytes × Bytes → Bytes
pair_text p = p.0 ++ b'=' ∷ p.1

abbrev pub pair_texts : List (Bytes × Bytes) → List Bytes
pair_texts [] = []
pair_texts (p ∷ ps) = pair_text p ∷ pair_texts ps

-- A request for the path with the pairs.
abbrev pub request_text : Bytes → Bytes × Bytes → List (Bytes × Bytes) → Bytes
request_text name p ps = name ++ b'?' ∷ join (b'&' ∷ []) (pair_text p) (pair_texts ps)

-- The pairs put into the map in turn.
abbrev pub with_pairs : List (Bytes × Bytes) → Params → Params
with_pairs [] ret = ret
with_pairs (p ∷ ps) ret = with_pairs ps (insert p.0 p.1 ret)

-- A text with none of the bytes that the parser cuts at.
abbrev pub IsPlain : Bytes → Type 0
IsPlain s = (contains b'?' s ≡ false) × (contains b'&' s ≡ false) × (contains b'=' s ≡ false)

abbrev pub ArePlain : List (Bytes × Bytes) → Type 0
ArePlain [] = Unit
ArePlain (p ∷ ps) = (IsPlain p.0 × IsPlain p.1) × ArePlain ps

contains-append :
    (c : ℕ) (s t : Bytes)
    → contains c s ≡ false
    → contains c t ≡ false
    → contains c (s ++ t) ≡ false
contains-append c [] t h k = k
contains-append c (d ∷ s) t h k = ground (arith, contains-append c s t)

-- A text of pairs has no byte that the names and values are free of.
pair-IsFree : (p : Bytes × Bytes) → IsPlain p.0 × IsPlain p.1 → contains b'&' (pair_text p) ≡ false
pair-IsFree p h = contains-append b'&' p.0 (b'=' ∷ p.1) h.0.1 h.1.1

pairs-AllFree : (ps : List (Bytes × Bytes)) → ArePlain ps → AllFree b'&' (pair_texts ps)
pairs-AllFree [] h = tt
pairs-AllFree (p ∷ ps) h = (pair-IsFree p h.0, pairs-AllFree ps h.1)

add_pair-pair_text :
    (p : Bytes × Bytes) (ret : Params)
    → IsPlain p.0 × IsPlain p.1
    → add_pair (split (pair_text p) (b'=' ∷ [])) ret ≡ insert p.0 p.1 ret
unfolding add_pair join
add_pair-pair_text p ret h =
    ap (λ (pieces : List Bytes). add_pair pieces ret)
      (split-join b'=' p.0 (p.1 ∷ []) (h.0.2, (h.1.2, tt)))

add_pairs-pair_texts :
    (ps : List (Bytes × Bytes)) (ret : Params)
    → ArePlain ps
    → add_pairs (pair_texts ps) ret ≡ with_pairs ps ret
unfolding add_pairs
add_pairs-pair_texts [] ret h = refl
add_pairs-pair_texts (p ∷ ps) ret h =
    ap (add_pairs (pair_texts ps)) (add_pair-pair_text p ret h.0)
    ∙ add_pairs-pair_texts ps (insert p.0 p.1 ret) h.1

query_text-IsFree :
    (p : Bytes × Bytes) (ps : List (Bytes × Bytes))
    → ArePlain (p ∷ ps)
    → contains b'?' (join (b'&' ∷ []) (pair_text p) (pair_texts ps)) ≡ false
unfolding join
query_text-IsFree p [] h = contains-append b'?' p.0 (b'=' ∷ p.1) h.0.0.0 h.0.1.0
query_text-IsFree p (q ∷ ps) h =
    contains-append b'?' (pair_text p) (b'&' ∷ join (b'&' ∷ []) (pair_text q) (pair_texts ps))
      (contains-append b'?' p.0 (b'=' ∷ p.1) h.0.0.0 h.0.1.0) (query_text-IsFree q ps h.1)

-- For a path without `?` and names and values without `?`, `&` and `=`: the parser finds in the text
-- `path?name=value&...` the path under `innerreqname` and then the pairs, in order, so that the last
-- value of a name counts, and a pair named `innerreqname` takes the place of the path.
pub parse_req_body-request_text :
    (name : Bytes) (p : Bytes × Bytes) (ps : List (Bytes × Bytes))
    → contains b'?' name ≡ false
    → ArePlain (p ∷ ps)
    → parse_req_body (request_text name p ps) ≡ with_pairs (p ∷ ps) (insert inner_req_name name [])
unfolding parse_req_body add_query join
parse_req_body-request_text name p ps plain h =
    let query = join (b'&' ∷ []) (pair_text p) (pair_texts ps) in
    ap add_query (split-join b'?' name (query ∷ []) (plain, (query_text-IsFree p ps h, tt)))
    ∙ ap (λ (pieces : List Bytes). add_pairs pieces (insert inner_req_name name []))
        (split-join b'&' (pair_text p) (pair_texts ps) (pairs-AllFree (p ∷ ps) h))
    ∙ add_pairs-pair_texts (p ∷ ps) (insert inner_req_name name []) h
