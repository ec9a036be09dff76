-- ===== src/Web/Answer.antt =====
-- web/web.go: `AddHandles`, and what `handleRequest` answers.
use my_cluster.Common.{
  none, ◌++◌, ◌≡◌, refl, ap, ◌∙◌, List, [], ◌∷◌, false, contains, insert, lookup, nat_eq, Option,
  some, lookup-insert, beq_refl, if◌then◌else◌,
}
use my_cluster.Wire.{Bytes}
use my_cluster.Strings.{codes, to_lower, bytes_instance, bytes_eq}
use my_cluster.Web.{
  Web, Params, Handler, inner_req_name, add_handles, answer_text, page, http_response,
  handle_request, text_or_empty,
}
use my_cluster.Web.Request.{ArePlain, request_text, with_pairs, parse_req_body-request_text}

-- The handler of the last method with the name, behind what was there.
abbrev pub chosen :
    (Bytes → Bytes) → Bytes → List (Bytes × Handler) → Option Handler → Option Handler
chosen unicode key [] old = old
chosen unicode key ((name, f) ∷ methods) old =
    chosen unicode key methods (if bytes_eq (b'/' ∷ to_lower unicode name) key then some f else old)

lookup-add_handles :
    (unicode : Bytes → Bytes) (key : Bytes) (methods : List (Bytes × Handler)) (web : Web)
    → lookup key (add_handles unicode methods web).apis
      ≡ chosen unicode key methods (lookup key web.apis)
unfolding add_handles
lookup-add_handles unicode key [] web = refl
lookup-add_handles unicode key ((name, f) ∷ methods) web =
    lookup-add_handles unicode key methods
      (record web { apis = insert (b'/' ∷ to_lower unicode name) f web.apis })
    ∙ ap (chosen unicode key methods) (lookup-insert (b'/' ∷ to_lower unicode name) key f web.apis)

-- The text of the page: what the handler makes of the pairs, or that there is none.
abbrev pub text_by : Bytes → Params → Option Handler → Bytes
text_by key params none = codes "req:" ++ key ++ codes " not found"
text_by key params (some f) = f params

answer_text-by :
    (key : Bytes) (params : Params) (o : Option Handler)
    → answer_text key params o ≡ text_by key params o
unfolding answer_text
answer_text-by key params none = refl
answer_text-by key params (some f) = refl

-- No pair has the name under which the path stands.
abbrev pub NoPathPair : List (Bytes × Bytes) → Type 0
NoPathPair [] = Unit
NoPathPair (p ∷ ps) = (bytes_eq p.0 inner_req_name ≡ false) × NoPathPair ps

lookup-with_pairs :
    (ps : List (Bytes × Bytes)) (name : Bytes) (ret : Params)
    → NoPathPair ps
    → lookup inner_req_name ret ≡ some name
    → lookup inner_req_name (with_pairs ps ret) ≡ some name
lookup-with_pairs [] name ret h e = e
lookup-with_pairs (p ∷ ps) name ret h e =
    lookup-with_pairs ps name (insert p.0 p.1 ret) h.1
      (lookup-insert p.0 inner_req_name p.1 ret ∙ rw h.0 e)

-- For a path without `?` and names and values without `?`, `&` and `=`, none of the names being
-- `innerreqname`: a request is answered by the handler of the last method of the router added whose
-- name is the path in any letters, or else by what was there under that path before, with the pairs
-- of the request; where there is neither, by a page that says so.
pub handle_request-add_handles :
    (unicode : Bytes → Bytes) (methods : List (Bytes × Handler)) (web : Web) (name : Bytes)
    (p : Bytes × Bytes) (ps : List (Bytes × Bytes))
    → contains b'?' name ≡ false
    → ArePlain (p ∷ ps)
    → NoPathPair (p ∷ ps)
    → let params = with_pairs (p ∷ ps) (insert inner_req_name name []) in
      let key = to_lower unicode name in
      handle_request unicode (add_handles unicode methods web) (request_text name p ps)
      ≡ http_response (page (text_by key params (chosen unicode key methods (lookup key web.apis))))
unfolding handle_request
handle_request-add_handles unicode methods web name p ps plain h other =
    let params = with_pairs (p ∷ ps) (insert inner_req_name name []) in
    let key = to_lower unicode name in
    let named : lookup inner_req_name params ≡ some name =
      lookup-with_pairs (p ∷ ps) name (insert inner_req_name name []) other
        (lookup-insert inner_req_name inner_req_name name [] ∙ rw (beq_refl inner_req_name) refl) in
    let answer = λ (ret : Params) (key : Bytes) (f : Option Handler).
      http_response (page (answer_text key ret f)) in
    let apis = (add_handles unicode methods web).apis in
    ap
      (λ (ret : Params).
        let key = to_lower unicode (text_or_empty (lookup inner_req_name ret)) in
        answer ret key (lookup key apis))
      (parse_req_body-request_text name p ps plain h)
    ∙ ap
        (λ (found : Option Bytes).
          let key = to_lower unicode (text_or_empty found) in answer params key (lookup key apis))
        named
    ∙ ap (answer params key) (lookup-add_handles unicode key methods web)
    ∙ ap (λ (t : Bytes). http_response (page t))
        (answer_text-by key params (chosen unicode key methods (lookup key web.apis)))
