-- ===== src/Web/Tests.antt =====
-- web/web.go at concrete inputs.
use my_cluster.Common.{◌≡◌, refl, List, [], ◌∷◌, ◌++◌, none, some, insert, lookup, map}
use my_cluster.Wire.{Bytes}
use my_cluster.Strings.{
  codes, bytes_eq, bytes_instance, to_lower, split, split_from, has_prefix, trim, trim_left,
  trim_right,
}
use my_cluster.Strings.Decimal.{itoa, digits}
use my_cluster.Strings.Pieces.{join}
use my_cluster.Web.{
  Handler, fresh_web, crlf, handle_request, parse_req_body, add_query, page, http_response,
  answer_text, read_request, check_full_req, parse_req_ary, parse_req, second_word, append_req,
  appended, panicked, add_handles, inner_req_name, text_or_empty, new_web,
}
use my_cluster.Web.Request.{request_text, with_pairs, parse_req_body-request_text}
use my_cluster.Web.Reading.{read_request-chunks}
use my_cluster.Web.Answer.{text_by, chosen, handle_request-add_handles}

abbrev pair : Bytes × Bytes
pair = (codes "a", codes "3")

abbrev another : Bytes × Bytes
another = (codes "b", codes "2")

abbrev size_of : Handler
size_of params = text_or_empty (lookup (codes "a") params)

abbrev test_methods : List (Bytes × Handler)
test_methods = (codes "Test", size_of) ∷ []

abbrev request_line : Bytes
request_line = codes "GET /test?a=3 HTTP/1.1"

-- A request in two reads, cut inside the end of a line.
request_in_two :
    read_request 7 [] (
      some (request_line ++ 13 ∷ [])
      ∷ some (10 ∷ codes "Host: x" ++ crlf ++ crlf)
      ∷ some (codes "more")
      ∷ [])
    ≡ appended (record { req_str = codes "/test?a=3"; conn = 7 })
unfolding read_request check_full_req parse_req_ary split split_from has_prefix trim trim_left
    trim_right bytes_eq parse_req second_word append_req
request_in_two = refl

-- Two bytes stop the program.
end_of_line_panics : read_request 7 [] (some crlf ∷ []) ≡ panicked
unfolding read_request check_full_req parse_req_ary split split_from has_prefix trim trim_left
    trim_right bytes_eq parse_req second_word append_req
end_of_line_panics = refl

-- No text of the tests has other letters than those of ASCII.
abbrev as_it_is : Bytes → Bytes
as_it_is s = s

not_found_answer :
    handle_request as_it_is fresh_web (codes "/X")
    ≡ codes "HTTP/1.0 200 OK"
      ++ crlf
      ++ codes "Content-Type:text/html;charset=utf-8"
      ++ crlf
      ++ codes "Content-Length:55"
      ++ crlf
      ++ crlf
      ++ codes "<html><head></head><body>req:/x not found</body></html>"
unfolding handle_request parse_req_body add_query split split_from has_prefix insert lookup bytes_eq
    to_lower answer_text page http_response itoa digits
not_found_answer = refl

-- The package's variable is never set.
never_shared : (new_web none).0 ≡ none
unfolding new_web
never_shared = refl

parse_req_body-request_text_example :
    parse_req_body (request_text (codes "/test") pair (another ∷ []))
    ≡ with_pairs (pair ∷ another ∷ []) (insert inner_req_name (codes "/test") [])
parse_req_body-request_text_example =
    parse_req_body-request_text (codes "/test") pair (another ∷ []) refl
      (((refl, refl, refl), (refl, refl, refl)), (((refl, refl, refl), (refl, refl, refl)), tt))

read_request-chunks_example :
    read_request 7 [] (
      map some ((request_line ++ 13 ∷ []) ∷ (10 ∷ codes "Host: x" ++ crlf ++ crlf) ∷ [])
      ++ none ∷ [])
    ≡ appended (record { req_str = codes "/test?a=3"; conn = 7 })
unfolding join
read_request-chunks_example =
    read_request-chunks 7 (codes "GET") (codes "/test?a=3") (codes "HTTP/1.1" ∷ [])
      (codes "Host: x" ∷ [])
      ((request_line ++ 13 ∷ []) ∷ (10 ∷ codes "Host: x" ++ crlf ++ crlf) ∷ []) (none ∷ [])
      (refl, (refl, (refl, tt))) (((λ e. cc), refl), (((λ e. cc), refl), tt)) refl

handle_request-add_handles_example :
    let params = with_pairs (pair ∷ []) (insert inner_req_name (codes "/TEST") []) in
    let key = to_lower as_it_is (codes "/TEST") in
    handle_request as_it_is
      (add_handles as_it_is test_methods fresh_web)
      (request_text (codes "/TEST") pair [])
    ≡ http_response (page (text_by key params (chosen as_it_is key test_methods (lookup key []))))
unfolding bytes_eq
handle_request-add_handles_example =
    handle_request-add_handles as_it_is test_methods fresh_web (codes "/TEST") pair [] refl
      (((refl, refl, refl), (refl, refl, refl)), tt) (refl, tt)
