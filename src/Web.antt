-- ===== src/Web.antt =====
-- web/web.go: the HTTP server of a node. A handler of the API is a function of the parsed request;
-- the text of a request and of an answer is its bytes.
pub mod Request
pub mod Reading
pub mod Answer
mod Tests
use my_cluster.Common.{
  ℕ, zero, suc, ◌+◌, ◌-◌, Bool, true, false, not, ◌&&◌, ◌≡◌, List, [], ◌∷◌, ◌++◌, Option, none,
  some, String, ltb, ◌==◌, if◌then◌else◌, length, lookup, insert, get_or, set, map,
}
use my_cluster.Wire.{Bytes}
use my_cluster.Strings.{codes, split, to_lower, trim, bytes_eq, bytes_instance}
use my_cluster.Strings.Decimal.{itoa}

-- `map[string]string`
abbrev pub Params : Type 0
Params = List (Bytes × Bytes)

abbrev pub Handler : Type 0
Handler = Params → Bytes

-- A connection is known by a number.
pub record DataReq : Type 0 where
  pub req_str : Bytes
  pub conn : ℕ

pub record Web : Type 0 where
  -- What waits in `reqChan`, the oldest first; `none` is a `nil` in it.
  pub req_chan : List (Option DataReq)
  pub closed : Bool
  pub apis : List (Bytes × Handler)
  pub run : Bool

abbrev pub fresh_web : Web
fresh_web = record { req_chan = []; closed = false; apis = []; run = true }

-- The package's variable and the object returned. `:=` declares a second variable `GlobalWeb`, so
-- the package's stays as it was.
unfoldable pub new_web : Option Web → Option Web × Web
new_web (some w) = (some w, w)
new_web none = (none, fresh_web)

abbrev pub crlf : Bytes
crlf = 13 ∷ 10 ∷ []

-- `parseReqAry`: the NUL bytes at both ends of the last piece go.
abbrev pub trim_last : List Bytes → List Bytes
trim_last [] = []
trim_last (p ∷ []) = trim 0 p ∷ []
trim_last (p ∷ q ∷ ps) = p ∷ trim_last (q ∷ ps)

unfoldable pub parse_req_ary : Bytes → List Bytes
parse_req_ary req_str = trim_last (split req_str crlf)

abbrev pub last_two_empty : List Bytes → Bool
last_two_empty [] = false
last_two_empty (p ∷ []) = false
last_two_empty (p ∷ q ∷ []) = bytes_eq q [] && bytes_eq p []
last_two_empty (p ∷ q ∷ r ∷ ps) = last_two_empty (q ∷ r ∷ ps)

unfoldable pub check_full_req : Bytes → Bool × List Bytes
check_full_req req_str =
    let ret_ary = parse_req_ary req_str in
    if ltb (length ret_ary) 2 then (false, ret_ary) else (last_two_empty ret_ary, ret_ary)

-- The second word of the first line; `none` is the panic of an index out of range.
unfoldable pub second_word : List Bytes → Option Bytes
second_word (method ∷ path ∷ more) = some path
second_word (method ∷ []) = none
second_word [] = none

unfoldable pub parse_req : List Bytes → Option Bytes
parse_req [] = none
parse_req (line ∷ lines) = second_word (split line (b' ' ∷ []))

-- What the goroutine of a connection ends with.
pub data ReadEnd : Type 0 where
  appended : DataReq → ReadEnd
  read_error : ReadEnd
  panicked : ReadEnd
  waits : ReadEnd

unfoldable pub append_req : ℕ → Option Bytes → ReadEnd
append_req conn none = panicked
append_req conn (some path) = appended (record { req_str = path; conn = conn })

-- The loop of the goroutine in `Start`: what `conn.Read` returns in turn, a piece of at most 1024
-- bytes or an error. The parser's panic ends the program, since nothing recovers it.
unfoldable pub read_request : ℕ → Bytes → List (Option Bytes) → ReadEnd
read_request conn str_total [] = waits
read_request conn str_total (none ∷ reads) = read_error
read_request conn str_total (some chunk ∷ reads) =
    let total = str_total ++ chunk in
    let checked = check_full_req total in
    let later = read_request conn total reads in
    if checked.0 then append_req conn (parse_req checked.1) else later

-- `AddHandles`: the methods of the router, by their names. `unicode` lowers the letters of a text
-- that is not ASCII.
unfoldable pub add_handles : (Bytes → Bytes) → List (Bytes × Handler) → Web → Web
add_handles unicode [] web = web
add_handles unicode ((name, f) ∷ methods) web =
    add_handles unicode methods
      (record web { apis = insert ((b'/') ∷ to_lower unicode name) f web.apis })

abbrev pub inner_req_name : Bytes
inner_req_name = codes "innerreqname"

unfoldable pub add_pair : List Bytes → Params → Params
add_pair (k ∷ v ∷ []) ret = insert k v ret
add_pair _ ret = ret

unfoldable pub add_pairs : List Bytes → Params → Params
add_pairs [] ret = ret
add_pairs (elem ∷ elems) ret = add_pairs elems (add_pair (split elem (b'=' ∷ [])) ret)

unfoldable pub add_query : List Bytes → Params
add_query [] = []
add_query (name ∷ []) = insert inner_req_name name []
add_query (name ∷ query ∷ more) =
    add_pairs (split query (b'&' ∷ [])) (insert inner_req_name name [])

unfoldable pub parse_req_body : Bytes → Params
parse_req_body req_body = add_query (split req_body (b'?' ∷ []))

-- What a map gives for a missing key.
abbrev pub text_or_empty : Option Bytes → Bytes
text_or_empty none = []
text_or_empty (some s) = s

unfoldable pub answer_text : Bytes → Params → Option Handler → Bytes
answer_text req_name params none = codes "req:" ++ req_name ++ codes " not found"
answer_text req_name params (some f) = f params

unfoldable pub page : Bytes → Bytes
page val = codes "<html><head></head><body>" ++ val ++ codes "</body></html>"

unfoldable pub http_response : Bytes → Bytes
http_response val_send =
    codes "HTTP/1.0 200 OK"
    ++ crlf
    ++ codes "Content-Type:text/html;charset=utf-8"
    ++ crlf
    ++ codes "Content-Length:"
    ++ itoa (length val_send)
    ++ crlf
    ++ crlf
    ++ val_send

-- The bytes written to the connection before it is closed.
unfoldable pub handle_request : (Bytes → Bytes) → Web → Bytes → Bytes
handle_request unicode web req_body =
    let parse_map = parse_req_body req_body in
    let req_name = to_lower unicode (text_or_empty (lookup inner_req_name parse_map)) in
    http_response (page (answer_text req_name parse_map (lookup req_name web.apis)))

-- The answers of `StartParseReq`, with their connections, until a `nil`: a request of the channel
-- or what a closed channel gives.
unfoldable pub serve_queue : (Bytes → Bytes) → Web → List (Option DataReq) → List (ℕ × Bytes)
serve_queue unicode web [] = []
serve_queue unicode web (none ∷ queue) = []
serve_queue unicode web (some req ∷ queue) =
    (req.conn, handle_request unicode web req.req_str) ∷ serve_queue unicode web queue

unfoldable pub start_parse_req : (Bytes → Bytes) → Web → List (ℕ × Bytes)
start_parse_req unicode web = if not web.run then [] else serve_queue unicode web web.req_chan

-- `HandleReqCall`
unfoldable pub handle_req_call : (Bytes → Bytes) → Web → DataReq → ℕ × Bytes
handle_req_call unicode web req = (req.conn, handle_request unicode web req.req_str)

unfoldable pub raw_close : Web → Web
raw_close web = record web { closed = true; run = false }
