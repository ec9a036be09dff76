-- ===== src/Web/Reading.antt =====
-- web/web.go, the goroutine of a connection in `Start`: a request in any pieces.
use my_cluster.Common.{
  ℕ, ◌≡◌, refl, ap, sym, ◌∙◌, ◌≢◌, List, [], ◌∷◌, ◌++◌, Bool, true, false, contains, nat_eq, Option,
  some, arith, append_assoc, append-nil, length, ltb, if◌then◌else◌, map, ◌⊎◌, inl, inr,
}
use my_cluster.Wire.{Bytes}
use my_cluster.Strings.{
  split, bytes_instance, bytes_eq, trim, trim_right, trim_left, split_from, has_prefix,
}
use my_cluster.Strings.Pieces.{join, split-join, split-line, split-line_append, AllFree}
use my_cluster.Web.{
  crlf, trim_last, parse_req_ary, last_two_empty, check_full_req, second_word, parse_req, appended,
  panicked, append_req, read_request,
}

-- The lines, each with its end of line.
abbrev pub lines_text : List Bytes → Bytes
lines_text [] = []
lines_text (l ∷ ls) = l ++ 13 ∷ 10 ∷ lines_text ls

-- Lines with something in them and no line feed.
abbrev pub AreLines : List Bytes → Type 0
AreLines [] = Unit
AreLines (l ∷ ls) = ((l ≢ []) × (contains 10 l ≡ false)) × AreLines ls

-- What is read, put together.
abbrev pub joined : List Bytes → Bytes
joined [] = []
joined (c ∷ cs) = c ++ joined cs

abbrev full : Bytes → Bool
full s = last_two_empty (parse_req_ary s)

few_pieces :
    (ps : List Bytes)
    → (let r : Bool × List Bytes =
          if ltb (length ps) 2 then (false, ps) else (last_two_empty ps, ps) in
        r)
      ≡ (last_two_empty ps, ps)
few_pieces [] = refl
few_pieces (p ∷ []) = refl
few_pieces (p ∷ q ∷ ps) =
    let more : ltb (length (p ∷ q ∷ ps)) 2 ≡ false = ground arith in rw more refl

-- The test is one on the pieces alone.
check_full_req_lem :
    (s : Bytes) → check_full_req s ≡ (last_two_empty (parse_req_ary s), parse_req_ary s)
unfolding check_full_req
check_full_req_lem s = few_pieces (parse_req_ary s)

-- A first line with something in it makes no difference to the test.
last_two_empty-line :
    (l p : Bytes) (ps : List Bytes)
    → l ≢ []
    → last_two_empty (trim_last (l ∷ p ∷ ps)) ≡ last_two_empty (trim_last (p ∷ ps))
unfolding bytes_eq
last_two_empty-line [] p ps h = absurd (h refl)
last_two_empty-line (c ∷ l) p [] h = ground arith
last_two_empty-line (c ∷ l) p (q ∷ []) h = refl
last_two_empty-line (c ∷ l) p (q ∷ r ∷ ps) h = refl

full-line : (l s : Bytes) → l ≢ [] → contains 10 l ≡ false → full (l ++ 13 ∷ 10 ∷ s) ≡ full s
unfolding parse_req_ary split
full-line l s h free =
    ap (λ (ps : List Bytes). last_two_empty (trim_last ps)) (split-line_append 13 10 refl l s free)
    ∙ last_two_empty-line l (split_from crlf 0 s).0 (split_from crlf 0 s).1 h

-- A text without a line feed is not full.
full-free : (s : Bytes) → contains 10 s ≡ false → full s ≡ false
unfolding parse_req_ary
full-free s free =
    ap (λ (ps : List Bytes). last_two_empty (trim_last ps)) (split-line 13 10 refl s free)

full-crlf : full crlf ≡ true
unfolding parse_req_ary split split_from has_prefix trim trim_left trim_right bytes_eq
full-crlf = refl

full-lines : (ls : List Bytes) → AreLines ls → full (lines_text ls ++ crlf) ≡ true
full-lines [] h = full-crlf
full-lines (l ∷ ls) h =
    rw (append_assoc l (13 ∷ 10 ∷ lines_text ls) crlf)
      (full-line l (lines_text ls ++ crlf) h.0.0 h.0.1 ∙ full-lines ls h.1)

-- Where a text that begins with a line may be cut.
line_cut :
    (l s rest later : Bytes)
    → contains 10 l ≡ false
    → s ++ rest ≡ l ++ 13 ∷ 10 ∷ later
    → (contains 10 s ≡ false) ⊎ ((t : Bytes) × (s ≡ l ++ 13 ∷ 10 ∷ t) × (t ++ rest ≡ later))
line_cut l [] rest later free e = inl refl
line_cut [] (c ∷ []) rest later free e = inl (ground arith)
line_cut [] (c ∷ d ∷ s) rest later free e = inr (s, cc, cc)
line_cut (x ∷ l) (c ∷ s) rest later free e = elim (line_cut l s rest later (ground arith) cc) [
  | inl clear ↦ inl (ground arith)
  | inr found ↦ inr (found.0, cc, found.2)
]

-- Cut short, the request is not full.
full-cut :
    (ls : List Bytes) (s rest : Bytes)
    → AreLines ls
    → rest ≢ []
    → s ++ rest ≡ lines_text ls ++ crlf
    → full s ≡ false
full-cut [] [] rest h more e = full-free [] refl
full-cut [] (c ∷ []) rest h more e = full-free (c ∷ []) (ground arith)
full-cut [] (c ∷ d ∷ []) rest h more e = absurd (more cc)
full-cut [] (c ∷ d ∷ b ∷ s) rest h more e = cc
full-cut (l ∷ ls) s rest h more e =
    elim (line_cut l s rest (lines_text ls ++ crlf) h.0.1
      (e ∙ append_assoc l (13 ∷ 10 ∷ lines_text ls) crlf)) [
        | inl clear ↦ full-free s clear
        | inr found ↦
            ap full found.1
            ∙ full-line l found.0 h.0.0 h.0.1
            ∙ full-cut ls found.0 rest h.1 more found.2
      ]

-- What the parser makes of a full request.
parse_req-lines :
    (l : Bytes) (ls : List Bytes)
    → AreLines (l ∷ ls)
    → parse_req (parse_req_ary (lines_text (l ∷ ls) ++ crlf)) ≡ second_word (split l (b' ' ∷ []))
unfolding parse_req parse_req_ary split
parse_req-lines l ls h = rw (append_assoc l (13 ∷ 10 ∷ lines_text ls) crlf) (
    ap (λ (ps : List Bytes). parse_req (trim_last ps))
      (split-line_append 13 10 refl l (lines_text ls ++ crlf) h.0.1)
    ∙ refl)

-- One read of the loop.
full_read :
    (conn : ℕ) (total chunk : Bytes) (reads : List (Option Bytes))
    → full (total ++ chunk) ≡ true
    → read_request conn total (some chunk ∷ reads)
      ≡ append_req conn (parse_req (parse_req_ary (total ++ chunk)))
unfolding read_request
full_read conn total chunk reads h = rw (check_full_req_lem (total ++ chunk), h) refl

partial_read :
    (conn : ℕ) (total chunk : Bytes) (reads : List (Option Bytes))
    → full (total ++ chunk) ≡ false
    → read_request conn total (some chunk ∷ reads) ≡ read_request conn (total ++ chunk) reads
unfolding read_request
partial_read conn total chunk reads h = rw (check_full_req_lem (total ++ chunk), h) refl

read_request-cut :
    (conn : ℕ) (l : Bytes) (ls chunks : List Bytes) (reads : List (Option Bytes)) (total : Bytes)
    → AreLines (l ∷ ls)
    → joined chunks ≢ []
    → total ++ joined chunks ≡ lines_text (l ∷ ls) ++ crlf
    → read_request conn total (map some chunks ++ reads)
      ≡ append_req conn (second_word (split l (b' ' ∷ [])))
read_request-cut conn l ls [] reads total h more e = absurd (more refl)
read_request-cut conn l ls (c ∷ cs) reads total h more e =
    let sofar : (total ++ c) ++ joined cs ≡ lines_text (l ∷ ls) ++ crlf =
      append_assoc total c (joined cs) ∙ e in
    elim (empty_or (joined cs)) [
      | inl last ↦
          let whole : total ++ c ≡ lines_text (l ∷ ls) ++ crlf =
            sym (append-nil (total ++ c))
            ∙ ap (λ (t : Bytes). (total ++ c) ++ t) (sym last)
            ∙ sofar in
          full_read conn total c (map some cs ++ reads) (ap full whole ∙ full-lines (l ∷ ls) h)
          ∙ ap (λ (t : Bytes). append_req conn (parse_req (parse_req_ary t))) whole
          ∙ ap (append_req conn) (parse_req-lines l ls h)
      | inr later ↦
          partial_read conn total c (map some cs ++ reads)
            (full-cut (l ∷ ls) (total ++ c) (joined cs) h later sofar)
          ∙ read_request-cut conn l ls cs reads (total ++ c) h later sofar
    ]
  where
    empty_or : (t : Bytes) → (t ≡ []) ⊎ (t ≢ [])
    empty_or [] = inl refl
    empty_or (x ∷ t) = inr (λ e. cc)

something :
    (l : Bytes) (ls chunks : List Bytes)
    → joined chunks ≡ lines_text (l ∷ ls) ++ crlf
    → joined chunks ≢ []
something [] ls chunks e none_read = cc
something (c ∷ l) ls chunks e none_read = cc

-- For a request of at least one line, none empty and none with a line feed, whose first line has
-- words that a space separates, at least two: in whatever pieces its bytes arrive, the goroutine
-- hands on a request for the second word, with its connection, and looks at no later read.
pub read_request-chunks :
    (conn : ℕ) (method path : Bytes) (more headers chunks : List Bytes)
    (reads : List (Option Bytes))
    → AllFree b' ' (method ∷ path ∷ more)
    → AreLines (join (b' ' ∷ []) method (path ∷ more) ∷ headers)
    → joined chunks ≡ lines_text (join (b' ' ∷ []) method (path ∷ more) ∷ headers) ++ crlf
    → read_request conn [] (map some chunks ++ reads)
      ≡ appended (record { req_str = path; conn = conn })
unfolding append_req second_word
read_request-chunks conn method path more headers chunks reads words h e =
    let l = join (b' ' ∷ []) method (path ∷ more) in
    read_request-cut conn l headers chunks reads [] h (something l headers chunks e) e
    ∙ ap (λ (ws : List Bytes). append_req conn (second_word ws))
        (split-join b' ' method (path ∷ more) words)

-- For a request of at least one line, none empty and none with a line feed, whose first line has no
-- space: in whatever pieces its bytes arrive, the goroutine panics when it has the last of them.
pub read_request-panicked :
    (conn : ℕ) (line : Bytes) (headers chunks : List Bytes) (reads : List (Option Bytes))
    → contains b' ' line ≡ false
    → AreLines (line ∷ headers)
    → joined chunks ≡ lines_text (line ∷ headers) ++ crlf
    → read_request conn [] (map some chunks ++ reads) ≡ panicked
unfolding append_req second_word join
read_request-panicked conn line headers chunks reads one h e =
    read_request-cut conn line headers chunks reads [] h (something line headers chunks e) e
    ∙ ap (λ (ws : List Bytes). append_req conn (second_word ws)) (split-join b' ' line [] (one, tt))
