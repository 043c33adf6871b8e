-- ===== src/Request/Parse/WellFormed.antt =====
-- `Parse` of request.cpp on the text of a well-formed request.
use mevent.Common.{
  ℕ, Bytes, List, [], ◌∷◌, ◌++◌, ◌+◌, ◌^◌, ◌<◌, ◌≡◌, ◌≢◌, refl, sym, ap, ◌∙◌, subst, false, some,
  ◌==◌, arith, length, All, codes,
}
use mevent.Request.{
  Request, RequestMethod, unknown_method, new_request, s_path, s_query_string, s_eol,
}
use mevent.Request.Chars.{token, is_url_char}
use mevent.Request.Parse.{
  finished, parse, parse_char, parse_path, parse_query_string, skip_line, advance,
}
use mevent.Request.Parse.Big.{At, At-next, parse-Ends}
use mevent.Request.Parse.Lines.{
  Header, header_of, Finishes, Finishes-proceed, line_Finishes, IsUrlText, path_Finishes,
  query_Finishes,
}
use mevent.Request.Parse.Starts.{method_Finishes}
use mevent.Request.Parse.RequestText.{
  HeaderLine, IsLine, Fits, lines_text, read_lines, request_line, target_text, version_text,
  request_text, lines_Finishes,
}

nonempty : (p : Bytes) (c : ℕ) (cs : Bytes) → p ≡ c ∷ cs → (length p == 0) ≡ false
nonempty p c cs e = ap (λ l. length l == 0) e ∙ ground arith

path_space : (r : Request) (c : ℕ) (cs : Bytes) → r.path ≡ c ∷ cs → parse_path r 32 ≡ skip_line r
unfolding parse_path
path_space r c cs e = rw (parse_path, nonempty r.path c cs e) refl

path_question :
    (r : Request) → parse_path r 63 ≡ advance (record r { parse_status = s_query_string })
unfolding parse_path is_url_char
path_question r = refl

query_space : (r : Request) → parse_query_string r 32 ≡ skip_line r
unfolding parse_query_string
query_space r = refl

module _ (lines : List HeaderLine) (fine : All IsLine lines) where
  -- Behind the target.
  version_Finishes :
      (r : Request) (h : Header)
      → header_of r ≡ h
      → Fits h lines
      → parse_char r.parse_status r 32 32 ≡ skip_line r
      → At r (32 ∷ version_text lines)
      → r.rbuf_len < 2 ^ 32
      → Finishes r (read_lines h lines)
  unfolding token
  version_Finishes r h read fits e a small =
      let q = record r { parse_status = s_eol; parse_offset = r.parse_offset + 1 } in
      Finishes-proceed r q (read_lines h lines) 32 (version_text lines) a refl e refl (
        line_Finishes (codes "HTTP/1.1") (lines_text lines) q (read_lines h lines) (ground arith)
          refl (At-next r q 32 (version_text lines) refl refl refl a) small
          (λ n there b len same.
            let known = same ∙ read in
            subst (λ g. Finishes n (read_lines g lines)) known
              (lines_Finishes lines n fine (subst (λ g. Fits g lines) (sym known) fits) there b
                (omega (arith, len, small)))))

  target_Finishes :
      (path query : Bytes) (r : Request)
      → r.parse_status ≡ s_path
      → header_of r ≡ request_line r.method [] []
      → IsUrlText path
      → IsUrlText query
      → Fits (request_line r.method (47 ∷ path) query) lines
      → At r (47 ∷ target_text path query (version_text lines))
      → r.rbuf_len < 2 ^ 32
      → Finishes r (read_lines (request_line r.method (47 ∷ path) query) lines)
  unfolding token is_url_char
  target_Finishes path [] r here unread text asked fits a small =
      let start = request_line r.method (47 ∷ path) [] in
      path_Finishes (47 ∷ path) (32 ∷ version_text lines) r (read_lines start lines)
        ((refl, refl), text) here a
        (λ n there b len e.
          let read : header_of n ≡ start =
            e ∙ ap (λ (h : Header). record h { path = h.path ++ 47 ∷ path }) unread in
          version_Finishes n start read fits
            (ap (λ s. parse_char s n 32 32) there
              ∙ path_space n 47 path (ap (λ (h : Header). h.path) read))
            b (omega (arith, len, small)))
  target_Finishes path (c ∷ query) r here unread text asked fits a small =
      let start = request_line r.method (47 ∷ path) (c ∷ query) in
      let goal = read_lines start lines in
      let rest = 32 ∷ version_text lines in
      path_Finishes (47 ∷ path) (63 ∷ ((c ∷ query) ++ rest)) r goal ((refl, refl), text) here a
        (λ n there b len e.
          let m = record n { parse_status = s_query_string; parse_offset = n.parse_offset + 1 } in
          let read = e ∙ ap (λ (h : Header). record h { path = h.path ++ 47 ∷ path }) unread in
          Finishes-proceed n m goal 63 ((c ∷ query) ++ rest) b refl
            (ap (λ s. parse_char s n 63 63) there ∙ path_question n) refl
            (query_Finishes (c ∷ query) rest m goal asked refl
              (At-next n m 63 ((c ∷ query) ++ rest) refl refl refl b)
              (λ q status at size same.
                version_Finishes q start
                  (same
                    ∙ ap (λ (h : Header). record h { query_string = h.query_string ++ c ∷ query })
                        read)
                  fits (ap (λ s. parse_char s q 32 32) status ∙ query_space q) at
                  (omega (arith, size, len, small)))))

-- For a method that is known, a path that begins with a slash, a query, both of characters
-- that the parser's tables take in them, and header lines in any order, each of them
-- `Content-Length` with digits, `Content-Type` or `Sec-WebSocket-Key` with a value without
-- spaces that does not begin with a colon, or another line of characters that the tables take,
-- which does not begin with `Content-L`, `Content-T` or `Sec-WebSocket-Key` in letters of
-- either case, and has nine characters or more where it begins with `c`, where the length of
-- the body stays below 2 ^ 32: on the text of the request, if it is shorter than 4 GiB,
-- `Parse` finishes at its end, with the method, the path, the query, and what the lines say of
-- the length of the body, its type and the key.
pub parse-request_text :
    (method : RequestMethod) (path query : Bytes) (lines : List HeaderLine)
    → method ≢ unknown_method
    → IsUrlText path
    → IsUrlText query
    → All IsLine lines
    → Fits (request_line method (47 ∷ path) query) lines
    → let text = request_text method path query lines in
      length text < 2 ^ 32
      → (last : Request) × (parse (record new_request { rbuf = text; rbuf_len = length text })
          ≡ some (finished, last))
        × (header_of last ≡ read_lines (request_line method (47 ∷ path) query) lines)
        × (last.header_len ≡ length text)
parse-request_text method path query lines known text asked fine fits small =
    let whole = request_text method path query lines in
    let r = record new_request { rbuf = whole; rbuf_len = length whole } in
    let goal = read_lines (request_line method (47 ∷ path) query) lines in
    let f =
      method_Finishes method (target_text path query (version_text lines)) r goal known refl refl
        refl small (record { unread = refl; size = omega arith })
        (λ m there a len e.
          let same : m.method ≡ method = ap (λ (h : Header). h.method) e in
          subst (λ k. Finishes m (read_lines (request_line k (47 ∷ path) query) lines)) same
            (target_Finishes lines fine path query m there
              (e ∙ ap (λ k. request_line k [] []) (sym same)) text asked
              (subst (λ k. Fits (request_line k (47 ∷ path) query) lines) (sym same) fits) a
              (omega (arith, len, small)))) in
    (f.last, parse-Ends r f.last finished f.ends, f.header, f.all)
