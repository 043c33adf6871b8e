-- ===== src/Examples/FormAction.antt =====
-- examples/form_action.cpp. The text of the page and `inet_ntop` are arguments.
use mevent.Common.{
  arith, ℕ, ◌≡◌, refl, ap, ap₂, ◌∙◌, Bool, true, false, Bytes, IsBytes, [], ◌∷◌, ◌++◌, codes, pos,
}
use mevent.Request.{
  Request, Fields, RequestMethod, get_method, post_method, same_bytes, assign, field_value,
  query_string_value, post_form_value, header_value, remote_addr, body,
}
use mevent.Request.Fields.{
  is_empty, parse_query_string, parse_post_form, parse_form_urlencoded, parse_header,
}
use mevent.Request.Fields.Forms.{form_text, is_plain, parse_form_urlencoded-form_text}
use mevent.Response.{set_header, write, to_string}
use mevent.Connection.Whole.{Conn}
use mevent.HttpServer.{
  HttpServer, http_server, set_handler, set_worker_threads, set_idle_timeout,
  set_max_worker_connections,
}

abbrev pub index : Bytes → Conn → Conn
index index_html conn = record conn {
  resp = write (set_header conn.resp (codes "Content-Type") (codes "text/html")) index_html;
}

abbrev line_feed : Bytes
line_feed = 10 ∷ []

-- The lines of one method, from the text sent and the two names.
abbrev pub name_lines : Bytes → Bytes → Bytes → Bytes → Bytes
name_lines method text fname lname =
    method
    ++ text
    ++ line_feed
    ++ codes "First name:"
    ++ fname
    ++ line_feed
    ++ codes "Last name:"
    ++ lname
    ++ line_feed

-- The branches on the method: the request and `str`.
unfoldable pub read_names : RequestMethod → Request → Request × Bytes
read_names get_method r =
    let req = parse_query_string r in
    (
      req,
      name_lines (codes "GET:") req.query_string (query_string_value req (codes "fname"))
          (query_string_value req (codes "lname")),
    )
read_names post_method r =
    let req = parse_post_form r in
    (
      req,
      name_lines (codes "POST:") (body req) (post_form_value req (codes "fname"))
          (post_form_value req (codes "lname")),
    )
read_names other r = (r, [])

-- What follows the names.
abbrev pub request_lines : (ℕ → Bytes) → Request → Bytes
request_lines inet_ntop req =
    codes "Content-Length:"
    ++ to_string req.content_length
    ++ line_feed
    ++ codes "RemoteAddr:"
    ++ remote_addr inet_ntop req
    ++ line_feed
    ++ codes "Content-Type:"
    ++ header_value (parse_header req) (codes "Content-Type")
    ++ line_feed

unfoldable pub action : (ℕ → Bytes) → Conn → Conn
unfolding read_names
action inet_ntop conn =
    let (req, str) = read_names conn.req.method conn.req in
    record conn {
      req = parse_header req;
      resp =
          write (set_header conn.resp (codes "Content-Type") (codes "text/plain"))
            (str ++ request_lines inet_ntop req);
    }

abbrev pub form_server : HttpServer
form_server =
    let routed = set_handler (set_handler http_server (codes "/") 0) (codes "/form_action") 1 in
    set_max_worker_connections (set_idle_timeout (set_worker_threads routed (pos 4)) (pos 60))
      (pos 8192)

parse_query_string_lem :
    (r : Request)
    → is_empty r.query_string ≡ false
    → parse_query_string r
      ≡ record r { get_form_map = parse_form_urlencoded r.get_form_map r.query_string }
parse_query_string_lem r e = simp e

-- For a new request with method GET, whose query is the text of a form with two names that are not empty,
-- `Action` writes the two names as they were before they were encoded.
pub action-names :
    (plain : ℕ → Bool)
    → ((c : ℕ) → plain c ≡ true → is_plain c ≡ true)
    → (inet_ntop : ℕ → Bytes) (conn : Conn) (fname lname : Bytes) → conn.req.method ≡ get_method
    → conn.req.get_form_map ≡ []
    → conn.req.query_string ≡ form_text plain ((codes "fname", fname) ∷ (codes "lname", lname) ∷ [])
    → IsBytes fname
    → is_empty fname ≡ false
    → IsBytes lname
    → is_empty lname ≡ false
    → (action inet_ntop conn).resp.wbuf
      ≡ conn.resp.wbuf
        ++ (name_lines (codes "GET:") conn.req.query_string fname lname
            ++ request_lines inet_ntop (record conn.req {
              get_form_map = (codes "fname", fname) ∷ (codes "lname", lname) ∷ [];
            }))
unfolding action read_names assign same_bytes field_value
action-names plain keeps inet_ntop conn fname lname get new query b n b' n' =
    let form : Fields = (codes "fname", fname) ∷ (codes "lname", lname) ∷ [] in
    let read : parse_form_urlencoded conn.req.get_form_map conn.req.query_string ≡ form =
      ap₂ parse_form_urlencoded new query
      ∙ parse_form_urlencoded-form_text plain keeps [] form
          ((ground arith, refl, b, n), ((ground arith, refl, b', n'), tt)) in
    let parsed =
      parse_query_string_lem conn.req (ap is_empty query)
      ∙ ap (λ (m : Fields). record conn.req { get_form_map = m }) read in
    let req : Request = record conn.req { get_form_map = form } in
    let lines = name_lines (codes "GET:") conn.req.query_string fname lname in
    let names : read_names conn.req.method conn.req ≡ (req, lines) =
      ap (λ m. read_names m conn.req) get
      ∙ ap
          (λ (q : Request). (
            q,
            name_lines (codes "GET:") q.query_string (query_string_value q (codes "fname"))
                (query_string_value q (codes "lname")),
          ))
          parsed in
    ap (λ (n : Request × Bytes). conn.resp.wbuf ++ (n.1 ++ request_lines inet_ntop n.0)) names
