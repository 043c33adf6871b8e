-- ===== src/Tests/Request.antt =====
-- request.cpp on concrete inputs.
use mevent.Common.{
  arith, ◌≡◌, ◌≢◌, refl, true, Bytes, [], ◌∷◌, ◌++◌, ◌+◌, ◌≤◌, ◌<◌, ◌⊎◌, some, none, codes, length,
  get_or,
}
use mevent.Request.{Request, header_receiving, unknown_method, s_start}
use mevent.Request.Chars.{token}
use mevent.Request.Parse.{HttpParserStatus, more, error, finished, parse}
use mevent.Request.Parse.Measure.{Outcome}
use mevent.Request.Parse.Total.{refilled, parse-Outcome, keepalive_stale}
use mevent.Request.Read.{read_data}
use mevent.Request.Read.Received.{total, IsWhole, read_data-IsWhole}

abbrev crlf : Bytes
crlf = 13 ∷ 10 ∷ []

abbrev get_text : Bytes
get_text = codes "GET /a?b=1 HTTP/1.1" ++ crlf ++ codes "Content-Length: 0" ++ crlf ++ crlf

abbrev post_text : Bytes
post_text =
    codes "POST /f HTTP/1.1" ++ crlf ++ codes "Content-Length: 3" ++ crlf ++ crlf ++ codes "x=1"

abbrev fresh : Request
fresh = record {
  status = header_receiving;
  addr = 0;
  rbuf = [];
  rbuf_len = 0;
  method = unknown_method;
  path = [];
  query_string = [];
  content_length = 0;
  header_len = 0;
  parse_status = s_start;
  parse_offset = 0;
  parse_match = 0;
  error_code = 0;
  content_type = [];
  sec_websocket_key = [];
  header_map = [];
  get_form_map = [];
  post_form_map = [];
}

abbrev parsed : Bytes → Request
parsed text = elim (parse (refilled fresh text)) [ none ↦ fresh | some a ↦ a.1 ]

path_test : (parsed get_text).path ≡ codes "/a"
unfolding parse
path_test = refl

query_test : (parsed get_text).query_string ≡ codes "b=1"
unfolding parse
query_test = refl

length_test : (parsed post_text).content_length ≡ 3
unfolding parse
length_test = refl

parse-Outcome_example :
    (s : HttpParserStatus) × (q : Request) × (parse (refilled fresh get_text) ≡ some (s, q))
    × (q.rbuf_len ≡ length get_text)
    × (q.rbuf ≡ get_text)
    × (q.status ≡ header_receiving)
    × Outcome s q
parse-Outcome_example = parse-Outcome (refilled fresh get_text)

get_text_finished : parse (refilled fresh get_text) ≡ some (finished, parsed get_text)
unfolding parse
get_text_finished = refl

keepalive_stale_example :
    let q = parsed get_text in
    let next = refilled q post_text in
    ((length post_text ≤ q.parse_offset) × (parse next ≡ some (more, next)))
    ⊎ ((q.parse_offset < length post_text)
        × (token (get_or post_text q.parse_offset 0) ≡ 10)
        × (parse next ≡ some (finished, record next { header_len = q.parse_offset + 1 })))
    ⊎ ((q.parse_offset < length post_text)
        × (token (get_or post_text q.parse_offset 0) ≢ 10)
        × (parse next ≡ some (error, next)))
keepalive_stale_example =
    keepalive_stale (refilled fresh get_text) (parsed get_text) post_text get_text_finished

post_text_pushed : (read_data 8192 100 fresh (some post_text ∷ [])).task_pushed ≡ true
unfolding read_data parse
post_text_pushed = refl

read_data-IsWhole_example : IsWhole 100 (read_data 8192 100 fresh (some post_text ∷ [])).request
unfolding total
read_data-IsWhole_example =
    read_data-IsWhole 8192 100 fresh (some post_text ∷ []) refl (λ e. ground (arith, e))
      (omega arith) post_text_pushed
