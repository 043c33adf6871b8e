-- ===== src/Request/Parse/Measure.antt =====
-- What a round leaves for the next one.
use mevent.Common.{
  ℕ, Bool, Bytes, ◌+◌, ◌-◌, ◌*◌, ◌<◌, ◌≤◌, ◌≡◌, refl, ap, true, false, ltb, ◌==◌, ◌&&◌,
  if◌then◌else◌, get_or, arith,
}
use mevent.Request.{
  Request, RequestParseStatus, s_start, s_method, s_method_p, s_path, s_query_string,
  s_content_length, s_content_length_v, s_content_type, s_content_type_v, s_sec_websocket_key,
  s_sec_websocket_key_v, s_upgrade, s_eol, s_header_field, s_eoh,
}
use mevent.Request.Chars.{token}
use mevent.Request.Parse.{
  HttpParserStatus, more, error, finished, Step, proceed, leave, ahead, parse_eol, parse_start,
  parse_method, parse_method_p, parse_path, parse_query_string, parse_content, parse_header_field,
  parse_eoh, parse_field_name, parse_content_length_v, parse_sec_websocket_key_v,
  parse_content_type_v, parse_char, parse_step,
}

-- A state that may `continue` on the same character counts for one round more.
abbrev pub rank : RequestParseStatus → ℕ
rank s_method = 1
rank s_content_length = 1
rank s_content_type = 1
rank s_sec_websocket_key = 1
rank s = 0

abbrev pub left : Request → ℕ
left r = 2 * (r.rbuf_len - r.parse_offset) + rank r.parse_status

-- What holds of a request where `Parse` returns.
abbrev pub Outcome : HttpParserStatus → Request → Type 0
Outcome more q = q.rbuf_len ≤ q.parse_offset
Outcome error q = q.parse_offset < q.rbuf_len
Outcome finished q =
    (q.parse_offset < q.rbuf_len) × (q.header_len ≡ q.parse_offset + 1) × (q.parse_status ≡ s_eoh)

abbrev pub Closer : Request → Step → Type 0
Closer r (proceed q) =
    (q.rbuf_len ≡ r.rbuf_len) × (q.rbuf ≡ r.rbuf) × (q.status ≡ r.status) × (left q < left r)
Closer r (leave s q) =
    (q.rbuf_len ≡ r.rbuf_len) × (q.rbuf ≡ r.rbuf) × (q.status ≡ r.status) × Outcome s q

if-Closer :
    (r : Request) (b : Bool) (x y : Step) → Closer r x → Closer r y → Closer r (if b then x else y)
if-Closer r true x y p q = p
if-Closer r false x y p q = q

module _ (r : Request) (running : r.parse_offset < r.rbuf_len) where
  parse_eol-Closer : (c : ℕ) → Closer r (parse_eol r c)
  unfolding parse_eol
  parse_eol-Closer c = ground arith

  parse_start-Closer : (c : ℕ) → Closer r (parse_start r c)
  unfolding parse_start
  parse_start-Closer c = ground arith

  parse_method_p-Closer : (c : ℕ) → Closer r (parse_method_p r c)
  unfolding parse_method_p
  parse_method_p-Closer c = ground arith

  parse_path-Closer : (c : ℕ) → Closer r (parse_path r c)
  unfolding parse_path
  parse_path-Closer c = ground arith

  parse_query_string-Closer : (c : ℕ) → Closer r (parse_query_string r c)
  unfolding parse_query_string
  parse_query_string-Closer c = ground arith

  parse_content-Closer : Closer r (parse_content r)
  unfolding parse_content
  parse_content-Closer =
      let content =
        (ahead r 1 == 111)
        && (ahead r 2 == 110)
        && (ahead r 3 == 116)
        && (ahead r 4 == 101)
        && (ahead r 5 == 110)
        && (ahead r 6 == 116)
        && (ahead r 7 == 45) in
      if-Closer r (ltb (r.rbuf_len - r.parse_offset) 9) _ _
        (refl, refl, refl, omega (arith, running))
        (if-Closer r (content && (ahead r 8 == 108)) _ _ (refl, refl, refl, omega (arith, running))
          (if-Closer r (content && (ahead r 8 == 116)) _ _
            (refl, refl, refl, omega (arith, running)) (refl, refl, refl, omega (arith, running))))

  parse_header_field-Closer : (c : ℕ) → Closer r (parse_header_field r c)
  unfolding parse_header_field
  parse_header_field-Closer c = ground (arith, parse_content-Closer)

  parse_eoh-Closer : (c : ℕ) → r.parse_status ≡ s_eoh → Closer r (parse_eoh r c)
  unfolding parse_eoh
  parse_eoh-Closer c here = ground arith

  parse_content_length_v-Closer : (c : ℕ) → Closer r (parse_content_length_v r c)
  unfolding parse_content_length_v
  parse_content_length_v-Closer c = ground arith

  parse_sec_websocket_key_v-Closer : (ch c : ℕ) → Closer r (parse_sec_websocket_key_v r ch c)
  unfolding parse_sec_websocket_key_v
  parse_sec_websocket_key_v-Closer ch c = ground arith

  parse_content_type_v-Closer : (ch c : ℕ) → Closer r (parse_content_type_v r ch c)
  unfolding parse_content_type_v
  parse_content_type_v-Closer ch c = ground arith

  parse_method-Closer : (c : ℕ) → rank r.parse_status ≡ 1 → Closer r (parse_method r c)
  unfolding parse_method
  parse_method-Closer c here = ground arith

  parse_field_name-Closer :
      (name : Bytes) (v : RequestParseStatus) (c : ℕ)
      → rank r.parse_status ≡ 1
      → rank v ≡ 0
      → Closer r (parse_field_name name v r c)
  unfolding parse_field_name
  parse_field_name-Closer name v c here there = ground arith

pub parse_char-Closer :
    (s : RequestParseStatus) (r : Request) (ch c : ℕ)
    → r.parse_status ≡ s
    → r.parse_offset < r.rbuf_len
    → Closer r (parse_char s r ch c)
parse_char-Closer s_eol r ch c e running = parse_eol-Closer r running c
parse_char-Closer s_start r ch c e running = parse_start-Closer r running c
parse_char-Closer s_method r ch c e running = parse_method-Closer r running c (ap rank e)
parse_char-Closer s_method_p r ch c e running = parse_method_p-Closer r running c
parse_char-Closer s_path r ch c e running = parse_path-Closer r running ch
parse_char-Closer s_query_string r ch c e running = parse_query_string-Closer r running ch
parse_char-Closer s_header_field r ch c e running = parse_header_field-Closer r running c
parse_char-Closer s_eoh r ch c e running = parse_eoh-Closer r running c e
parse_char-Closer s_content_length r ch c e running =
    parse_field_name-Closer r running _ s_content_length_v c (ap rank e) refl
parse_char-Closer s_content_length_v r ch c e running = parse_content_length_v-Closer r running c
parse_char-Closer s_sec_websocket_key r ch c e running =
    parse_field_name-Closer r running _ s_sec_websocket_key_v c (ap rank e) refl
parse_char-Closer s_sec_websocket_key_v r ch c e running =
    parse_sec_websocket_key_v-Closer r running ch c
parse_char-Closer s_content_type r ch c e running =
    parse_field_name-Closer r running _ s_content_type_v c (ap rank e) refl
parse_char-Closer s_content_type_v r ch c e running = parse_content_type_v-Closer r running ch c
parse_char-Closer s_upgrade r ch c e running = (refl, refl, refl, omega (arith, running))

pub parse_step-Closer : (r : Request) → r.parse_offset < r.rbuf_len → Closer r (parse_step r)
unfolding parse_step
parse_step-Closer r running =
    let ch = get_or r.rbuf r.parse_offset 0 in
    if-Closer r (token ch == 0) _ _ (refl, refl, refl, running)
      (parse_char-Closer r.parse_status r ch (token ch) refl running)
