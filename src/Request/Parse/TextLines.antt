-- ===== src/Request/Parse/TextLines.antt =====
-- `Parse` of request.cpp on the lines `Content-Type` and `Sec-WebSocket-Key`.
use mevent.Common.{
  ℕ, Bytes, [], ◌∷◌, ◌++◌, append_assoc, append-nil, ◌+◌, ◌-◌, ◌^◌, ◌<◌, ◌≡◌, refl, sym, ap, ◌∙◌,
  false, ge→ltb, ◌==◌, arith, All, codes,
}
use mevent.Request.{
  Request, s_content_type, s_content_type_v, s_sec_websocket_key, s_sec_websocket_key_v,
  s_header_field,
}
use mevent.Request.Chars.{token}
use mevent.Request.Parse.{
  parse_char, parse_content, parse_header_field, parse_content_type_v, parse_sec_websocket_key_v,
  advance,
}
use mevent.Request.Parse.Big.{At, At-next}
use mevent.Request.Parse.Lines.{Header, header_of, Finishes, Finishes-proceed, newline_Finishes}
use mevent.Request.Parse.NameLine.{ahead-At, name_Finishes}

-- A value: it begins with no colon and holds neither a space nor the end of a line.
abbrev pub IsValue : Bytes → Type 0
IsValue =
    All (λ c. ((token c == 0) ≡ false) × ((token c == 32) ≡ false) × ((token c == 13) ≡ false))

abbrev pub type_line : Bytes → Bytes → Bytes
type_line value rest = codes "Content-Type: " ++ (value ++ (13 ∷ 10 ∷ rest))

abbrev pub key_line : Bytes → Bytes → Bytes
key_line value rest = codes "Sec-WebSocket-Key: " ++ (value ++ (13 ∷ 10 ∷ rest))

type_value_Finishes :
    (cs rest : Bytes) (r : Request) (h : Header)
    → IsValue cs
    → r.parse_status ≡ s_content_type_v
    → At r (cs ++ 13 ∷ 10 ∷ rest)
    → r.rbuf_len < 2 ^ 32
    → ((m : Request)
        → m.parse_status ≡ s_header_field
        → At m rest
        → m.rbuf_len ≡ r.rbuf_len
        → header_of m ≡ record (header_of r) { content_type = r.content_type ++ cs }
        → Finishes m h)
    → Finishes r h
unfolding parse_content_type_v
type_value_Finishes [] rest r h value here a small k =
    newline_Finishes rest r h a (rw (here, parse_content_type_v) refl) small (λ m there b len e.
      k m there b len
        (e ∙ ap (λ v. record (header_of r) { content_type = v }) (sym (append-nil r.content_type))))
type_value_Finishes (c ∷ cs) rest r h value here a small k =
    let m = record r {
      content_type = r.content_type ++ c ∷ [];
      parse_offset = r.parse_offset + 1;
    } in
    Finishes-proceed r m h c (cs ++ 13 ∷ 10 ∷ rest) a value.0.0
      (rw (here, parse_content_type_v, value.0.1, value.0.2) refl) refl
      (type_value_Finishes cs rest m h value.1 here
        (At-next r m c (cs ++ 13 ∷ 10 ∷ rest) refl refl refl a) small
        (λ n there b len e. k n there b len (
          e
          ∙ ap (λ v. record (header_of r) { content_type = v })
              (append_assoc r.content_type (c ∷ []) cs))))

key_value_Finishes :
    (cs rest : Bytes) (r : Request) (h : Header)
    → IsValue cs
    → r.parse_status ≡ s_sec_websocket_key_v
    → At r (cs ++ 13 ∷ 10 ∷ rest)
    → r.rbuf_len < 2 ^ 32
    → ((m : Request)
        → m.parse_status ≡ s_header_field
        → At m rest
        → m.rbuf_len ≡ r.rbuf_len
        → header_of m ≡ record (header_of r) { sec_websocket_key = r.sec_websocket_key ++ cs }
        → Finishes m h)
    → Finishes r h
unfolding parse_sec_websocket_key_v
key_value_Finishes [] rest r h value here a small k =
    newline_Finishes rest r h a (rw (here, parse_sec_websocket_key_v) refl) small
      (λ m there b len e. k m there b len (
        e
        ∙ ap (λ v. record (header_of r) { sec_websocket_key = v })
            (sym (append-nil r.sec_websocket_key))))
key_value_Finishes (c ∷ cs) rest r h value here a small k =
    let m = record r {
      sec_websocket_key = r.sec_websocket_key ++ c ∷ [];
      parse_offset = r.parse_offset + 1;
    } in
    Finishes-proceed r m h c (cs ++ 13 ∷ 10 ∷ rest) a value.0.0
      (rw (here, parse_sec_websocket_key_v, value.0.1, value.0.2) refl) refl
      (key_value_Finishes cs rest m h value.1 here
        (At-next r m c (cs ++ 13 ∷ 10 ∷ rest) refl refl refl a) small
        (λ n there b len e. k n there b len (
          e
          ∙ ap (λ v. record (header_of r) { sec_websocket_key = v })
              (append_assoc r.sec_websocket_key (c ∷ []) cs))))

content_type :
    (r : Request) (rest : Bytes)
    → At r (codes "Content-Type: " ++ rest)
    → parse_header_field r 99
      ≡ advance (record r { parse_status = s_content_type; parse_match = r.parse_offset })
unfolding parse_header_field parse_content token
content_type r rest a =
    let text = codes "Content-Type: " ++ rest in
    rw
      (
        parse_header_field,
        parse_content,
        ge→ltb (r.rbuf_len - r.parse_offset) 9 (omega (arith, a.size)),
        ahead-At r text 1 a,
        ahead-At r text 2 a,
        ahead-At r text 3 a,
        ahead-At r text 4 a,
        ahead-At r text 5 a,
        ahead-At r text 6 a,
        ahead-At r text 7 a,
        ahead-At r text 8 a,
      )
      refl

pub type_Finishes :
    (d : ℕ) (ds rest : Bytes) (r : Request) (h : Header)
    → IsValue (d ∷ ds)
    → ((token d == 58) ≡ false)
    → r.parse_status ≡ s_header_field
    → At r (type_line (d ∷ ds) rest)
    → r.rbuf_len < 2 ^ 32
    → ((m : Request)
        → m.parse_status ≡ s_header_field
        → At m rest
        → m.rbuf_len ≡ r.rbuf_len
        → header_of m ≡ record (header_of r) { content_type = r.content_type ++ d ∷ ds }
        → Finishes m h)
    → Finishes r h
unfolding token
type_Finishes d ds rest r h value first here a small k =
    let line = ds ++ (13 ∷ 10 ∷ rest) in
    let m = record r {
      parse_status = s_content_type;
      parse_match = r.parse_offset;
      parse_offset = r.parse_offset + 1;
    } in
    let letters = codes "ontent-Type" in
    let behind = letters ++ (58 ∷ 32 ∷ d ∷ line) in
    Finishes-proceed r m h 67 behind a refl
      (ap (λ s. parse_char s r 67 99) here ∙ content_type r (d ∷ line) a) refl
      (name_Finishes (codes "content-type") s_content_type s_content_type_v (omega arith) d line
        (value.0.0, value.0.1, first) (λ r c. refl) 1 letters m h refl refl refl refl (ground arith)
        (At-next r m 67 behind refl refl refl a) small
        (λ n there b len e.
          type_value_Finishes (d ∷ ds) rest n h value there b (omega (arith, len, small))
            (λ q last c size same. k q last c (size ∙ len) (
              same ∙ ap (λ (h : Header). record h { content_type = h.content_type ++ d ∷ ds }) e))))

pub key_Finishes :
    (d : ℕ) (ds rest : Bytes) (r : Request) (h : Header)
    → IsValue (d ∷ ds)
    → ((token d == 58) ≡ false)
    → r.parse_status ≡ s_header_field
    → At r (key_line (d ∷ ds) rest)
    → r.rbuf_len < 2 ^ 32
    → ((m : Request)
        → m.parse_status ≡ s_header_field
        → At m rest
        → m.rbuf_len ≡ r.rbuf_len
        → header_of m ≡ record (header_of r) { sec_websocket_key = r.sec_websocket_key ++ d ∷ ds }
        → Finishes m h)
    → Finishes r h
unfolding token parse_header_field
key_Finishes d ds rest r h value first here a small k =
    let line = ds ++ (13 ∷ 10 ∷ rest) in
    let m = record r {
      parse_status = s_sec_websocket_key;
      parse_match = r.parse_offset;
      parse_offset = r.parse_offset + 1;
    } in
    let letters = codes "ec-WebSocket-Key" in
    let behind = letters ++ (58 ∷ 32 ∷ d ∷ line) in
    Finishes-proceed r m h 83 behind a refl (ap (λ s. parse_char s r 83 115) here) refl (
      name_Finishes (codes "sec-websocket-key") s_sec_websocket_key s_sec_websocket_key_v
        (omega arith) d line (value.0.0, value.0.1, first) (λ r c. refl) 1 letters m h refl refl
        refl refl (ground arith) (At-next r m 83 behind refl refl refl a) small
        (λ n there b len e.
          key_value_Finishes (d ∷ ds) rest n h value there b (omega (arith, len, small))
            (λ q last c size same. k q last c (size ∙ len) (
              same
              ∙ ap (λ (h : Header). record h { sec_websocket_key = h.sec_websocket_key ++ d ∷ ds })
                  e))))
