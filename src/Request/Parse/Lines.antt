-- ===== src/Request/Parse/Lines.antt =====
-- `Parse` of request.cpp on the parts of a well-formed header: the target, a line that is skipped,
-- and the empty line.
use mevent.Common.{
  ℕ, Bytes, [], ◌∷◌, ◌++◌, append_assoc, append-nil, ◌+◌, ◌^◌, ◌<◌, ◌≡◌, refl, sym, ap, ◌∙◌, subst,
  true, false, ◌==◌, ==_iff, get_or, arith, Bool-cases, inl, inr, All,
}
use mevent.Request.{Request, RequestMethod, s_path, s_query_string, s_eol, s_header_field, s_eoh}
use mevent.Request.Chars.{token, is_url_char}
use mevent.Request.Parse.{
  finished, proceed, parse_char, parse_eol, skip_line, parse_path, parse_query_string,
  parse_header_field, parse_eoh, minus32,
}
use mevent.Request.Parse.Big.{Ends, At, At-next, Ends-proceed, Ends-leave, drop-here}

-- What the parser has read of a header.
pub record Header : Type 0 where
  pub method : RequestMethod
  pub path : Bytes
  pub query_string : Bytes
  pub content_length : ℕ
  pub content_type : Bytes
  pub sec_websocket_key : Bytes

abbrev pub header_of : Request → Header
header_of r = record {
  method = r.method;
  path = r.path;
  query_string = r.query_string;
  content_length = r.content_length;
  content_type = r.content_type;
  sec_websocket_key = r.sec_websocket_key;
}

-- The parser finishes with this header, at the end of the text.
pub record Finishes (r : Request) (h : Header) : Type 0 where
  pub last : Request
  pub ends : Ends r finished last
  pub header : header_of last ≡ h
  pub all : last.header_len ≡ r.rbuf_len

pub Finishes-proceed :
    (r m : Request) (h : Header) (c : ℕ) (rest : Bytes)
    → At r (c ∷ rest)
    → (token c == 0) ≡ false
    → parse_char r.parse_status r c (token c) ≡ proceed m
    → m.rbuf_len ≡ r.rbuf_len
    → Finishes m h
    → Finishes r h
Finishes-proceed r m h c rest a legal e len f = record {
  last = f.last;
  ends = Ends-proceed r m f.last finished c rest a legal e f.ends;
  header = f.header;
  all = f.all ∙ len;
}

-- The empty line.
pub end_Finishes :
    (r : Request) → r.parse_status ≡ s_header_field → At r (13 ∷ 10 ∷ []) → Finishes r (header_of r)
unfolding parse_header_field parse_eoh token
end_Finishes r here a =
    let m = record r { parse_status = s_eoh; parse_offset = r.parse_offset + 1 } in
    let b : At m (10 ∷ []) = At-next r m 13 (10 ∷ []) refl refl refl a in
    Finishes-proceed r m (header_of r) 13 (10 ∷ []) a refl (rw here refl) refl (record {
      last = record m { header_len = m.parse_offset + 1 };
      ends = Ends-leave m (record m { header_len = m.parse_offset + 1 }) finished 10 [] b refl refl;
      header = refl;
      all = b.size;
    })

abbrev pub IsLineText : Bytes → Type 0
IsLineText = All (λ c. ((token c == 0) ≡ false) × ((token c == 10) ≡ false))

-- The line feed behind a carriage return, where the line holds nothing more.
pub newline_Finishes :
    (rest : Bytes) (r : Request) (h : Header)
    → At r (13 ∷ 10 ∷ rest)
    → parse_char r.parse_status r 13 13 ≡ skip_line r
    → r.rbuf_len < 2 ^ 32
    → ((m : Request)
        → m.parse_status ≡ s_header_field
        → At m rest
        → m.rbuf_len ≡ r.rbuf_len
        → header_of m ≡ header_of r
        → Finishes m h)
    → Finishes r h
unfolding parse_eol token
newline_Finishes rest r h a e small k =
    let m = record r { parse_status = s_eol; parse_offset = r.parse_offset + 1 } in
    let b : At m (10 ∷ rest) = At-next r m 13 (10 ∷ rest) refl refl refl a in
    let n = record m {
      parse_status = s_header_field;
      parse_offset = m.parse_offset + 1;
      parse_match = m.parse_offset;
    } in
    let before : get_or r.rbuf (minus32 m.parse_offset 1) 0 ≡ 13 =
      ap (λ i. get_or r.rbuf i 0) (omega (arith, a.size, small))
      ∙ drop-here r.parse_offset r.rbuf 13 (10 ∷ rest) a.unread in
    Finishes-proceed r m h 13 (10 ∷ rest) a refl e refl (
      Finishes-proceed m n h 10 rest b refl (rw before refl) refl
        (k n refl (At-next m n 10 rest refl refl refl b) refl refl))

-- A rest of a line, which is skipped.
pub line_Finishes :
    (cs rest : Bytes) (r : Request) (h : Header)
    → IsLineText cs
    → r.parse_status ≡ s_eol
    → At r (cs ++ 13 ∷ 10 ∷ rest)
    → r.rbuf_len < 2 ^ 32
    → ((m : Request)
        → m.parse_status ≡ s_header_field
        → At m rest
        → m.rbuf_len ≡ r.rbuf_len
        → header_of m ≡ header_of r
        → Finishes m h)
    → Finishes r h
unfolding parse_eol token
line_Finishes [] rest r h text here a small k = newline_Finishes rest r h a (rw here refl) small k
line_Finishes (c ∷ cs) rest r h text here a small k =
    let m = record r { parse_offset = r.parse_offset + 1 } in
    Finishes-proceed r m h c (cs ++ 13 ∷ 10 ∷ rest) a text.0.0 (rw (here, parse_eol, text.0.1) refl)
      refl
      (line_Finishes cs rest m h text.1 here (At-next r m c (cs ++ 13 ∷ 10 ∷ rest) refl refl refl a)
        small k)

abbrev pub IsUrlText : Bytes → Type 0
IsUrlText = All (λ c. ((token c == 0) ≡ false) × (is_url_char c ≡ true))

url_space : (c : ℕ) → is_url_char c ≡ true → (c == 32) ≡ false
unfolding is_url_char
url_space c e = elim (Bool-cases (c == 32)) [
  | inl space ↦ absurd (ground (arith, subst (λ d. is_url_char d ≡ true) ((==_iff c 32).0 space) e))
  | inr other ↦ other
]

pub path_Finishes :
    (cs rest : Bytes) (r : Request) (h : Header)
    → IsUrlText cs
    → r.parse_status ≡ s_path
    → At r (cs ++ rest)
    → ((m : Request)
        → m.parse_status ≡ s_path
        → At m rest
        → m.rbuf_len ≡ r.rbuf_len
        → header_of m ≡ record (header_of r) { path = r.path ++ cs }
        → Finishes m h)
    → Finishes r h
unfolding parse_path
path_Finishes [] rest r h text here a k =
    k r here a refl (ap (λ p. record (header_of r) { path = p }) (sym (append-nil r.path)))
path_Finishes (c ∷ cs) rest r h text here a k =
    let m = record r { path = r.path ++ c ∷ []; parse_offset = r.parse_offset + 1 } in
    Finishes-proceed r m h c (cs ++ rest) a text.0.0
      (rw (here, parse_path, url_space c text.0.1, text.0.1) refl) refl
      (path_Finishes cs rest m h text.1 here (At-next r m c (cs ++ rest) refl refl refl a)
        (λ n there b len e.
          k n there b len
            (e ∙ ap (λ p. record (header_of r) { path = p }) (append_assoc r.path (c ∷ []) cs))))

pub query_Finishes :
    (cs rest : Bytes) (r : Request) (h : Header)
    → IsUrlText cs
    → r.parse_status ≡ s_query_string
    → At r (cs ++ rest)
    → ((m : Request)
        → m.parse_status ≡ s_query_string
        → At m rest
        → m.rbuf_len ≡ r.rbuf_len
        → header_of m ≡ record (header_of r) { query_string = r.query_string ++ cs }
        → Finishes m h)
    → Finishes r h
unfolding parse_query_string
query_Finishes [] rest r h text here a k =
    k r here a refl
      (ap (λ p. record (header_of r) { query_string = p }) (sym (append-nil r.query_string)))
query_Finishes (c ∷ cs) rest r h text here a k =
    let m = record r {
      query_string = r.query_string ++ c ∷ [];
      parse_offset = r.parse_offset + 1;
    } in
    Finishes-proceed r m h c (cs ++ rest) a text.0.0
      (rw (here, parse_query_string, url_space c text.0.1, text.0.1) refl) refl
      (query_Finishes cs rest m h text.1 here (At-next r m c (cs ++ rest) refl refl refl a)
        (λ n there b len e. k n there b len (
          e
          ∙ ap (λ p. record (header_of r) { query_string = p })
              (append_assoc r.query_string (c ∷ []) cs))))
