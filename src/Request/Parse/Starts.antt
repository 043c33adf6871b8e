-- ===== src/Request/Parse/Starts.antt =====
-- `Parse` of request.cpp on the method at the start of a request.
use mevent.Common.{
  ℕ, suc, Bytes, [], ◌∷◌, ◌++◌, map, ◌+◌, ◌^◌, ◌<◌, ◌≡◌, ◌≢◌, refl, ap, ◌∙◌, false, ◌==◌, drop,
  arith, length, All, codes,
}
use mevent.Request.{
  Request, RequestMethod, get_method, post_method, head_method, put_method, delete_method,
  connect_method, options_method, trace_method, patch_method, unknown_method, s_start, s_method,
  s_method_p, s_path,
}
use mevent.Request.Chars.{token}
use mevent.Request.Parse.{proceed, parse_char, parse_start, parse_method_p, method_name}
use mevent.Request.Parse.Big.{At, At-next}
use mevent.Request.Parse.Lines.{Header, header_of, Finishes, Finishes-proceed}
use mevent.Request.Parse.Methods.{behind_method, Continues, letters_Finishes}

-- A method as it stands in a request line.
abbrev pub method_text : RequestMethod → Bytes
method_text get_method = codes "GET"
method_text post_method = codes "POST"
method_text head_method = codes "HEAD"
method_text put_method = codes "PUT"
method_text delete_method = codes "DELETE"
method_text connect_method = codes "CONNECT"
method_text options_method = codes "OPTIONS"
method_text trace_method = codes "TRACE"
method_text patch_method = codes "PATCH"
method_text unknown_method = []

-- The parser has taken the first characters of the name for this method.
record Chosen (r : Request) (method : RequestMethod) (cs : Bytes) : Type 0 where
  behind : drop r.parse_offset (method_name method) ≡ map token cs
  size : r.parse_offset + length cs ≡ length (method_name method)
  some_read : 0 < r.parse_offset
  legal : All (λ c. (token c == 0) ≡ false) cs

module _ (rest : Bytes) (r : Request) (h : Header) (small : r.rbuf_len < 2 ^ 32)
    (unmatched : r.parse_match ≡ 0) where
  Chosen-Finishes :
      (method : RequestMethod) (c : ℕ) (cs : Bytes)
      → let q = record r {
        parse_status = s_method;
        method = method;
        parse_offset = r.parse_offset + 1;
      } in
        At r (c ∷ cs ++ behind_method rest)
        → (token c == 0) ≡ false
        → parse_char r.parse_status r c (token c) ≡ proceed q
        → Chosen q method cs
        → Continues q h rest
        → Finishes r h
  Chosen-Finishes method c cs a legal e v k =
      let q = record r {
        parse_status = s_method;
        method = method;
        parse_offset = r.parse_offset + 1;
      } in
      Finishes-proceed r q h c (cs ++ behind_method rest) a legal e refl (
        letters_Finishes rest cs q h refl unmatched v.some_read small v.behind v.size v.legal
          (At-next r q c (cs ++ behind_method rest) refl refl refl a) k)

chosen :
    (r : Request) (method : RequestMethod) (n : ℕ) (cs : Bytes)
    → r.parse_offset ≡ suc n
    → drop (suc n) (method_name method) ≡ map token cs
    → suc n + length cs ≡ length (method_name method)
    → All (λ c. (token c == 0) ≡ false) cs
    → Chosen r method cs
chosen r method n cs off behind size legal = record {
  behind = ap (λ i. drop i (method_name method)) off ∙ behind;
  size = omega (arith, off, size);
  some_read = omega (arith, off);
  legal = legal;
}

pub method_Finishes :
    (method : RequestMethod) (rest : Bytes) (r : Request) (h : Header)
    → method ≢ unknown_method
    → r.parse_status ≡ s_start
    → r.parse_match ≡ 0
    → r.parse_offset ≡ 0
    → r.rbuf_len < 2 ^ 32
    → At r (method_text method ++ behind_method rest)
    → ((m : Request)
        → m.parse_status ≡ s_path
        → At m (47 ∷ rest)
        → m.rbuf_len ≡ r.rbuf_len
        → header_of m ≡ record (header_of r) { method = method }
        → Finishes m h)
    → Finishes r h
unfolding token parse_start parse_method_p
method_Finishes get_method rest r h known here unmatched off small a k =
    Chosen-Finishes rest r h small unmatched get_method 71 (codes "ET") a refl
      (ap (λ s. parse_char s r 71 103) here)
      (chosen _ get_method 0 (codes "ET") (omega (arith, off)) refl refl (refl, (refl, tt))) k
method_Finishes head_method rest r h known here unmatched off small a k =
    Chosen-Finishes rest r h small unmatched head_method 72 (codes "EAD") a refl
      (ap (λ s. parse_char s r 72 104) here)
      (chosen _ head_method 0 (codes "EAD") (omega (arith, off)) refl refl
        (refl, (refl, (refl, tt))))
      k
method_Finishes delete_method rest r h known here unmatched off small a k =
    Chosen-Finishes rest r h small unmatched delete_method 68 (codes "ELETE") a refl
      (ap (λ s. parse_char s r 68 100) here)
      (chosen _ delete_method 0 (codes "ELETE") (omega (arith, off)) refl refl
        (refl, (refl, (refl, (refl, (refl, tt))))))
      k
method_Finishes connect_method rest r h known here unmatched off small a k =
    Chosen-Finishes rest r h small unmatched connect_method 67 (codes "ONNECT") a refl
      (ap (λ s. parse_char s r 67 99) here)
      (chosen _ connect_method 0 (codes "ONNECT") (omega (arith, off)) refl refl
        (refl, (refl, (refl, (refl, (refl, (refl, tt)))))))
      k
method_Finishes options_method rest r h known here unmatched off small a k =
    Chosen-Finishes rest r h small unmatched options_method 79 (codes "PTIONS") a refl
      (ap (λ s. parse_char s r 79 111) here)
      (chosen _ options_method 0 (codes "PTIONS") (omega (arith, off)) refl refl
        (refl, (refl, (refl, (refl, (refl, (refl, tt)))))))
      k
method_Finishes trace_method rest r h known here unmatched off small a k =
    Chosen-Finishes rest r h small unmatched trace_method 84 (codes "RACE") a refl
      (ap (λ s. parse_char s r 84 116) here)
      (chosen _ trace_method 0 (codes "RACE") (omega (arith, off)) refl refl
        (refl, (refl, (refl, (refl, tt)))))
      k
method_Finishes post_method rest r h known here unmatched off small a k =
    let m = record r { parse_status = s_method_p; parse_offset = r.parse_offset + 1 } in
    let text = codes "OST" ++ behind_method rest in
    Finishes-proceed r m h 80 text a refl (ap (λ s. parse_char s r 80 112) here) refl (
      Chosen-Finishes rest m h small unmatched post_method 79 (codes "ST")
        (At-next r m 80 text refl refl refl a) refl refl
        (chosen _ post_method 1 (codes "ST") (omega (arith, off)) refl refl (refl, (refl, tt))) k)
method_Finishes put_method rest r h known here unmatched off small a k =
    let m = record r { parse_status = s_method_p; parse_offset = r.parse_offset + 1 } in
    let text = codes "UT" ++ behind_method rest in
    Finishes-proceed r m h 80 text a refl (ap (λ s. parse_char s r 80 112) here) refl (
      Chosen-Finishes rest m h small unmatched put_method 85 (codes "T")
        (At-next r m 80 text refl refl refl a) refl refl
        (chosen _ put_method 1 (codes "T") (omega (arith, off)) refl refl (refl, tt)) k)
method_Finishes patch_method rest r h known here unmatched off small a k =
    let m = record r { parse_status = s_method_p; parse_offset = r.parse_offset + 1 } in
    let text = codes "ATCH" ++ behind_method rest in
    Finishes-proceed r m h 80 text a refl (ap (λ s. parse_char s r 80 112) here) refl (
      Chosen-Finishes rest m h small unmatched patch_method 65 (codes "TCH")
        (At-next r m 80 text refl refl refl a) refl refl
        (chosen _ patch_method 1 (codes "TCH") (omega (arith, off)) refl refl
          (refl, (refl, (refl, tt))))
        k)
method_Finishes unknown_method rest r h known here unmatched off small a k = absurd (known refl)
