-- ===== src/Request/Parse/LengthLine.antt =====
-- `Parse` of request.cpp on the line `Content-Length`.
use mevent.Common.{
  ℕ, Bytes, ◌∷◌, ◌++◌, ◌+◌, ◌-◌, ◌^◌, ◌<◌, ◌≤◌, ◌≡◌, refl, sym, ap, ◌∙◌, subst, ge→ltb, ◌==◌, arith,
  codes,
}
use mevent.Request.{Request, s_content_length, s_content_length_v, s_header_field}
use mevent.Request.Chars.{token}
use mevent.Request.Parse.{parse_char, parse_content, parse_header_field, advance}
use mevent.Request.Parse.Big.{At, At-next}
use mevent.Request.Parse.Lines.{Header, header_of, Finishes, Finishes-proceed}
use mevent.Request.Parse.NameLine.{ahead-At, IsFirst, name_Finishes}
use mevent.Request.Parse.Methods.{different}
use mevent.Request.Parse.Digits.{number, IsDigits, token-digit, digits_Finishes}

abbrev length_name : Bytes
length_name = codes "content-length"

abbrev pub length_line : Bytes → Bytes → Bytes
length_line digits rest = codes "Content-Length: " ++ (digits ++ (13 ∷ 10 ∷ rest))

digit-IsFirst : (d : ℕ) → 48 ≤ d → d ≤ 57 → IsFirst d
digit-IsFirst d low high =
    let same = token-digit d low high in
    (
      ap (λ t. t == 0) same ∙ different d 0 (omega (arith, low)),
      ap (λ t. t == 32) same ∙ different d 32 (omega (arith, low)),
      ap (λ t. t == 58) same ∙ different d 58 (omega (arith, high)),
    )

content_length :
    (r : Request) (rest : Bytes)
    → At r (codes "Content-Length: " ++ rest)
    → parse_header_field r 99
      ≡ advance (record r { parse_status = s_content_length; parse_match = r.parse_offset })
unfolding parse_header_field parse_content token
content_length r rest a =
    let text = codes "Content-Length: " ++ rest in
    rw
      (
        parse_header_field,
        parse_content,
        ge→ltb (r.rbuf_len - r.parse_offset) 9 (omega (arith, a.size)),
        ahead-At r text 1 a,
        ahead-At r text 2 a,
        ahead-At r text 3 a,
        ahead-At r text 4 a,
        ahead-At r text 5 a,
        ahead-At r text 6 a,
        ahead-At r text 7 a,
        ahead-At r text 8 a,
      )
      refl

pub length_Finishes :
    (d : ℕ) (ds rest : Bytes) (r : Request) (h : Header)
    → IsDigits (d ∷ ds)
    → number r.content_length (d ∷ ds) < 2 ^ 32
    → r.parse_status ≡ s_header_field
    → At r (length_line (d ∷ ds) rest)
    → r.rbuf_len < 2 ^ 32
    → ((m : Request)
        → m.parse_status ≡ s_header_field
        → At m rest
        → m.rbuf_len ≡ r.rbuf_len
        → header_of m ≡ record (header_of r) { content_length = number r.content_length (d ∷ ds) }
        → Finishes m h)
    → Finishes r h
unfolding token
length_Finishes d ds rest r h digits fits here a small k =
    let line = ds ++ (13 ∷ 10 ∷ rest) in
    let m = record r {
      parse_status = s_content_length;
      parse_match = r.parse_offset;
      parse_offset = r.parse_offset + 1;
    } in
    let letters = codes "ontent-Length" in
    let behind = letters ++ (58 ∷ 32 ∷ d ∷ line) in
    Finishes-proceed r m h 67 behind a refl
      (ap (λ s. parse_char s r 67 99) here ∙ content_length r (d ∷ line) a) refl
      (name_Finishes length_name s_content_length s_content_length_v (omega arith) d line
        (digit-IsFirst d digits.0.0 digits.0.1) (λ r c. refl) 1 letters m h refl refl refl refl
        (ground arith) (At-next r m 67 behind refl refl refl a) small
        (λ n there b len e.
          let kept : n.content_length ≡ r.content_length =
            ap (λ (h : Header). h.content_length) e in
          digits_Finishes rest (d ∷ ds) n h digits
            (subst (λ x. number x (d ∷ ds) < 2 ^ 32) (sym kept) fits) there b
            (omega (arith, len, small))
            (λ q last c size same. k q last c (size ∙ len) (
              same
              ∙ ap (λ (h : Header). record h { content_length = number h.content_length (d ∷ ds) })
                  e))))
