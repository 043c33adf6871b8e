-- ===== src/Request/Parse/OtherLine.antt =====
-- `Parse` of request.cpp on a line that it skips: its first characters may be those of a field that is
-- read.
use mevent.Common.{
  ℕ, suc, Bool, true, false, not, Bytes, [], ◌∷◌, ◌++◌, ◌+◌, ◌-◌, ◌^◌, ◌<◌, ◌≤◌, ◌≡◌, refl, sym, ap,
  ◌∙◌, ge→ltb, leb, leb→le, ◌==◌, ==_iff, ◌&&◌, if◌then◌else◌, drop, length, arith, Bool-cases, inl,
  inr, All, codes,
}
use mevent.Request.{Request, s_eol, s_header_field, s_sec_websocket_key, s_sec_websocket_key_v}
use mevent.Request.Chars.{token}
use mevent.Request.Parse.{parse_char, parse_content, parse_header_field, skip_line}
use mevent.Request.Parse.Big.{At, At-next, drop-here, drop-behind}
use mevent.Request.Parse.Lines.{
  Header, header_of, Finishes, Finishes-proceed, IsLineText, line_Finishes, newline_Finishes,
}
use mevent.Request.Parse.NameLine.{ahead-At, name_letter, name_miss}

-- Whether a text begins with a name, in lower or upper case.
abbrev pub begins : Bytes → Bytes → Bool
begins [] text = true
begins (x ∷ name) [] = false
begins (x ∷ name) (c ∷ text) = (token c == x) && begins name text

abbrev key_name : Bytes
key_name = codes "sec-websocket-key"

-- Whether the parser skips a line: one that begins with `c` has nine characters and does not go on
-- like `Content-Length` or `Content-Type`, one that begins with `s` is not `Sec-WebSocket-Key`.
abbrev pub is_skipped : ℕ → Bytes → Bool
is_skipped c cs =
    if token c == 99
    then leb 8 (length cs)
      && not (begins (codes "ontent-l") cs)
      && not (begins (codes "ontent-t") cs)
    else if token c == 115
    then not (begins (codes "ec-websocket-key") cs)
    else true

and_assoc_last :
    (a b c d e f g h : Bool)
    → ((a && (b && (c && (d && (e && (f && (g && (h && true))))))))
        ≡ ((a && b && c && d && e && f && g) && h))
and_assoc_last false b c d e f g h = refl
and_assoc_last true false c d e f g h = refl
and_assoc_last true true false d e f g h = refl
and_assoc_last true true true false e f g h = refl
and_assoc_last true true true true false f g h = refl
and_assoc_last true true true true true false g h = refl
and_assoc_last true true true true true true false h = refl
and_assoc_last true true true true true true true h = ground arith

content_skipped :
    (r : Request) (c c1 c2 c3 c4 c5 c6 c7 c8 : ℕ) (more : Bytes)
    → At r (c ∷ c1 ∷ c2 ∷ c3 ∷ c4 ∷ c5 ∷ c6 ∷ c7 ∷ c8 ∷ more)
    → begins (codes "ontent-l") (c1 ∷ c2 ∷ c3 ∷ c4 ∷ c5 ∷ c6 ∷ c7 ∷ c8 ∷ more) ≡ false
    → begins (codes "ontent-t") (c1 ∷ c2 ∷ c3 ∷ c4 ∷ c5 ∷ c6 ∷ c7 ∷ c8 ∷ more) ≡ false
    → parse_content r ≡ skip_line r
unfolding parse_content
content_skipped r c c1 c2 c3 c4 c5 c6 c7 c8 more a no_length no_type =
    let text = c ∷ c1 ∷ c2 ∷ c3 ∷ c4 ∷ c5 ∷ c6 ∷ c7 ∷ c8 ∷ more in
    let test =
      and_assoc_last (token c1 == 111) (token c2 == 110) (token c3 == 116) (token c4 == 101)
        (token c5 == 110) (token c6 == 116) (token c7 == 45) in
    rw
      (
        parse_content,
        ge→ltb (r.rbuf_len - r.parse_offset) 9 (omega (arith, a.size)),
        ahead-At r text 1 a,
        ahead-At r text 2 a,
        ahead-At r text 3 a,
        ahead-At r text 4 a,
        ahead-At r text 5 a,
        ahead-At r text 6 a,
        ahead-At r text 7 a,
        ahead-At r text 8 a,
        sym (test (token c8 == 108)) ∙ no_length,
        sym (test (token c8 == 116)) ∙ no_type,
      )
      refl

content_other :
    (r : Request) (c : ℕ) (cs rest : Bytes)
    → At r (c ∷ (cs ++ rest))
    → 8 ≤ length cs
    → begins (codes "ontent-l") cs ≡ false
    → begins (codes "ontent-t") cs ≡ false
    → parse_content r ≡ skip_line r
content_other r c [] rest a long no_length no_type = absurd (omega (arith, long))
content_other r c (_ ∷ []) rest a long no_length no_type = absurd (omega (arith, long))
content_other r c (_ ∷ _ ∷ []) rest a long no_length no_type = absurd (omega (arith, long))
content_other r c (_ ∷ _ ∷ _ ∷ []) rest a long no_length no_type = absurd (omega (arith, long))
content_other r c (_ ∷ _ ∷ _ ∷ _ ∷ []) rest a long no_length no_type = absurd (omega (arith, long))
content_other r c (_ ∷ _ ∷ _ ∷ _ ∷ _ ∷ []) rest a long no_length no_type =
    absurd (omega (arith, long))
content_other r c (_ ∷ _ ∷ _ ∷ _ ∷ _ ∷ _ ∷ []) rest a long no_length no_type =
    absurd (omega (arith, long))
content_other r c (_ ∷ _ ∷ _ ∷ _ ∷ _ ∷ _ ∷ _ ∷ []) rest a long no_length no_type =
    absurd (omega (arith, long))
content_other r c (c1 ∷ c2 ∷ c3 ∷ c4 ∷ c5 ∷ c6 ∷ c7 ∷ c8 ∷ cs) rest a long no_length no_type =
    content_skipped r c c1 c2 c3 c4 c5 c6 c7 c8 (cs ++ rest) a no_length no_type

-- From the letter `j` of the key's name on, a line that does not go on like it.
other_name_Finishes :
    (j : ℕ) (name cs rest : Bytes) (r : Request) (h : Header)
    → r.parse_status ≡ s_sec_websocket_key
    → r.parse_offset ≡ r.parse_match + j
    → drop j key_name ≡ name
    → j + length name ≡ length key_name
    → All (λ x. (x == 13) ≡ false) name
    → begins name cs ≡ false
    → IsLineText cs
    → At r (cs ++ 13 ∷ 10 ∷ rest)
    → r.rbuf_len < 2 ^ 32
    → ((m : Request)
        → m.parse_status ≡ s_header_field
        → At m rest
        → m.rbuf_len ≡ r.rbuf_len
        → header_of m ≡ header_of r
        → Finishes m h)
    → Finishes r h
unfolding token
other_name_Finishes j [] cs rest r h here off left size ends other text a small k =
    absurd (ground (arith, other))
other_name_Finishes j (x ∷ name) [] rest r h here off left size ends other text a small k =
    newline_Finishes rest r h a
      (ap (λ s. parse_char s r 13 13) here
        ∙ name_miss key_name s_sec_websocket_key s_sec_websocket_key_v (omega arith) r j x 13 off
            (omega (arith, a.size, small)) (omega (arith, size)) (drop-here j key_name x name left)
            ends.0)
      small k
other_name_Finishes j (x ∷ name) (c ∷ cs) rest r h here off left size ends other text a small k =
    let behind = cs ++ 13 ∷ 10 ∷ rest in
    elim (Bool-cases (token c == x)) [
      | inl same ↦
          let m = record r { parse_offset = r.parse_offset + 1 } in
          Finishes-proceed r m h c behind a text.0.0
            (ap (λ s. parse_char s r c (token c)) here
              ∙ name_letter key_name s_sec_websocket_key s_sec_websocket_key_v (omega arith) r j
                  (token c) off (omega (arith, a.size, small)) (omega (arith, size))
                  (drop-here j key_name x name left ∙ sym ((==_iff (token c) x).0 same)))
            refl
            (other_name_Finishes (suc j) name cs rest m h here (omega (arith, off))
              (drop-behind j key_name x name left) (omega (arith, size)) ends.1
              (rw⁻¹ (ap (λ b. b && begins name cs) same) other) text.1
              (At-next r m c behind refl refl refl a) small k)
      | inr differs ↦
          let m = record r { parse_status = s_eol; parse_offset = r.parse_offset + 1 } in
          Finishes-proceed r m h c behind a text.0.0
            (ap (λ s. parse_char s r c (token c)) here
              ∙ name_miss key_name s_sec_websocket_key s_sec_websocket_key_v (omega arith) r j x
                  (token c) off (omega (arith, a.size, small)) (omega (arith, size))
                  (drop-here j key_name x name left) (ground (arith, differs)))
            refl
            (line_Finishes cs rest m h text.1 refl (At-next r m c behind refl refl refl a) small k)
    ]

tests_hold :
    (is_c long is_length is_type is_s is_key : Bool)
    → is_c ≡ true
    → (if is_c then long && not is_length && not is_type else if is_s then not is_key else true)
      ≡ true
    → (long ≡ true) × (is_length ≡ false) × (is_type ≡ false)
tests_hold false long is_length is_type is_s is_key e h = absurd (ground (arith, e))
tests_hold true true false false is_s is_key e h = (refl, refl, refl)
tests_hold true false is_length is_type is_s is_key e h = absurd (ground (arith, h))
tests_hold true true true is_type is_s is_key e h = absurd (ground (arith, h))
tests_hold true true false true is_s is_key e h = absurd (ground (arith, h))

key_differs :
    (is_c any is_s is_key : Bool)
    → is_c ≡ false
    → is_s ≡ true
    → (if is_c then any else if is_s then not is_key else true) ≡ true
    → is_key ≡ false
key_differs is_c any is_s false no_c here h = refl
key_differs is_c any is_s true no_c here h = absurd (ground (arith, no_c, here, h))

-- A line that is skipped, from its first character on.
pub other_line_Finishes :
    (c : ℕ) (cs rest : Bytes) (r : Request) (h : Header)
    → (token c == 0) ≡ false
    → (token c == 13) ≡ false
    → is_skipped c cs ≡ true
    → IsLineText cs
    → r.parse_status ≡ s_header_field
    → At r (c ∷ (cs ++ 13 ∷ 10 ∷ rest))
    → r.rbuf_len < 2 ^ 32
    → ((m : Request)
        → m.parse_status ≡ s_header_field
        → At m rest
        → m.rbuf_len ≡ r.rbuf_len
        → header_of m ≡ header_of r
        → Finishes m h)
    → Finishes r h
unfolding parse_header_field
other_line_Finishes c cs rest r h legal no_end skipped text here a small k =
    let behind = cs ++ 13 ∷ 10 ∷ rest in
    let m = record r { parse_status = s_eol; parse_offset = r.parse_offset + 1 } in
    let skips : parse_header_field r (token c) ≡ skip_line r → Finishes r h = λ e.
      Finishes-proceed r m h c behind a legal (ap (λ s. parse_char s r c (token c)) here ∙ e) refl
        (line_Finishes cs rest m h text refl (At-next r m c behind refl refl refl a) small k) in
    elim (Bool-cases (token c == 99)) [
      | inl is_c ↦
          let (long, no_length, no_type) = tests_hold _ _ _ _ _ _ is_c skipped in
          skips (
            rw (parse_header_field, no_end, is_c)
              (content_other r c cs (13 ∷ 10 ∷ rest) a (leb→le 8 (length cs) long) no_length
                no_type))
      | inr no_c ↦ elim (Bool-cases (token c == 115)) [
        | inr no_s ↦ skips (rw (parse_header_field, no_end, no_c, no_s) refl)
        | inl is_s ↦
            let n = record r {
              parse_status = s_sec_websocket_key;
              parse_match = r.parse_offset;
              parse_offset = r.parse_offset + 1;
            } in
            Finishes-proceed r n h c behind a legal
              (ap (λ s. parse_char s r c (token c)) here
                ∙ rw (parse_header_field, no_end, no_c, is_s) refl)
              refl
              (other_name_Finishes 1 (codes "ec-websocket-key") cs rest n h refl refl refl refl
                (ground arith) (key_differs _ _ _ _ no_c is_s skipped) text
                (At-next r n c behind refl refl refl a) small k)
      ]
    ]
