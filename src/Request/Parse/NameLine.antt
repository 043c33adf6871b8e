-- ===== src/Request/Parse/NameLine.antt =====
-- `Parse` of request.cpp on the name of a field whose value it reads.
use mevent.Common.{
  ℕ, zero, suc, Bytes, [], ◌∷◌, ◌++◌, map, ◌+◌, ◌-◌, ◌^◌, ◌<◌, ◌≤◌, ◌≡◌, refl, ap, ◌∙◌, false,
  lt→ltb, ge→ltb, ◌==◌, ==_iff, ◌||◌, if◌then◌else◌, get_or, drop, arith, length, All,
}
use mevent.Request.{Request, RequestParseStatus}
use mevent.Request.Chars.{token}
use mevent.Request.Parse.{parse_char, parse_field_name, minus32, advance, again_in, skip_line}
use mevent.Request.Parse.Big.{At, At-next, drop-here, drop-behind}
use mevent.Request.Parse.Lines.{Header, header_of, Finishes, Finishes-proceed}

get-ahead : (n i : ℕ) (xs : Bytes) → get_or xs (n + i) 0 ≡ get_or (drop n xs) i 0
get-ahead zero i xs = let e : 0 + i ≡ i = omega arith in ap (λ k. get_or xs k 0) e
get-ahead (suc n) i [] = refl
get-ahead (suc n) i (x ∷ xs) =
    let e : suc n + i ≡ suc (n + i) = omega arith in
    ap (λ k. get_or (x ∷ xs) k 0) e ∙ get-ahead n i xs

pub ahead-At :
    (r : Request) (text : Bytes) (i : ℕ)
    → At r text
    → token (get_or r.rbuf (r.parse_offset + i) 0) ≡ token (get_or text i 0)
ahead-At r text i a = ap token (get-ahead r.parse_offset i r.rbuf ∙ ap (λ l. get_or l i 0) a.unread)

-- A first character of a value.
abbrev pub IsFirst : ℕ → Type 0
IsFirst d = ((token d == 0) ≡ false) × ((token d == 32) ≡ false) × ((token d == 58) ≡ false)

module _ (name : Bytes) (status value_status : RequestParseStatus)
    (some_name : 0 < length name) where
  pub name_letter :
      (r : Request) (j c : ℕ)
      → r.parse_offset ≡ r.parse_match + j
      → r.parse_offset < 2 ^ 32
      → j < length name
      → get_or name j 0 ≡ c
      → parse_field_name name value_status r c ≡ advance r
  unfolding parse_field_name
  name_letter r j c off small inside e =
      let matched : minus32 r.parse_offset r.parse_match ≡ j = omega (arith, off, small) in
      rw
        (
          parse_field_name,
          matched,
          ge→ltb (length name - 1) j (omega (arith, inside)),
          (==_iff (get_or name j 0) c).1 e,
        )
        refl

  -- Another character than the name has makes the line one to skip.
  pub name_miss :
      (r : Request) (j x c : ℕ)
      → r.parse_offset ≡ r.parse_match + j
      → r.parse_offset < 2 ^ 32
      → j < length name
      → get_or name j 0 ≡ x
      → (x == c) ≡ false
      → parse_field_name name value_status r c ≡ skip_line r
  unfolding parse_field_name
  name_miss r j x c off small inside e other =
      let matched : minus32 r.parse_offset r.parse_match ≡ j = omega (arith, off, small) in
      rw (parse_field_name, matched, ge→ltb (length name - 1) j (omega (arith, inside)), e, other)
        refl

  -- Behind the name, a space or a colon is skipped, and any other character begins the value.
  name_over :
      (r : Request) (c : ℕ)
      → r.parse_match + length name ≤ r.parse_offset
      → r.parse_offset < 2 ^ 32
      → parse_field_name name value_status r c
        ≡ (if c == 32 || c == 58 then advance r else again_in value_status r)
  unfolding parse_field_name
  name_over r c over small =
      let matched : minus32 r.parse_offset r.parse_match ≡ r.parse_offset - r.parse_match =
        omega (arith, over, small) in
      rw
        (
          parse_field_name,
          matched,
          lt→ltb (length name - 1) (r.parse_offset - r.parse_match)
              (omega (arith, over, some_name)),
        )
        refl

  module _ (d : ℕ) (rest : Bytes) (first : IsFirst d)
      (state : (r : Request) (c : ℕ)
        → parse_char status r c (token c) ≡ parse_field_name name value_status r (token c)) where
    value_starts :
        (r : Request)
        → (if token d == 32 || token d == 58 then advance r else again_in value_status r)
          ≡ again_in value_status r
    value_starts r = rw (first.1, first.2) refl

    -- From the letter `j` of the name to the value.
    pub name_Finishes :
        (j : ℕ) (cs : Bytes) (r : Request) (h : Header)
        → r.parse_status ≡ status
        → r.parse_offset ≡ r.parse_match + j
        → drop j name ≡ map token cs
        → j + length cs ≡ length name
        → All (λ c. (token c == 0) ≡ false) cs
        → At r (cs ++ (58 ∷ 32 ∷ d ∷ rest))
        → r.rbuf_len < 2 ^ 32
        → ((m : Request)
            → m.parse_status ≡ value_status
            → At m (d ∷ rest)
            → m.rbuf_len ≡ r.rbuf_len
            → header_of m ≡ header_of r
            → Finishes m h)
        → Finishes r h
    unfolding token
    name_Finishes j [] r h here off left size legal a small k =
        let m = record r { parse_offset = r.parse_offset + 1 } in
        let n = record m { parse_offset = m.parse_offset + 1 } in
        let v = record n { parse_status = value_status; parse_match = n.parse_offset } in
        let b = At-next r m 58 (32 ∷ d ∷ rest) refl refl refl a in
        let c = At-next m n 32 (d ∷ rest) refl refl refl b in
        Finishes-proceed r m h 58 (32 ∷ d ∷ rest) a refl
          (ap (λ s. parse_char s r 58 58) here
            ∙ state r 58
            ∙ name_over r 58 (omega (arith, off, size)) (omega (arith, a.size, small)))
          refl
          (Finishes-proceed m n h 32 (d ∷ rest) b refl
            (ap (λ s. parse_char s m 32 32) here
              ∙ state m 32
              ∙ name_over m 32 (omega (arith, off, size)) (omega (arith, b.size, small)))
            refl
            (Finishes-proceed n v h d rest c first.0
              (ap (λ s. parse_char s n d (token d)) here
                ∙ state n d
                ∙ name_over n (token d) (omega (arith, off, size)) (omega (arith, c.size, small))
                ∙ value_starts n)
              refl (k v refl (record { unread = c.unread; size = c.size }) refl refl)))
    name_Finishes j (c ∷ cs) r h here off left size legal a small k =
        let m = record r { parse_offset = r.parse_offset + 1 } in
        let behind = cs ++ (58 ∷ 32 ∷ d ∷ rest) in
        Finishes-proceed r m h c behind a legal.0
          (ap (λ s. parse_char s r c (token c)) here
            ∙ state r c
            ∙ name_letter r j (token c) off (omega (arith, a.size, small)) (omega (arith, size))
                (drop-here j name (token c) (map token cs) left))
          refl
          (name_Finishes (suc j) cs m h here (omega (arith, off))
            (drop-behind j name (token c) (map token cs) left) (omega (arith, size)) legal.1
            (At-next r m c behind refl refl refl a) small k)
