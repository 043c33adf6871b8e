-- ===== src/Request/Parse/Methods.antt =====
-- `Parse` of request.cpp on the name of a method and the space behind it.
use mevent.Common.{
  ℕ, suc, Bytes, [], ◌∷◌, ◌++◌, map, ◌+◌, ◌-◌, ◌^◌, ◌<◌, ◌≡◌, ◌≢◌, refl, ap, ◌∙◌, false, lt→ltb,
  ge→ltb, ◌==◌, ==_iff, get_or, drop, arith, length, All,
}
use mevent.Request.{Request, s_method, s_path}
use mevent.Request.Chars.{token}
use mevent.Request.Parse.{parse_char, parse_method, method_name, minus32, advance, again_in}
use mevent.Request.Parse.Big.{At, At-next, drop-here, drop-behind}
use mevent.Request.Parse.Lines.{Header, header_of, Finishes, Finishes-proceed}

-- A path begins with a slash.
abbrev pub behind_method : Bytes → Bytes
behind_method rest = 32 ∷ 47 ∷ rest

-- The parser stands on the slash behind the method.
abbrev pub Continues : Request → Header → Bytes → Type 0
Continues r h rest =
    (m : Request)
    → m.parse_status ≡ s_path
    → At m (47 ∷ rest)
    → m.rbuf_len ≡ r.rbuf_len
    → header_of m ≡ header_of r
    → Finishes m h

pub different : (a b : ℕ) → a ≢ b → (a == b) ≡ false
different a b n = ground (arith, n)

method_letter :
    (r : Request) (c : ℕ)
    → 0 < r.parse_offset
    → r.parse_offset < length (method_name r.method)
    → get_or (method_name r.method) (minus32 r.parse_offset r.parse_match) 0 ≡ c
    → parse_method r c ≡ advance r
unfolding parse_method
method_letter r c pos inside e =
    let n = length (method_name r.method) in
    rw
      (
        parse_method,
        different n 0 (omega (arith, pos, inside)),
        ge→ltb (n - 1) r.parse_offset (omega (arith, inside)),
        (==_iff _ c).1 e,
      )
      refl

method_space :
    (r : Request)
    → 0 < r.parse_offset
    → r.parse_offset ≡ length (method_name r.method)
    → parse_method r 32 ≡ advance r
unfolding parse_method
method_space r pos over =
    let n = length (method_name r.method) in
    rw
      (
        parse_method,
        different n 0 (omega (arith, pos, over)),
        lt→ltb (n - 1) r.parse_offset (omega (arith, over, pos)),
      )
      refl

method_slash :
    (r : Request)
    → 0 < length (method_name r.method)
    → r.parse_offset ≡ length (method_name r.method) + 1
    → parse_method r 47 ≡ again_in s_path r
unfolding parse_method
method_slash r some_name over =
    let n = length (method_name r.method) in
    rw
      (
        parse_method,
        different n 0 (omega (arith, some_name)),
        lt→ltb (n - 1) r.parse_offset (omega (arith, over)),
        different r.parse_offset n (omega (arith, over)),
      )
      refl

module _ (rest : Bytes) where
  pub letters_Finishes :
      (cs : Bytes) (r : Request) (h : Header)
      → r.parse_status ≡ s_method
      → r.parse_match ≡ 0
      → 0 < r.parse_offset
      → r.rbuf_len < 2 ^ 32
      → drop r.parse_offset (method_name r.method) ≡ map token cs
      → r.parse_offset + length cs ≡ length (method_name r.method)
      → All (λ c. (token c == 0) ≡ false) cs
      → At r (cs ++ behind_method rest)
      → Continues r h rest
      → Finishes r h
  unfolding parse_method token
  letters_Finishes [] r h here match_ pos small left size legal a k =
      let over : r.parse_offset ≡ length (method_name r.method) = omega (arith, size) in
      let m = record r { parse_offset = r.parse_offset + 1 } in
      let n = record m { parse_status = s_path; parse_match = m.parse_offset } in
      let b : At m (47 ∷ rest) = At-next r m 32 (47 ∷ rest) refl refl refl a in
      Finishes-proceed r m h 32 (47 ∷ rest) a refl
        (ap (λ s. parse_char s r 32 32) here ∙ method_space r pos over) refl
        (Finishes-proceed m n h 47 rest b refl
          (ap (λ s. parse_char s m 47 47) here
            ∙ method_slash m (omega (arith, pos, over)) (omega (arith, over)))
          refl (k n refl (record { unread = b.unread; size = b.size }) refl refl))
  letters_Finishes (c ∷ cs) r h here match_ pos small left size legal a k =
      let m = record r { parse_offset = r.parse_offset + 1 } in
      let name = method_name r.method in
      let next : r.parse_offset + 1 ≡ suc r.parse_offset = omega arith in
      let at : get_or name (minus32 r.parse_offset r.parse_match) 0 ≡ token c =
        ap (λ i. get_or name i 0) (omega (arith, match_, small, a.size))
        ∙ drop-here r.parse_offset name (token c) (map token cs) left in
      Finishes-proceed r m h c (cs ++ behind_method rest) a legal.0
        (ap (λ s. parse_char s r c (token c)) here
          ∙ method_letter r (token c) pos (omega (arith, size)) at)
        refl
        (letters_Finishes cs m h here match_ (omega (arith, pos)) small
          (ap (λ i. drop i name) next
            ∙ drop-behind r.parse_offset name (token c) (map token cs) left)
          (omega (arith, size)) legal.1 (At-next r m c (cs ++ behind_method rest) refl refl refl a)
          k)
