-- ===== src/Request/Parse/Digits.antt =====
-- `Parse` of request.cpp on the digits of a length.
use mevent.Common.{
  ℕ, zero, suc, Bytes, [], ◌∷◌, ◌++◌, ◌+◌, ◌-◌, ◌*◌, ◌%◌, ◌^◌, ◌<◌, ◌≤◌, ◌≡◌, refl, ap, ◌∙◌, subst,
  true, leb, ◌==◌, arith, All,
}
use mevent.Request.{Request, s_content_length_v, s_header_field}
use mevent.Request.Chars.{token}
use mevent.Request.Parse.{parse_char, parse_content_length_v, advance}
use mevent.Request.Parse.Big.{At, At-next}
use mevent.Request.Parse.Lines.{Header, header_of, Finishes, Finishes-proceed, newline_Finishes}
use mevent.Request.Parse.Methods.{different}

-- The number that digits stand for, behind others.
abbrev pub number : ℕ → Bytes → ℕ
number n [] = n
number n (d ∷ ds) = number (n * 10 + (d - 48)) ds

abbrev pub IsDigits : Bytes → Type 0
IsDigits = All (λ d. (48 ≤ d) × (d ≤ 57))

digit_token : (k : ℕ) → k ≤ 9 → token (48 + k) ≡ 48 + k
unfolding token
digit_token zero h = refl
digit_token (suc zero) h = refl
digit_token (suc (suc zero)) h = refl
digit_token (suc (suc (suc zero))) h = refl
digit_token (suc (suc (suc (suc zero)))) h = refl
digit_token (suc (suc (suc (suc (suc zero))))) h = refl
digit_token (suc (suc (suc (suc (suc (suc zero)))))) h = refl
digit_token (suc (suc (suc (suc (suc (suc (suc zero))))))) h = refl
digit_token (suc (suc (suc (suc (suc (suc (suc (suc zero)))))))) h = refl
digit_token (suc (suc (suc (suc (suc (suc (suc (suc (suc zero))))))))) h = refl
digit_token (suc (suc (suc (suc (suc (suc (suc (suc (suc (suc k)))))))))) h =
    absurd (omega (arith, h))

pub token-digit : (d : ℕ) → 48 ≤ d → d ≤ 57 → token d ≡ d
token-digit d low high =
    let e : 48 + (d - 48) ≡ d = omega (arith, low) in
    subst (λ x. token x ≡ x) e (digit_token (d - 48) (omega (arith, low, high)))

number_le : (ds : Bytes) (n : ℕ) → n ≤ number n ds
number_le [] n = omega arith
number_le (d ∷ ds) n = omega (arith, number_le ds (n * 10 + (d - 48)))

at_least : (a b : ℕ) → a ≤ b → leb a b ≡ true
at_least a b h = ground (arith, h)

value_digit :
    (r : Request) (d : ℕ)
    → 48 ≤ d
    → d ≤ 57
    → r.content_length * 10 + (d - 48) < 2 ^ 32
    → parse_content_length_v r d
      ≡ advance (record r { content_length = r.content_length * 10 + (d - 48) })
unfolding parse_content_length_v
value_digit r d low high small =
    let n = r.content_length in
    let sum : (n * 10 % 2 ^ 32 + (d - 48)) % 2 ^ 32 ≡ n * 10 + (d - 48) = omega (arith, small) in
    rw
      (
        parse_content_length_v,
        different d 32 (omega (arith, low)),
        different d 13 (omega (arith, low)),
        at_least 48 d low,
        at_least d 57 high,
        sum,
      )
      refl

module _ (rest : Bytes) where
  pub digits_Finishes :
      (ds : Bytes) (r : Request) (h : Header)
      → IsDigits ds
      → number r.content_length ds < 2 ^ 32
      → r.parse_status ≡ s_content_length_v
      → At r (ds ++ (13 ∷ 10 ∷ rest))
      → r.rbuf_len < 2 ^ 32
      → ((m : Request)
          → m.parse_status ≡ s_header_field
          → At m rest
          → m.rbuf_len ≡ r.rbuf_len
          → header_of m ≡ record (header_of r) { content_length = number r.content_length ds }
          → Finishes m h)
      → Finishes r h
  unfolding parse_content_length_v
  digits_Finishes [] r h digits fits here a small k =
      newline_Finishes rest r h a (ap (λ s. parse_char s r 13 13) here ∙ refl) small k
  digits_Finishes (d ∷ ds) r h digits fits here a small k =
      let (low, high) = digits.0 in
      let m = record r {
        content_length = r.content_length * 10 + (d - 48);
        parse_offset = r.parse_offset + 1;
      } in
      let same = token-digit d low high in
      Finishes-proceed r m h d (ds ++ (13 ∷ 10 ∷ rest)) a
        (ap (λ t. t == 0) same ∙ different d 0 (omega (arith, low)))
        (ap (λ t. parse_char r.parse_status r d t) same
          ∙ ap (λ s. parse_char s r d d) here
          ∙ value_digit r d low high
              (omega (arith, fits, number_le ds (r.content_length * 10 + (d - 48)))))
        refl
        (digits_Finishes ds m h digits.1 fits here
          (At-next r m d (ds ++ (13 ∷ 10 ∷ rest)) refl refl refl a) small k)
