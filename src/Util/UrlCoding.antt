-- ===== src/Util/UrlCoding.antt =====
-- `URLDecode` and `URLEncode`.
use mevent.Common.{
  ℕ, Bool, true, false, Bytes, IsBytes, [], ◌∷◌, ◌++◌, ◌/◌, ◌%◌, ◌<◌, ◌≡◌, ◌≢◌, refl, ap, ◌∙◌, ◌==◌,
  ◌&&◌, ◌||◌, not, ltb, if◌then◌else◌, get_or, Option, some, none, arith, inl, inr, Bool-cases,
  ==_iff, bit_and,
}
use mevent.Common.Bits.{every_below, every_below_sound}
use mevent.Util.{hexchars, is_xdigit, htoi, url_decode, is_escaped, encode_char, url_encode}

-- Percent-encoding as RFC 3986 has it: '%' and two hexadecimal digits for a byte.
abbrev percent : ℕ → Bytes → Bytes
percent b rest = 37 ∷ get_or hexchars (b / 16) 0 ∷ get_or hexchars (b % 16) 0 ∷ rest

-- Every byte percent-encoded but those that `plain` lets stand.
abbrev pub percent_encode : (ℕ → Bool) → Bytes → Bytes
percent_encode plain [] = []
percent_encode plain (b ∷ bs) =
    let rest = percent_encode plain bs in
    if plain b && not (b == 37) && not (b == 43) then b ∷ rest else percent b rest

abbrev is_percent : ℕ → Bool
is_percent b =
    let high = get_or hexchars (b / 16) 0 in
    let low = get_or hexchars (b % 16) 0 in
    is_xdigit high && (is_xdigit low && (htoi high low == b))

percent_table : every_below 256 is_percent ≡ true
unfolding every_below is_xdigit htoi
percent_table = refl

and_true : (a b : Bool) → a && b ≡ true → (a ≡ true) × (b ≡ true)
and_true a b h = ground arith

decode_digits :
    (high low b : ℕ) (rest : Bytes)
    → is_xdigit high && (is_xdigit low && (htoi high low == b)) ≡ true
    → url_decode (37 ∷ high ∷ low ∷ rest) ≡ b ∷ url_decode rest
unfolding url_decode
decode_digits high low b rest h =
    let (x, more) = and_true (is_xdigit high) (is_xdigit low && (htoi high low == b)) h in
    let (y, v) = and_true (is_xdigit low) (htoi high low == b) more in
    rw (url_decode, x, y, (==_iff (htoi high low) b).0 v) refl

decode_plain :
    (c : ℕ) (rest : Bytes) → c ≢ 37 → c ≢ 43 → url_decode (c ∷ rest) ≡ c ∷ url_decode rest
unfolding url_decode
decode_plain c [] h i = ground arith
decode_plain c (a ∷ []) h i = ground arith
decode_plain c (a ∷ b ∷ rest) h i = ground arith

decode_byte :
    (plain : ℕ → Bool) (b : ℕ) (bs : Bytes)
    → b < 256
    → url_decode (percent_encode plain (b ∷ bs)) ≡ b ∷ url_decode (percent_encode plain bs)
decode_byte plain b bs h = elim (Bool-cases (plain b && not (b == 37) && not (b == 43))) [
  | inl stands ↦
      rw stands
        (decode_plain b (percent_encode plain bs) (ground (arith, stands)) (ground (arith, stands)))
  | inr coded ↦ rw coded (
      decode_digits (get_or hexchars (b / 16) 0) (get_or hexchars (b % 16) 0) b
        (percent_encode plain bs) (every_below_sound 256 is_percent b percent_table h))
]

-- Decoding undoes percent-encoding, whichever bytes other than '%' and '+' the encoder lets stand.
pub url_decode-percent_encode :
    (plain : ℕ → Bool) (bs : Bytes) → IsBytes bs → url_decode (percent_encode plain bs) ≡ bs
unfolding url_decode
url_decode-percent_encode plain [] h = refl
url_decode-percent_encode plain (b ∷ bs) h =
    decode_byte plain b bs h.0 ∙ ap (◌∷◌ b) (url_decode-percent_encode plain bs h.1)

abbrev is_fault : ℕ → Bool
is_fault c =
    not (is_escaped c && not (c == 32) && ltb 1 (bit_and c 0x7f))
    || elim (encode_char c) [ none ↦ true | some text ↦ false ]

fault_table : every_below 256 is_fault ≡ true
unfolding every_below
fault_table = refl

is-none : (o : Option Bytes) → elim o [ none ↦ true | some text ↦ false ] ≡ true → o ≡ none
is-none none h = refl
is-none (some text) h = ground arith

or_false : (a b : Bool) → not a || b ≡ true → a ≡ true → b ≡ true
or_false a b h i = ground arith

escape_fault :
    (c : ℕ)
    → c < 256
    → is_escaped c && not (c == 32) && ltb 1 (bit_and c 0x7f) ≡ true
    → encode_char c ≡ none
escape_fault c h e = is-none (encode_char c) (
    or_false (is_escaped c && not (c == 32) && ltb 1 (bit_and c 0x7f)) _
      (every_below_sound 256 is_fault c fault_table h) e)

joined_none :
    (o t : Option Bytes)
    → t ≡ none
    → Path
        (Option Bytes)
        (elim o [
          | none ↦ none
          | some text ↦ elim t [ none ↦ none | some tail ↦ some (text ++ tail) ]
        ])
        none
joined_none none t e = refl
joined_none (some text) t e = rw e refl

-- `URLEncode` reads outside `hexchars` on every text that holds a character which needs an escape and
-- whose lower seven bits are more than one: the index of the first digit is `toascii(c) << 4`
-- where the array has 17 bytes.
pub url_encode_fault :
    (before after : Bytes) (c : ℕ)
    → c < 256
    → is_escaped c && not (c == 32) && ltb 1 (bit_and c 0x7f) ≡ true
    → url_encode (before ++ c ∷ after) ≡ none
unfolding url_encode
url_encode_fault [] after c h e = rw (url_encode, escape_fault c h e) refl
url_encode_fault (b ∷ before) after c h e =
    joined_none (encode_char b) (url_encode (before ++ c ∷ after))
      (url_encode_fault before after c h e)
