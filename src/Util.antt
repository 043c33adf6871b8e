-- ===== src/Util.antt =====
-- util.cpp: the URL coding, RC4 and the address masks. A read outside an array gives `none`, and an
-- `in_addr` is its four bytes as they lie in memory.
pub mod UrlCoding
pub mod Rc4
pub mod Cidr
use mevent.Common.{
  ℕ, zero, suc, Bool, true, false, Bytes, List, [], ◌∷◌, ◌++◌, ◌+◌, ◌-◌, ◌*◌, ◌/◌, ◌%◌, ◌^◌, ltb,
  leb, ◌==◌, ◌&&◌, ◌||◌, not, if◌then◌else◌, get_or, get_elem?, set, length, replicate, take, codes,
  Option, some, none, bit_and, bit_xor,
}

abbrev pub hexchars : Bytes
hexchars = codes "0123456789ABCDEF" ++ (0 ∷ [])

unfoldable pub is_xdigit : ℕ → Bool
is_xdigit c = (leb 48 c && leb c 57) || (leb 65 c && leb c 70) || (leb 97 c && leb c 102)

-- One digit of `Htoi`, in lower case where it is a capital.
abbrev pub hex_value : ℕ → ℕ
hex_value c =
    let lower = if leb 65 c && leb c 90 then c + 32 else c in
    if leb 48 lower && leb lower 57 then lower - 48 else lower - 97 + 10

unfoldable pub htoi : ℕ → ℕ → ℕ
htoi a b = hex_value a * 16 + hex_value b

unfoldable pub url_decode : Bytes → Bytes
url_decode [] = []
url_decode (c ∷ []) = (if c == 43 then 32 else c) ∷ []
url_decode (c ∷ a ∷ []) = (if c == 43 then 32 else c) ∷ (if a == 43 then 32 else a) ∷ []
url_decode (c ∷ a ∷ b ∷ rest) = elim (not (c == 43) && (c == 37) && is_xdigit a && is_xdigit b) [
  | true ↦ htoi a b ∷ url_decode rest
  | false ↦ (if c == 43 then 32 else c) ∷ url_decode (a ∷ b ∷ rest)
]

-- The test of `URLEncode` for a character that it writes as '%' and two digits.
abbrev pub is_escaped : ℕ → Bool
is_escaped c =
    (ltb c 48 && not (c == 45) && not (c == 46))
    || (ltb c 65 && ltb 57 c)
    || (ltb 90 c && ltb c 97 && not (c == 95))
    || ltb 122 c

-- What one character puts behind `dest`; `toascii(c)` is `c & 0x7f`.
abbrev pub encode_char : ℕ → Option Bytes
encode_char c =
    if c == 32
    then some (43 ∷ [])
    else if is_escaped c
    then elim (get_elem? hexchars (bit_and c 0x7f * 2 ^ 4)) [
      | none ↦ none
      | some high ↦ some (37 ∷ high ∷ get_or hexchars (bit_and (bit_and c 0x7f) 0xf) 0 ∷ [])
    ]
    else some (c ∷ [])

unfoldable pub url_encode : Bytes → Option Bytes
url_encode [] = some []
url_encode (c ∷ rest) = elim (encode_char c) [
  | none ↦ none
  | some text ↦ elim (url_encode rest) [ none ↦ none | some tail ↦ some (text ++ tail) ]
]

unfoldable pub ascending : ℕ → ℕ → Bytes
ascending zero i = []
ascending (suc n) i = i ∷ ascending n (i + 1)

abbrev pub swap : Bytes → ℕ → ℕ → Bytes
swap s i j = set (set s i (get_or s j 0)) j (get_or s i 0)

-- The loop that mixes the key into `s`. `char` is signed: a key byte of 128 or more stands for a
-- negative number, and a negative `y` is no index. An empty key divides by zero.
unfoldable pub mix_key : ℕ → ℕ → Bytes → ℕ → ℕ → Bytes → Option Bytes
mix_key zero i key x y s = some s
mix_key (suc left) i key x y s =
    let sum = get_or key x 0 + get_or s i 0 + y in
    let next = sum % 256 in
    elim ((leb 128 (get_or key x 0) && ltb sum 256) || (length key == 0)) [
      | true ↦ none
      | false ↦ mix_key left (i + 1) key ((x + 1) % length key) next (swap s i next)
    ]

unfoldable pub mix_text : Bytes → ℕ → ℕ → Bytes → Bytes
mix_text [] x y s = []
mix_text (b ∷ buf) x y s =
    let x' = (x + 1) % 256 in
    let y' = (get_or s x' 0 + y) % 256 in
    let s' = swap s x' y' in
    bit_xor b (get_or s' ((get_or s' x' 0 + get_or s' y' 0) % 256) 0) ∷ mix_text buf x' y' s'

unfoldable pub rc4 : Bytes → Bytes → Bytes → Option Bytes
unfolding ascending mix_key mix_text
rc4 key src dest = elim (mix_key 256 0 key 0 0 (ascending 256 0)) [
  | none ↦ none
  | some s ↦ some (dest ++ mix_text src 0 0 s)
]

-- `none` is the result -1; a negative `cidr` has it as well.
abbrev pub get_addr_from_cidr : ℕ → Option Bytes
get_addr_from_cidr cidr =
    let ocets = (cidr + 7) / 8 in
    if ltb 32 cidr
    then none
    else if ltb 0 ocets
    then some (
        replicate (ocets - 1) 255
        ++ ((256 - 2 ^ ((32 - cidr) % 8)) ∷ [])
        ++ replicate (4 - ocets) 0)
    else some (replicate 4 0)

-- `&` on the four bytes.
abbrev pub masked : Bytes → Bytes → Bytes
masked [] mask = []
masked (a ∷ bytes) [] = []
masked (a ∷ bytes) (m ∷ mask) = bit_and a m ∷ masked bytes mask

abbrev pub same_addr : Bytes → Bytes → Bool
same_addr [] [] = true
same_addr [] (b ∷ bs) = false
same_addr (a ∷ bytes) [] = false
same_addr (a ∷ bytes) (b ∷ bs) = (a == b) && same_addr bytes bs

abbrev pub is_in_subnet : Bytes → Bytes → Bytes → Bool
is_in_subnet addr netaddr netmask = same_addr (masked addr netmask) (masked netaddr netmask)
