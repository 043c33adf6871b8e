-- ===== src/Base64.antt =====
-- base64.cpp: `Base64Encode` and `Base64Decode`. A byte string is the list of its unsigned chars;
-- a string is shorter than 2^31, the range of the decoder's index.
pub mod RoundTrip
use mevent.Common.{
  ℕ, ◌+◌, ◌-◌, ◌*◌, ◌/◌, ◌%◌, Bool, true, false, not, ◌&&◌, ◌||◌, List, [], ◌∷◌, ◌++◌, map, foldl,
  Bytes, codes, length, get_or, take, replicate, ltb, leb, ◌==◌, if◌then◌else◌, bit_and,
}

abbrev pub base64_chars : Bytes
base64_chars = codes "ABCDEFGHIJKLMNOPQRSTUVWXYZabcdefghijklmnopqrstuvwxyz0123456789+/"

-- `isalnum` in the C locale.
abbrev pub is_alnum : ℕ → Bool
is_alnum c = (leb b'0' c && leb c b'9') || (leb b'A' c && leb c b'Z') || (leb b'a' c && leb c b'z')

unfoldable pub is_base64 : ℕ → Bool
is_base64 c = is_alnum c || c == b'+' || c == b'/'

-- `base64_chars[i]`.
abbrev pub char_of : ℕ → ℕ
char_of i = get_or base64_chars i 0

-- `std::string::npos`.
abbrev pub npos : ℕ
npos = 0xffff_ffff_ffff_ffff

-- `std::string::find` of a character, from position `i` on.
unfoldable pub find_from : Bytes → ℕ → ℕ → ℕ
find_from [] c i = npos
find_from (x ∷ xs) c i = if x == c then i else find_from xs c (i + 1)

-- `char_array_4[i] = base64_chars.find(char_array_4[i])`, stored in an unsigned char.
unfoldable pub index_of : ℕ → ℕ
unfolding find_from
index_of c = find_from base64_chars c 0 % 256

-- The four sextets of `char_array_3`.
abbrev pub char_array_4 : ℕ → ℕ → ℕ → Bytes
char_array_4 a b c =
    bit_and a 0xfc / 4
    ∷ (bit_and a 0x03 * 16 + bit_and b 0xf0 / 16)
    ∷ (bit_and b 0x0f * 4 + bit_and c 0xc0 / 64)
    ∷ bit_and c 0x3f
    ∷ []

-- The three bytes of `char_array_4`, each stored in an unsigned char.
abbrev pub char_array_3 : ℕ → ℕ → ℕ → ℕ → Bytes
char_array_3 a b c d =
    ((a * 4 + bit_and b 0x30 / 16) % 256)
    ∷ ((bit_and b 0xf * 16 + bit_and c 0x3c / 4) % 256)
    ∷ ((bit_and c 0x3 * 64 + d) % 256)
    ∷ []

-- The locals of either loop: `pending` is the filled prefix of the input array, so its length is
-- `i`, and `ret` is the output so far.
pub record Coder : Type 0 where
  pub pending : Bytes
  pub ret : Bytes

-- One round of the encoder's loop, on `pending`. At the third byte the group is written out.
encode_onto : Bytes → Bytes → ℕ → Coder
encode_onto (a ∷ b ∷ []) ret x = record {
  pending = [];
  ret = ret ++ map char_of (char_array_4 a b x);
}
encode_onto p ret x = record { pending = p ++ x ∷ []; ret = ret }

encode_byte : Coder → ℕ → Coder
unfolding encode_onto
encode_byte s x = encode_onto s.pending s.ret x

-- The code behind the loop: a partial group is filled with zeros and padded with `=`.
encode_rest : Bytes → Bytes → Bytes
encode_rest [] ret = ret
encode_rest p ret =
    let i = length p in
    let group = char_array_4 (get_or p 0 0) (get_or p 1 0) (get_or p 2 0) in
    ret ++ (take (i + 1) (map char_of group) ++ replicate (3 - i) b'=')

abbrev start : Coder
start = record { pending = []; ret = [] }

unfoldable pub base64_encode : Bytes → Bytes
unfolding encode_byte encode_rest
base64_encode bytes = let s = foldl encode_byte start bytes in encode_rest s.pending s.ret

-- One round of the decoder's loop, on `pending`. At the fourth character the group is decoded.
decode_onto : Bytes → Bytes → ℕ → Coder
unfolding index_of
decode_onto (a ∷ b ∷ c ∷ []) ret x = record {
  pending = [];
  ret = ret ++ char_array_3 (index_of a) (index_of b) (index_of c) (index_of x);
}
decode_onto p ret x = record { pending = p ++ x ∷ []; ret = ret }

-- The loop stops at `=` and at the first character that is not of the alphabet.
decode_loop : Coder → Bytes → Coder
unfolding decode_onto is_base64
decode_loop s [] = s
decode_loop s (x ∷ xs) =
    let rest = decode_loop (decode_onto s.pending s.ret x) xs in
    if not (x == b'=') && is_base64 x then rest else s

-- The code behind the loop. The missing characters are zeros, which `find` does not find.
decode_rest : Bytes → Bytes → Bytes
unfolding index_of
decode_rest [] ret = ret
decode_rest p ret =
    let at = λ (j : ℕ). index_of (get_or p j 0) in
    ret ++ take (length p - 1) (char_array_3 (at 0) (at 1) (at 2) (at 3))

unfoldable pub base64_decode : Bytes → Bytes
unfolding decode_loop decode_rest
base64_decode encoded = let s = decode_loop start encoded in decode_rest s.pending s.ret
