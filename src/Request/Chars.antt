-- ===== src/Request/Chars.antt =====
-- The character tables of request.cpp. The table `tokens` gives a character in lower case, and
-- zero for one that no header may hold; entries that the source leaves out are zero.
use mevent.Common.{
  ℕ, Bool, Bytes, [], ◌∷◌, ◌++◌, ◌/◌, ◌%◌, ◌^◌, leb, ◌==◌, ◌&&◌, not, if◌then◌else◌, get_or,
  replicate, codes,
}

abbrev tokens : Bytes
tokens =
    replicate 10 0
    ++ (10 ∷ 0 ∷ 0 ∷ 13 ∷ [])
    ++ replicate 19 0
    ++ codes "!\"#$%&'()*+,-./0123456789:;<=>?@abcdefghijklmnopqrstuvwxyz["
    ++ (0 ∷ [])
    ++ codes "]^_`abcdefghijklmnopqrstuvwxyz{|}~"

unfoldable pub token : ℕ → ℕ
token c = if c == 32 then 32 else get_or tokens c 0

abbrev pub normal_url_char : Bytes
normal_url_char =
    0 ∷ 0 ∷ 0 ∷ 0 ∷ 246 ∷ 255 ∷ 255 ∷ 127 ∷ 255 ∷ 255 ∷ 255 ∷ 255 ∷ 255 ∷ 255 ∷ 255 ∷ 127 ∷ []

-- `BIT_AT(normal_url_char, c)`.
unfoldable pub is_url_char : ℕ → Bool
is_url_char c = not ((get_or normal_url_char (c / 8) 0 / 2 ^ (c % 8)) % 2 == 0)

abbrev pub is_num : ℕ → Bool
is_num c = leb 48 c && leb c 57
