-- ===== src/Tests/Util.antt =====
-- util.cpp on concrete inputs.
use mevent.Common.{◌≡◌, refl, arith, true, [], ◌∷◌, ◌++◌, some, none, codes}
use mevent.Util.{rc4, url_encode, get_addr_from_cidr}
use mevent.Util.UrlCoding.{url_encode_fault}
use mevent.Util.Cidr.{is_mask, get_addr_from_cidr_lem}

-- The first bytes of the published test vector for "Key" and "Plaintext".
rc4_test : rc4 (codes "Key") (codes "Pla") [] ≡ some (0xbb ∷ 0xf3 ∷ 0x16 ∷ [])
unfolding rc4
rc4_test = refl

encode_plain_test : url_encode (codes "a b.c") ≡ some (codes "a+b.c")
unfolding url_encode
encode_plain_test = refl

url_encode_fault_example : url_encode (codes "a" ++ 47 ∷ codes "b") ≡ none
url_encode_fault_example = url_encode_fault (codes "a") (codes "b") 47 (omega arith) refl

get_addr_from_cidr_example : is_mask 20 (get_addr_from_cidr 20) ≡ true
get_addr_from_cidr_example = get_addr_from_cidr_lem 20 (omega arith)
