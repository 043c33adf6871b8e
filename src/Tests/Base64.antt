-- ===== src/Tests/Base64.antt =====
-- base64.cpp on concrete inputs.
use mevent.Common.{◌≡◌, refl, codes}
use mevent.Base64.{base64_encode, base64_decode}

encode_test : base64_encode (codes "light work.") ≡ codes "bGlnaHQgd29yay4="
unfolding base64_encode
encode_test = refl

decode_test : base64_decode (codes "bGlnaHQgdw==junk") ≡ codes "light w"
unfolding base64_decode
decode_test = refl
