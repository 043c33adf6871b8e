-- ===== src/Base64/RoundTrip.antt =====
-- The decoder undoes the encoder, group by group.
use mevent.Common.{
  ℕ, ◌+◌, ◌*◌, ◌/◌, ◌%◌, ◌<◌, ◌≡◌, refl, sym, bit_and, ap, ap₂, ◌∙◌, true, not, ◌&&◌, [], ◌∷◌, ◌++◌,
  map, foldl, take, append-nil, append_assoc, arith, Bytes, codes, IsBytes, ◌==◌, ==_iff,
}
use mevent.Common.Bits.{every_below, every_below_sound, masks}
use mevent.Base64.{
  is_base64, char_of, index_of, char_array_4, char_array_3, Coder, encode_byte, encode_rest, start,
  base64_encode, decode_onto, decode_loop, decode_rest, base64_decode,
}

-- Every sextet is written as a character that the decoder reads back.
index_of-char_of : (i : ℕ) → i < 64 → index_of (char_of i) ≡ i
unfolding index_of every_below
index_of-char_of i h =
    (==_iff (index_of (char_of i)) i).0
      (every_below_sound 64 (λ j. index_of (char_of j) == j) i refl h)

char_of_accepted : (i : ℕ) → i < 64 → (not (char_of i == b'=') && is_base64 (char_of i)) ≡ true
unfolding is_base64 every_below
char_of_accepted i h =
    every_below_sound 64 (λ j. not (char_of j == b'=') && is_base64 (char_of j)) i refl h

decode_loop_char :
    (p ret rest : Bytes) (i : ℕ)
    → i < 64
    → decode_loop (record { pending = p; ret = ret }) (char_of i ∷ rest)
      ≡ decode_loop (decode_onto p ret (char_of i)) rest
unfolding decode_loop
decode_loop_char p ret rest i h = rw (char_of_accepted i h)

-- Four characters of sextets make a group.
decode_loop_quad :
    (ret rest : Bytes) (i j k l : ℕ)
    → i < 64
    → j < 64
    → k < 64
    → l < 64
    → decode_loop
        (record { pending = []; ret = ret })
        (char_of i ∷ char_of j ∷ char_of k ∷ char_of l ∷ rest)
      ≡ decode_loop (record { pending = []; ret = ret ++ char_array_3 i j k l }) rest
decode_loop_quad ret rest i j k l p q r s =
    decode_loop_char [] ret _ i p
    ∙ unfold decode_onto in
      decode_loop_char (char_of i ∷ []) ret _ j q
      ∙ unfold decode_onto in
        decode_loop_char (char_of i ∷ char_of j ∷ []) ret _ k r
        ∙ unfold decode_onto in
          decode_loop_char (char_of i ∷ char_of j ∷ char_of k ∷ []) ret rest l s
          ∙ rw (
            index_of-char_of i p,
            index_of-char_of j q,
            index_of-char_of k r,
            index_of-char_of l s,
          )

-- The four sextets of three bytes, with no bit operation.
abbrev sextets : ℕ → ℕ → ℕ → Bytes
sextets a b c = (a / 4) ∷ (a % 4 * 16 + b / 16) ∷ (b % 16 * 4 + c / 64) ∷ (c % 64) ∷ []

char_array_4-sextets :
    (a b c : ℕ) → a < 256 → b < 256 → c < 256 → char_array_4 a b c ≡ sextets a b c
char_array_4-sextets a b c p q r =
    let a' = masks a p in
    let b' = masks b q in let c' = masks c r in rw (a'.0, a'.1, b'.2, b'.3, c'.4, c'.5)

char_array_3_lem :
    (i j k l : ℕ)
    → i < 64
    → j < 64
    → k < 64
    → l < 64
    → char_array_3 i j k l ≡ (i * 4 + j / 16) ∷ (j % 16 * 16 + k / 4) ∷ (k % 4 * 64 + l) ∷ []
char_array_3_lem i j k l p q r s =
    let j' = masks j (omega arith) in
    let k' = masks k (omega arith) in ground (arith, j'.6, j'.3, k'.7, k'.1)

sextets_back :
    (a b c : ℕ)
    → a < 256
    → b < 256
    → c < 256
    → char_array_3 (a / 4) (a % 4 * 16 + b / 16) (b % 16 * 4 + c / 64) (c % 64) ≡ a ∷ b ∷ c ∷ []
sextets_back a b c p q r =
    let parts =
      char_array_3_lem (a / 4) (a % 4 * 16 + b / 16) (b % 16 * 4 + c / 64) (c % 64) (omega arith)
        (omega arith) (omega arith) (omega arith) in
    ground (arith, parts)

-- Three bytes are written as four characters, which are read back as the bytes.
group_round_trip :
    (a b c : ℕ) (ret rest : Bytes)
    → a < 256
    → b < 256
    → c < 256
    → decode_loop (record { pending = []; ret = ret }) (map char_of (char_array_4 a b c) ++ rest)
      ≡ decode_loop (record { pending = []; ret = ret ++ a ∷ b ∷ c ∷ [] }) rest
group_round_trip a b c ret rest p q r =
    ap (λ (g : Bytes). decode_loop (record { pending = []; ret = ret }) (map char_of g ++ rest))
      (char_array_4-sextets a b c p q r)
    ∙ decode_loop_quad ret rest (a / 4) (a % 4 * 16 + b / 16) (b % 16 * 4 + c / 64) (c % 64)
        (omega arith) (omega arith) (omega arith) (omega arith)
    ∙ ap (λ (g : Bytes). decode_loop (record { pending = []; ret = ret ++ g }) rest)
        (sextets_back a b c p q r)

-- The encoder as a recursion on groups of three bytes.
encoded : Bytes → Bytes
encoded (a ∷ b ∷ c ∷ rest) = map char_of (char_array_4 a b c) ++ encoded rest
encoded (a ∷ b ∷ []) = take 3 (map char_of (char_array_4 a b 0)) ++ b'=' ∷ []
encoded (a ∷ []) = take 2 (map char_of (char_array_4 a 0 0)) ++ b'=' ∷ b'=' ∷ []
encoded [] = []

foldl-encoded :
    (bytes ret : Bytes)
    → (let s = foldl encode_byte (record { pending = []; ret = ret }) bytes in
        encode_rest s.pending s.ret)
      ≡ ret ++ encoded bytes
unfolding encode_byte encode_rest encoded
foldl-encoded [] ret = sym (append-nil ret)
foldl-encoded (a ∷ []) ret = refl
foldl-encoded (a ∷ b ∷ []) ret = refl
foldl-encoded (a ∷ b ∷ c ∷ rest) ret = foldl-encoded rest _ ∙ append_assoc ret _ (encoded rest)

decode_loop_pad :
    (p ret rest : Bytes)
    → decode_loop (record { pending = p; ret = ret }) (b'=' ∷ rest)
      ≡ record { pending = p; ret = ret }
unfolding decode_loop
decode_loop_pad p ret rest = refl

abbrev finish : Coder → Bytes
finish s = decode_rest s.pending s.ret

decode_loop_two :
    (ret rest : Bytes) (i j : ℕ)
    → i < 64
    → j < 64
    → decode_loop (record { pending = []; ret = ret }) (char_of i ∷ char_of j ∷ rest)
      ≡ decode_loop (record { pending = char_of i ∷ char_of j ∷ []; ret = ret }) rest
unfolding decode_onto
decode_loop_two ret rest i j p q =
    decode_loop_char [] ret _ i p ∙ decode_loop_char (char_of i ∷ []) ret rest j q

decode_loop_three :
    (ret rest : Bytes) (i j k : ℕ)
    → i < 64
    → j < 64
    → k < 64
    → decode_loop (record { pending = []; ret = ret }) (char_of i ∷ char_of j ∷ char_of k ∷ rest)
      ≡ decode_loop (record { pending = char_of i ∷ char_of j ∷ char_of k ∷ []; ret = ret }) rest
unfolding decode_onto
decode_loop_three ret rest i j k p q r =
    decode_loop_two ret _ i j p q ∙ decode_loop_char (char_of i ∷ char_of j ∷ []) ret rest k r

-- A last group of one byte, and of two.
finish_pair :
    (i j : ℕ) (ret : Bytes)
    → i < 64
    → j < 64
    → finish (decode_loop (record { pending = []; ret = ret }) (char_of i ∷ char_of j ∷ codes "=="))
      ≡ ret ++ (i * 4 + j / 16) ∷ []
unfolding decode_rest
finish_pair i j ret p q =
    ap finish (decode_loop_two ret _ i j p q ∙ decode_loop_pad (char_of i ∷ char_of j ∷ []) ret _)
    ∙ rw (index_of-char_of i p, index_of-char_of j q)
        (let j' = masks j (omega arith) in ap (λ (x : ℕ). ret ++ x ∷ []) (omega (arith, j'.6)))

finish_triple :
    (i j k : ℕ) (ret : Bytes)
    → i < 64
    → j < 64
    → k < 64
    → finish (
        decode_loop
          (record { pending = []; ret = ret })
          (char_of i ∷ char_of j ∷ char_of k ∷ codes "="))
      ≡ ret ++ (i * 4 + j / 16) ∷ (j % 16 * 16 + k / 4) ∷ []
unfolding decode_rest
finish_triple i j k ret p q r =
    ap finish (
      decode_loop_three ret _ i j k p q r
      ∙ decode_loop_pad (char_of i ∷ char_of j ∷ char_of k ∷ []) ret _)
    ∙ rw (index_of-char_of i p, index_of-char_of j q, index_of-char_of k r)
        (let j' = masks j (omega arith) in
          let k' = masks k (omega arith) in
          ap₂ (λ (x y : ℕ). ret ++ x ∷ y ∷ []) (omega (arith, j'.6)) (omega (arith, j'.3, k'.7)))

decode-encoded :
    (bytes ret : Bytes)
    → IsBytes bytes
    → finish (decode_loop (record { pending = []; ret = ret }) (encoded bytes)) ≡ ret ++ bytes
unfolding encoded
decode-encoded [] ret h = unfold decode_loop decode_rest in sym (append-nil ret)
decode-encoded (a ∷ []) ret h =
    let a' = masks a h.0 in
    finish_pair (bit_and a 0xfc / 4) (bit_and a 0x03 * 16 + 0) ret (omega (arith, a'.0))
      (omega (arith, a'.1))
    ∙ ap (λ (x : ℕ). ret ++ x ∷ []) (omega (arith, a'.0, a'.1))
decode-encoded (a ∷ b ∷ []) ret h =
    let a' = masks a h.0 in
    let b' = masks b h.1.0 in
    finish_triple (bit_and a 0xfc / 4) (bit_and a 0x03 * 16 + bit_and b 0xf0 / 16)
      (bit_and b 0x0f * 4 + 0) ret (omega (arith, a'.0)) (omega (arith, a'.1, b'.2))
      (omega (arith, b'.3))
    ∙ ap₂ (λ (x y : ℕ). ret ++ x ∷ y ∷ []) (omega (arith, a'.0, a'.1, b'.2))
        (omega (arith, a'.1, b'.2, b'.3))
decode-encoded (a ∷ b ∷ c ∷ rest) ret h =
    ap finish (group_round_trip a b c ret (encoded rest) h.0 h.1.0 h.1.1.0)
    ∙ decode-encoded rest (ret ++ a ∷ b ∷ c ∷ []) h.1.1.1
    ∙ append_assoc ret _ rest

pub base64_decode-base64_encode :
    (bytes : Bytes) → IsBytes bytes → base64_decode (base64_encode bytes) ≡ bytes
unfolding base64_decode base64_encode
base64_decode-base64_encode bytes h =
    ap (λ (e : Bytes). finish (decode_loop start e)) (foldl-encoded bytes [])
    ∙ decode-encoded bytes [] h
