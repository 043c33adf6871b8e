-- ===== src/WebSocket/Wire/Header.antt =====
-- `Parse` reads the header of RFC 6455, and `MakeFrame` writes it.
use mevent.Common.{
  ℕ, suc, ◌+◌, ◌*◌, ◌/◌, ◌%◌, ◌^◌, ◌<◌, ◌≡◌, refl, ◌∙◌, Bool, true, false, [], ◌∷◌, ◌++◌, Bytes,
  length, ltb, if◌then◌else◌, ◌==◌, bit_and, bit_or, arith, some, Bool-cases, inl, inr, take, drop,
  append_assoc, drop_append, length-append, ◌-◌,
}
use mevent.Common.Bits.{every_below, agree_below}
use mevent.Common.Bits.Words.{or_clear, zero_or, and_low}
use mevent.WebSocket.Frame.{byte_at, frame_header}
use mevent.WebSocket.Parse.{WebSocketHeader, len16, len64, len_of, header_size_of, parse_header}
use mevent.WebSocket.Wire.{
  Masking, plain, masked, is_masked, key, flag, short_len, extended_len, wire_header,
}

-- The top bit of a byte, and what stands below it.
flag_bits :
    (set : Bool) (l : ℕ)
    → l < 128
    → (bit_and (flag set + l) 0x80 ≡ flag set) × (bit_and (flag set + l) 0x7f ≡ l)
unfolding every_below
flag_bits true l h = (
  agree_below 128 (λ o. bit_and (128 + o) 0x80) (λ o. 128) l refl h,
  agree_below 128 (λ o. bit_and (128 + o) 0x7f) (λ o. o) l refl h,
)
flag_bits false l h = (
  agree_below 128 (λ o. bit_and (0 + o) 0x80) (λ o. 0) l refl h,
  agree_below 128 (λ o. bit_and (0 + o) 0x7f) (λ o. o) l refl h,
)

flag-eq : (set : Bool) → (flag set == 128) ≡ set
flag-eq true = refl
flag-eq false = refl

opcode_bits : (set : Bool) (op : ℕ) → op < 16 → bit_and (flag set + op) 0x0f ≡ op
unfolding every_below
opcode_bits true op h = agree_below 16 (λ o. bit_and (128 + o) 0x0f) (λ o. o) op refl h
opcode_bits false op h = agree_below 16 (λ o. bit_and (0 + o) 0x0f) (λ o. o) op refl h

len16_lem :
    (f s h l : ℕ) (rest : Bytes) → h < 256 → l < 256 → len16 (f ∷ s ∷ h ∷ l ∷ rest) ≡ h * 256 + l
unfolding len16
len16_lem f s h l rest p q =
    rw (zero_or, or_clear 8 (h * 256) (l * 1) (omega arith) (omega arith)) (omega arith)

len64_lem :
    (f s a b c d e g h l : ℕ) (rest : Bytes)
    → a < 256
    → b < 256
    → c < 256
    → d < 256
    → e < 256
    → g < 256
    → h < 256
    → l < 256
    → len64 (f ∷ s ∷ a ∷ b ∷ c ∷ d ∷ e ∷ g ∷ h ∷ l ∷ rest)
      ≡ a * 2 ^ 56 + b * 2 ^ 48 + c * 2 ^ 40 + d * 2 ^ 32 + e * 2 ^ 24 + g * 2 ^ 16 + h * 2 ^ 8 + l
unfolding len64
len64_lem f s a b c d e g h l rest a' b' c' d' e' g' h' l' =
    let s56 = a * 2 ^ 56 in
    let s48 = s56 + b * 2 ^ 48 in
    let s40 = s48 + c * 2 ^ 40 in
    let s32 = s40 + d * 2 ^ 32 in
    let s24 = s32 + e * 2 ^ 24 in
    let s16 = s24 + g * 2 ^ 16 in
    let s8 = s16 + h * 2 ^ 8 in
    rw
      (
        zero_or,
        or_clear 56 s56 (b * 2 ^ 48) (omega arith) (omega arith),
        or_clear 48 s48 (c * 2 ^ 40) (omega arith) (omega arith),
        or_clear 40 s40 (d * 2 ^ 32) (omega arith) (omega arith),
        or_clear 32 s32 (e * 2 ^ 24) (omega arith) (omega arith),
        or_clear 24 s24 (g * 2 ^ 16) (omega arith) (omega arith),
        or_clear 16 s16 (h * 2 ^ 8) (omega arith) (omega arith),
        or_clear 8 s8 (l * 2 ^ 0) (omega arith) (omega arith),
      )
      (omega arith)

big_endian-8 :
    (n : ℕ)
    → n < 2 ^ 64
    → n / 256 ^ 7 % 256 * 2 ^ 56
        + n / 256 ^ 6 % 256 * 2 ^ 48
        + n / 256 ^ 5 % 256 * 2 ^ 40
        + n / 256 ^ 4 % 256 * 2 ^ 32
        + n / 256 ^ 3 % 256 * 2 ^ 24
        + n / 256 ^ 2 % 256 * 2 ^ 16
        + n / 256 ^ 1 % 256 * 2 ^ 8
        + n / 256 ^ 0 % 256
      ≡ n
big_endian-8 n h = omega arith

len_of_lem :
    (f s n : ℕ) (rest : Bytes)
    → n < 2 ^ 64
    → len_of (short_len n) (f ∷ s ∷ (extended_len n ++ rest)) ≡ n
unfolding len_of
len_of_lem f s n rest h = elim (Bool-cases (ltb n 126)) [
  | inl short ↦ rw (short, short) refl
  | inr long ↦ elim (Bool-cases (ltb n 65536)) [
    | inl two ↦
        rw (long, two)
          (len16_lem f s (n / 256 ^ 1 % 256) (n / 256 ^ 0 % 256) rest (omega arith) (omega arith)
            ∙ ground arith)
    | inr eight ↦
        rw (long, eight)
          (len64_lem f s (n / 256 ^ 7 % 256) (n / 256 ^ 6 % 256) (n / 256 ^ 5 % 256)
              (n / 256 ^ 4 % 256) (n / 256 ^ 3 % 256) (n / 256 ^ 2 % 256) (n / 256 ^ 1 % 256)
              (n / 256 ^ 0 % 256) rest (omega arith) (omega arith) (omega arith) (omega arith)
              (omega arith) (omega arith) (omega arith) (omega arith)
            ∙ big_endian-8 n h)
  ]
]

-- What `Parse` should read off such a header.
abbrev pub wire_view : Bool → ℕ → Masking → ℕ → WebSocketHeader
wire_view fin op m n = record {
  header_size = 2 + length (extended_len n) + length (key m);
  fin = fin;
  mask = is_masked m;
  opcode = op;
  len0 = short_len n;
  len = n;
  masking_key = key m;
}

size_lem :
    (m : Masking) (n : ℕ)
    → header_size_of (short_len n) (is_masked m) ≡ 2 + length (extended_len n) + length (key m)
size_lem plain n = ground arith
size_lem (masked a b c d) n = ground arith

short_len-lt : (n : ℕ) → short_len n < 128
short_len-lt n = ground arith

key_lem :
    (f s : ℕ) (ext rest : Bytes) (m : Masking)
    → (if is_masked m
        then take 4 (drop (2 + length ext + length (key m) - 4) (f ∷ s ∷ ((ext ++ key m) ++ rest)))
        else [])
      ≡ key m
key_lem f s ext rest plain = refl
key_lem f s ext rest (masked a b c d) =
    let e : 2 + length ext + 4 - 4 ≡ suc (suc (length ext)) = omega arith in
    rw (e, append_assoc ext (a ∷ b ∷ c ∷ d ∷ []) rest, drop_append ext (a ∷ b ∷ c ∷ d ∷ rest))

-- `Parse` reads every field of a header, whatever follows it.
pub parse_header-wire_header :
    (fin : Bool) (op : ℕ) (m : Masking) (n : ℕ) (rest : Bytes)
    → op < 16
    → n < 2 ^ 64
    → parse_header (wire_header fin op m n ++ rest) ≡ some (wire_view fin op m n)
unfolding parse_header wire_header
parse_header-wire_header fin op m n rest p q =
    let f = flag fin + op in
    let s = flag (is_masked m) + short_len n in
    let tail = (extended_len n ++ key m) ++ rest in
    let first = flag_bits fin op (omega arith) in
    let second = flag_bits (is_masked m) (short_len n) (short_len-lt n) in
    let long : ltb (length (f ∷ s ∷ tail)) 2 ≡ false = ground arith in
    let whole : ltb (length (f ∷ s ∷ tail)) (2 + length (extended_len n) + length (key m)) ≡ false =
      ground (
        arith,
        length-append (extended_len n ++ key m) rest,
        length-append (extended_len n) (key m),
      ) in
    rw
      (
        long,
        second.1,
        second.0,
        flag-eq (is_masked m),
        first.0,
        flag-eq fin,
        opcode_bits fin op p,
        size_lem m n,
        whole,
        key_lem f s (extended_len n) rest m,
        append_assoc (extended_len n) (key m) rest,
        len_of_lem f s n (key m ++ rest) q,
      )
      refl

byte_at_lem : (n k : ℕ) → byte_at n k ≡ n / 2 ^ k % 256
byte_at_lem n k = and_low 8 (n / 2 ^ k)

-- `MakeFrame` writes the header of an unmasked final frame.
pub frame_header-wire_header :
    (n op : ℕ) → op < 16 → n < 2 ^ 64 → frame_header n op ≡ wire_header true op plain n
unfolding frame_header wire_header
frame_header-wire_header n op p q =
    let first : bit_or 0x80 op ≡ 128 + op = or_clear 7 128 op (omega arith) (omega arith) in
    elim (Bool-cases (ltb n 126)) [
      | inl short ↦ rw (short, first, and_low 8 n) (ground arith)
      | inr long ↦ elim (Bool-cases (ltb n 65536)) [
        | inl two ↦ rw (long, two, first) (rw (byte_at_lem n 8, byte_at_lem n 0))
        | inr eight ↦
            rw (long, eight, first)
              (rw (
                byte_at_lem n 56,
                byte_at_lem n 48,
                byte_at_lem n 40,
                byte_at_lem n 32,
                byte_at_lem n 24,
                byte_at_lem n 16,
                byte_at_lem n 8,
                byte_at_lem n 0,
              ))
      ]
    ]
