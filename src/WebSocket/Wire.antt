-- ===== src/WebSocket/Wire.antt =====
-- The base framing of RFC 6455, section 5.2, as the diagram in websocket.cpp shows it: an
-- independent description of what `MakeFrame` writes and `Parse` reads.
pub mod Header
pub mod Frames
pub mod Messages
use mevent.Common.{
  ℕ, zero, suc, ◌+◌, ◌/◌, ◌%◌, ◌^◌, Bool, true, false, [], ◌∷◌, ◌++◌, Bytes, length, ltb, ◌==◌,
  if◌then◌else◌, bit_xor,
}

pub data Masking : Type 0 where
  plain : Masking
  masked : ℕ → ℕ → ℕ → ℕ → Masking

abbrev pub is_masked : Masking → Bool
is_masked plain = false
is_masked (masked a b c d) = true

abbrev pub key : Masking → Bytes
key plain = []
key (masked a b c d) = a ∷ b ∷ c ∷ d ∷ []

-- The `k` low bytes of a number, most significant first.
abbrev pub big_endian : ℕ → ℕ → Bytes
big_endian zero n = []
big_endian (suc k) n = (n / 256 ^ k % 256) ∷ big_endian k n

abbrev pub flag : Bool → ℕ
flag true = 128
flag false = 0

abbrev pub short_len : ℕ → ℕ
short_len n = if ltb n 126 then n else if ltb n 65536 then 126 else 127

abbrev pub extended_len : ℕ → Bytes
extended_len n = if ltb n 126 then [] else if ltb n 65536 then big_endian 2 n else big_endian 8 n

-- The header of a frame with `n` payload bytes.
pub wire_header : Bool → ℕ → Masking → ℕ → Bytes
wire_header fin opcode m n =
    (flag fin + opcode) ∷ (flag (is_masked m) + short_len n) ∷ (extended_len n ++ key m)

-- The payload byte at position `i` is combined with the key byte `i % 4`.
pub masking_from : Masking → ℕ → Bytes → Bytes
masking_from plain i payload = payload
masking_from (masked a b c d) i [] = []
masking_from (masked a b c d) i (x ∷ xs) =
    let k = if i % 4 == 0 then a else if i % 4 == 1 then b else if i % 4 == 2 then c else d in
    bit_xor x k ∷ masking_from (masked a b c d) (i + 1) xs

pub wire_frame : Bool → ℕ → Masking → Bytes → Bytes
unfolding wire_header masking_from
wire_frame fin opcode m payload =
    wire_header fin opcode m (length payload) ++ masking_from m 0 payload
