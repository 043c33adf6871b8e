-- ===== src/WebSocket/Frame.antt =====
-- websocket.cpp: `WebSocket::MakeFrame`. A message is shorter than 2^64 bytes.
use mevent.Common.{ℕ, ◌/◌, ◌^◌, [], ◌∷◌, ◌++◌, Bytes, length, ltb, if◌then◌else◌, bit_and, bit_or}

-- `(n >> k) & 0xff`.
abbrev pub byte_at : ℕ → ℕ → ℕ
byte_at n k = bit_and (n / 2 ^ k) 0xff

unfoldable pub frame_header : ℕ → ℕ → Bytes
frame_header message_len opcode =
    let first = bit_or 0x80 opcode in
    let n = message_len in
    if ltb n 126
    then first ∷ bit_and n 0xff ∷ []
    else if ltb n 65536
    then first ∷ 126 ∷ byte_at n 8 ∷ byte_at n 0 ∷ []
    else first
      ∷ 127
      ∷ byte_at n 56
      ∷ byte_at n 48
      ∷ byte_at n 40
      ∷ byte_at n 32
      ∷ byte_at n 24
      ∷ byte_at n 16
      ∷ byte_at n 8
      ∷ byte_at n 0
      ∷ []

-- The frame is appended to `frame_data`.
unfoldable pub make_frame : Bytes → Bytes → ℕ → Bytes
unfolding frame_header
make_frame frame_data message opcode =
    frame_data ++ (frame_header (length message) opcode ++ message)
