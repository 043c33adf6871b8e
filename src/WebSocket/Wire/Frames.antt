-- ===== src/WebSocket/Wire/Frames.antt =====
-- What `Parse` does with whole frames of RFC 6455, one and many.
use mevent.Common.{
  ℕ, suc, ◌+◌, ◌%◌, ◌^◌, ◌≤◌, ◌<◌, ◌≡◌, refl, ap, ◌∙◌, Bool, true, false, ◌&&◌, [], ◌∷◌, ◌++◌,
  Bytes, length, ltb, if◌then◌else◌, arith, some, lt→ltb, ge→ltb, take, drop, append_assoc,
  drop_append, take_append, length-append, IsBytes,
}
use mevent.Common.Bits.{xor_twice}
use mevent.Common.Bits.Words.{and_low}
use mevent.WebSocket.{WebSocket}
use mevent.WebSocket.Frame.{make_frame}
use mevent.WebSocket.Parse.{
  WebSocketHeader, parse_header, unmask, deliver, parse_payload, parse_round,
}
use mevent.WebSocket.Wire.{
  Masking, plain, masked, is_masked, key, wire_header, masking_from, wire_frame, extended_len,
}
use mevent.WebSocket.Wire.Header.{wire_view, parse_header-wire_header, frame_header-wire_header}

-- For an opcode of four bits and a message of fewer than 2^64 bytes, `MakeFrame` writes one
-- final, unmasked frame of RFC 6455 behind what `frame_data` holds.
pub make_frame-wire_frame :
    (frame_data message : Bytes) (op : ℕ)
    → op < 16
    → length message < 2 ^ 64
    → make_frame frame_data message op ≡ frame_data ++ wire_frame true op plain message
unfolding make_frame wire_frame masking_from
make_frame-wire_frame frame_data message op p q =
    rw (frame_header-wire_header (length message) op p q)

length-masking_from : (m : Masking) (i : ℕ) (xs : Bytes) → length (masking_from m i xs) ≡ length xs
unfolding masking_from
length-masking_from plain i xs = refl
length-masking_from (masked a b c d) i [] = refl
length-masking_from (masked a b c d) i (x ∷ xs) =
    ap suc (length-masking_from (masked a b c d) (i + 1) xs)

unmask-masking_from :
    (a b c d i : ℕ) (xs : Bytes)
    → IsBytes (a ∷ b ∷ c ∷ d ∷ [])
    → IsBytes xs
    → unmask (a ∷ b ∷ c ∷ d ∷ []) i (masking_from (masked a b c d) i xs) ≡ xs
unfolding unmask masking_from
unmask-masking_from a b c d i [] k h = refl
unmask-masking_from a b c d i (x ∷ xs) k h = ground (
  arith,
  and_low 2 i,
  xor_twice x a,
  xor_twice x b,
  xor_twice x c,
  xor_twice x d,
  unmask-masking_from a b c d (i + 1) xs k h.1,
)

length-wire_header :
    (fin : Bool) (op : ℕ) (m : Masking) (n : ℕ)
    → length (wire_header fin op m n) ≡ 2 + length (extended_len n) + length (key m)
unfolding wire_header
length-wire_header fin op m n = omega (arith, length-append (extended_len n) (key m))

header-le : (n : ℕ) (m : Masking) → 2 + length (extended_len n) + length (key m) ≤ 14
header-le n plain = ground arith
header-le n (masked a b c d) = ground arith

-- The payload of a frame, as the parser sees it behind the masking.
payload_lem :
    (m : Masking) (payload : Bytes)
    → IsBytes (key m)
    → IsBytes payload
    → (if is_masked m && ltb 0 (length payload)
        then unmask (key m) 0 (masking_from m 0 payload)
        else masking_from m 0 payload)
      ≡ payload
unfolding masking_from
payload_lem plain payload k h = refl
payload_lem (masked a b c d) [] k h = refl
payload_lem (masked a b c d) (x ∷ xs) k h =
    rw (lt→ltb 0 (suc (length xs)) (omega arith)) (unmask-masking_from a b c d 0 (x ∷ xs) k h)

-- The round behind a header whose payload `sent` is at hand and fits the cache.
parse_payload_fits :
    (h : WebSocketHeader) (ws : WebSocket) (sent payload rest : Bytes)
    → drop h.header_size ws.rbuf ≡ sent ++ rest
    → length sent ≡ h.len
    → h.header_size ≤ 14
    → length ws.rbuf ≡ h.header_size + h.len + length rest
    → (if h.mask && ltb 0 h.len then unmask h.masking_key 0 sent else sent) ≡ payload
    → length ws.cache_str + h.len ≤ ws.max_buffer_size
    → ws.max_buffer_size + 14 < 2 ^ 64
    → parse_payload h ws
      ≡ deliver h (record ws { cache_str = ws.cache_str ++ payload; rbuf = rest })
unfolding parse_payload
parse_payload_fits h ws sent payload rest body sent_len le total unmasked room small =
    let whole : ltb (length ws.rbuf) ((h.header_size + h.len) % 2 ^ 64) ≡ false =
      ge→ltb _ _ (omega arith) in
    let fits : ltb ws.max_buffer_size ((length ws.cache_str + h.len) % 2 ^ 64) ≡ false =
      ge→ltb _ _ (omega arith) in
    let inside : ltb (length ws.rbuf) (h.header_size + h.len) ≡ false = ge→ltb _ _ (omega arith) in
    let raw : take h.len (sent ++ rest) ≡ sent = rw (← sent_len) (take_append sent rest) in
    let left : drop h.len (sent ++ rest) ≡ rest = rw (← sent_len) (drop_append sent rest) in
    rw (whole, fits, inside, body, raw, left, unmasked)

parse_round_header :
    (ws : WebSocket) (h : WebSocketHeader)
    → parse_header ws.rbuf ≡ some h
    → parse_round ws ≡ parse_payload h ws
unfolding parse_round
parse_round_header ws h e = rw (e, parse_round)

-- A round takes a whole frame of bytes off the buffer, appends its payload to the cache, and
-- acts on the opcode, where the cache then fits a limit below 2^64 - 14.
pub parse_round-wire_frame :
    (fin : Bool) (op : ℕ) (m : Masking) (payload rest cache : Bytes) (max : ℕ)
    → op < 16
    → IsBytes (key m)
    → IsBytes payload
    → length cache + length payload ≤ max
    → max + 14 < 2 ^ 64
    → parse_round (record {
      max_buffer_size = max;
      rbuf = wire_frame fin op m payload ++ rest;
      cache_str = cache;
    })
      ≡ deliver
          (wire_view fin op m (length payload))
          (record { max_buffer_size = max; rbuf = rest; cache_str = cache ++ payload })
unfolding wire_frame
parse_round-wire_frame fin op m payload rest cache max p k b fits small =
    let n = length payload in
    let header = wire_header fin op m n in
    let sent = masking_from m 0 payload in
    let size = 2 + length (extended_len n) + length (key m) in
    let header_len : length header ≡ size = length-wire_header fin op m n in
    let sent_len : length sent ≡ n = length-masking_from m 0 payload in
    let assoc : (header ++ sent) ++ rest ≡ header ++ (sent ++ rest) =
      append_assoc header sent rest in
    let ws : WebSocket = record {
      max_buffer_size = max;
      rbuf = (header ++ sent) ++ rest;
      cache_str = cache;
    } in
    parse_round_header ws (wire_view fin op m n)
      (rw assoc (parse_header-wire_header fin op m n (sent ++ rest) p (omega arith)))
    ∙ parse_payload_fits (wire_view fin op m n) ws sent payload rest
        (rw (assoc, ← header_len) (drop_append header (sent ++ rest))) sent_len (header-le n m)
        (omega (arith, length-append (header ++ sent) rest, length-append header sent))
        (payload_lem m payload k b) fits small
