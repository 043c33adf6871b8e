-- ===== src/WebSocket/Parse.antt =====
-- websocket.cpp: `WebSocket::Parse`. `uint64_t` and `size_t` sums wrap. Where a
-- frame is worked off that ends behind `rbuf_`, the behaviour is undefined, the outcome `fault`: with
-- a mask, the loop that unmasks runs past the end; without one, `insert` gets a range of iterators
-- that does not lie in `rbuf_`.
mod Rounds
pub mod Safety
pub mod Control
use mevent.Common.{
  ℕ, zero, suc, ◌+◌, ◌-◌, ◌*◌, ◌%◌, ◌^◌, Bool, true, false, ◌&&◌, ◌||◌, List, [], ◌∷◌, ◌++◌, Bytes,
  Option, none, some, length, get_or, take, drop, ltb, ◌==◌, if◌then◌else◌, bit_and, bit_or,
  bit_xor,
}
use mevent.WebSocket.{
  continuation, text_frame, binary_frame, close, ping, pong, TaskItem, WebSocket,
}

-- `WebSocketHeader`.
pub record WebSocketHeader : Type 0 where
  pub header_size : ℕ
  pub fin : Bool
  pub mask : Bool
  pub opcode : ℕ
  pub len0 : ℕ
  pub len : ℕ
  pub masking_key : Bytes

abbrev pub size_mod : ℕ
size_mod = 2 ^ 64

abbrev pub header_size_of : ℕ → Bool → ℕ
header_size_of len0 mask =
    2 + (if len0 == 126 then 2 else if len0 == 127 then 8 else 0) + (if mask then 4 else 0)

-- The length in two bytes, and in eight, most significant first.
unfoldable pub len16 : Bytes → ℕ
len16 buf = let at = λ (i : ℕ). get_or buf i 0 in bit_or (bit_or 0 (at 2 * 2 ^ 8)) (at 3 * 2 ^ 0)

unfoldable pub len64 : Bytes → ℕ
len64 buf =
    let at = λ (i : ℕ). get_or buf i 0 in
    let l56 = bit_or 0 (at 2 * 2 ^ 56) in
    let l48 = bit_or l56 (at 3 * 2 ^ 48) in
    let l40 = bit_or l48 (at 4 * 2 ^ 40) in
    let l32 = bit_or l40 (at 5 * 2 ^ 32) in
    let l24 = bit_or l32 (at 6 * 2 ^ 24) in
    let l16 = bit_or l24 (at 7 * 2 ^ 16) in
    let l8 = bit_or l16 (at 8 * 2 ^ 8) in bit_or l8 (at 9 * 2 ^ 0)

-- `wsh.len`, from the bytes behind the first two.
unfoldable pub len_of : ℕ → Bytes → ℕ
len_of len0 buf =
    if ltb len0 126
    then len0
    else if len0 == 126
    then len16 buf
    else if len0 == 127
    then len64 buf
    else 0

-- The header at the front of `rbuf_`; `none` where more bytes are needed, and `Parse` returns true.
unfoldable pub parse_header : Bytes → Option WebSocketHeader
unfolding len16 len64 len_of
parse_header buf =
    if ltb (length buf) 2
    then none
    else let first = get_or buf 0 0 in
      let second = get_or buf 1 0 in
      let mask = bit_and second 0x80 == 0x80 in
      let len0 = bit_and second 0x7f in
      let size = header_size_of len0 mask in
      if ltb (length buf) size
      then none
      else some (record {
        header_size = size;
        fin = bit_and first 0x80 == 0x80;
        mask = mask;
        opcode = bit_and first 0x0f;
        len0 = len0;
        len = len_of len0 buf;
        masking_key = if mask then take 4 (drop (size - 4) buf) else [];
      })

-- `rbuf_[i + wsh.header_size] ^= wsh.masking_key[i & 0x3]`, from the `i`-th payload byte on.
unfoldable pub unmask : Bytes → ℕ → Bytes → Bytes
unmask key i [] = []
unmask key i (b ∷ bs) = bit_xor b (get_or key (bit_and i 0x3) 0) ∷ unmask key (i + 1) bs

-- What one round of the loop does: `return true`, `return false`, undefined behaviour, or another
-- round with the tasks that it pushed.
pub data Round : Type 0 where
  wait refuse fault : Round
  next : WebSocket → List TaskItem → Round

-- The branches on the opcode, once the payload stands in `cache_str_`.
unfoldable pub deliver : WebSocketHeader → WebSocket → Round
deliver h ws =
    let cleared = record ws { cache_str = [] } in
    let item : ℕ → List TaskItem = λ op. record { opcode = op; msg = ws.cache_str } ∷ [] in
    if h.opcode == binary_frame || h.opcode == text_frame || h.opcode == continuation
    then if h.fin then next cleared (item h.opcode) else next ws []
    else if h.opcode == ping
    then next cleared (item h.opcode)
    else if h.opcode == pong
    then next ws (item h.opcode)
    else if h.opcode == close
    then next ws (item h.opcode)
    else next ws (item close)

-- The round behind a whole header.
unfoldable pub parse_payload : WebSocketHeader → WebSocket → Round
parse_payload h ws =
    let body = drop h.header_size ws.rbuf in
    let raw = take h.len body in
    let payload = if h.mask && ltb 0 h.len then unmask h.masking_key 0 raw else raw in
    if ltb (length ws.rbuf) ((h.header_size + h.len) % size_mod)
    then wait
    else if ltb ws.max_buffer_size ((length ws.cache_str + h.len) % size_mod)
    then refuse
    else if ltb (length ws.rbuf) (h.header_size + h.len)
    then fault
    else deliver h (record ws { cache_str = ws.cache_str ++ payload; rbuf = drop h.len body })

unfoldable pub parse_round : WebSocket → Round
parse_round ws = elim (parse_header ws.rbuf) [ none ↦ wait | some h ↦ parse_payload h ws ]

-- What `Parse` returns, with the tasks pushed, oldest first.
pub data Parsed : Type 0 where
  again failed : WebSocket → List TaskItem → Parsed
  undefined : Parsed

-- The loop, with a bound on the rounds; `none` where the bound is met.
unfoldable pub parse_loop : ℕ → WebSocket → List TaskItem → Option Parsed
parse_loop zero ws tasks = none
parse_loop (suc rounds) ws tasks = elim (parse_round ws) [
  | wait ↦ some (again ws tasks)
  | refuse ↦ some (failed ws tasks)
  | fault ↦ some undefined
  | next ws' more ↦ parse_loop rounds ws' (tasks ++ more)
]

-- Each round takes at least two bytes off `rbuf_`.
unfoldable pub parse : WebSocket → Option Parsed
unfolding parse_header unmask deliver parse_payload parse_round parse_loop
parse ws = parse_loop (suc (length ws.rbuf)) ws []
