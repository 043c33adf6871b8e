-- ===== src/WebSocket/Parse/Rounds.antt =====
-- One round of `Parse`, and the loop around it.
use mevent.Common.{
  ℕ, suc, ◌+◌, ◌-◌, ◌%◌, ◌^◌, ◌≤◌, ◌<◌, ◌≡◌, refl, ap, [], ◌∷◌, ◌++◌, Bytes, some, length, drop,
  ltb, if◌then◌else◌, arith, Bool-cases, Option-cases, inl, inr, length-drop, length-take, take,
  ltb→lt, ◌&&◌,
}
use mevent.WebSocket.{WebSocket}
use mevent.WebSocket.Parse.{
  WebSocketHeader, parse_header, unmask, Round, wait, refuse, fault, next, deliver, parse_payload,
  parse_round,
}

-- A relation between a websocket and the one that a round leaves, if it goes on.
abbrev pub Leaves : (WebSocket → Type 0) → Round → Type 0
Leaves P (next ws tasks) = P ws
Leaves P wait = Unit
Leaves P refuse = Unit
Leaves P fault = Unit

pub deliver-Leaves :
    (h : WebSocketHeader) (ws : WebSocket)
    → Leaves
        (λ w.
          (w.rbuf ≡ ws.rbuf)
          × (w.max_buffer_size ≡ ws.max_buffer_size)
          × (length w.cache_str ≤ length ws.cache_str))
        (deliver h ws)
unfolding deliver
deliver-Leaves h ws = ground arith

-- What `parse_header` has checked of the sizes.
pub header-fits :
    (buf : Bytes) {h : WebSocketHeader}
    → parse_header buf ≡ some h
    → (2 ≤ h.header_size) × (h.header_size ≤ 14) × (h.header_size ≤ length buf)
unfolding parse_header
header-fits buf e = ground arith

-- The buffer behind the frame, and the payload as it is appended to the cache.
abbrev pub after_frame : WebSocketHeader → WebSocket → Bytes
after_frame h ws = drop h.len (drop h.header_size ws.rbuf)

abbrev pub frame_payload : WebSocketHeader → WebSocket → Bytes
frame_payload h ws =
    let raw = take h.len (drop h.header_size ws.rbuf) in
    if h.mask && ltb 0 h.len then unmask h.masking_key 0 raw else raw

-- The ways out of a round behind a whole header.
pub data PayloadRound (h : WebSocketHeader) (ws : WebSocket) : Round → Type 0 where
  waits : length ws.rbuf < (h.header_size + h.len) % 2 ^ 64 → PayloadRound h ws wait
  refuses : ws.max_buffer_size < (length ws.cache_str + h.len) % 2 ^ 64 → PayloadRound h ws refuse
  faults :
      (h.header_size + h.len) % 2 ^ 64 ≤ length ws.rbuf
      → (length ws.cache_str + h.len) % 2 ^ 64 ≤ ws.max_buffer_size
      → length ws.rbuf < h.header_size + h.len
      → PayloadRound h ws fault
  delivers :
      h.header_size + h.len ≤ length ws.rbuf
      → (length ws.cache_str + h.len) % 2 ^ 64 ≤ ws.max_buffer_size
      → {r : Round}
      → r
        ≡ deliver h
            (record ws { cache_str = ws.cache_str ++ frame_payload h ws; rbuf = after_frame h ws })
      → PayloadRound h ws r

pub payload-PayloadRound :
    (h : WebSocketHeader) (ws : WebSocket) → PayloadRound h ws (parse_payload h ws)
unfolding parse_payload
payload-PayloadRound h ws =
    let size = length ws.rbuf in
    let wrapped = (h.header_size + h.len) % 2 ^ 64 in
    let cached = (length ws.cache_str + h.len) % 2 ^ 64 in
    elim (Bool-cases (ltb size wrapped)) [
      | inl short ↦ rw short (waits (ltb→lt _ _ short))
      | inr whole ↦ elim (Bool-cases (ltb ws.max_buffer_size cached)) [
        | inl big ↦ rw (whole, big) (refuses (ltb→lt _ _ big))
        | inr room ↦ elim (Bool-cases (ltb size (h.header_size + h.len))) [
          | inl past ↦
              rw (whole, room, past) (faults (ground arith) (ground arith) (ltb→lt _ _ past))
          | inr inside ↦ rw (whole, room, inside) (delivers (ground arith) (ground arith) refl)
        ]
      ]
    ]

length-unmask : (key : Bytes) (i : ℕ) (xs : Bytes) → length (unmask key i xs) ≡ length xs
unfolding unmask
length-unmask key i [] = refl
length-unmask key i (x ∷ xs) = ap suc (length-unmask key (i + 1) xs)

pub length-frame_payload :
    (h : WebSocketHeader) (ws : WebSocket)
    → h.header_size + h.len ≤ length ws.rbuf
    → length (frame_payload h ws) ≡ h.len
length-frame_payload h ws inside =
    let raw = take h.len (drop h.header_size ws.rbuf) in
    let raw_len : length raw ≡ h.len =
      omega (
        arith,
        length-take h.len (drop h.header_size ws.rbuf),
        length-drop h.header_size ws.rbuf,
      ) in
    ground (arith, length-unmask h.masking_key 0 raw)

pub length-after_frame :
    (h : WebSocketHeader) (ws : WebSocket)
    → length (after_frame h ws) ≡ length ws.rbuf - h.header_size - h.len
length-after_frame h ws =
    omega (arith, length-drop h.len (drop h.header_size ws.rbuf), length-drop h.header_size ws.rbuf)

-- A predicate on the websocket that `deliver` leaves holds after the round.
pub round-Leaves :
    (P : WebSocket → Type 0) (ws : WebSocket)
    → ((h : WebSocketHeader)
        → parse_header ws.rbuf ≡ some h
        → h.header_size + h.len ≤ length ws.rbuf
        → (length ws.cache_str + h.len) % 2 ^ 64 ≤ ws.max_buffer_size
        → Leaves P (
            deliver h (record ws {
              cache_str = ws.cache_str ++ frame_payload h ws;
              rbuf = after_frame h ws;
            })))
    → Leaves P (parse_round ws)
round-Leaves P ws kept = elim (Option-cases (parse_header ws.rbuf)) [
  | inl e ↦ unfold parse_round in rw (e, parse_round) tt
  | inr (h, e) ↦ unfold parse_round in rw (e, parse_round) (held h e (payload-PayloadRound h ws))
]
  where
    held :
        (h : WebSocketHeader)
        → parse_header ws.rbuf ≡ some h
        → {r : Round} → PayloadRound h ws r
        → Leaves P r
    held h e (waits _) = tt
    held h e (refuses _) = tt
    held h e (faults _ _ _) = tt
    held h e (delivers inside room d) = rw d (kept h e inside room)

pub Leaves-mono :
    (P Q : WebSocket → Type 0) (r : Round) → ((w : WebSocket) → P w → Q w) → Leaves P r → Leaves Q r
Leaves-mono P Q (next w ts) f p = f w p
Leaves-mono P Q wait f p = tt
Leaves-mono P Q refuse f p = tt
Leaves-mono P Q fault f p = tt
