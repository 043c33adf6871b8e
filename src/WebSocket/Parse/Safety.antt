-- ===== src/WebSocket/Parse/Safety.antt =====
-- `Parse` ends, keeps the message cache within `max_buffer_size_`, and has a defined behaviour
-- unless a sum of 64-bit sizes wraps.
use mevent.Common.{
  ℕ, zero, suc, ◌+◌, ◌-◌, ◌%◌, ◌^◌, ◌≤◌, ◌<◌, ◌≡◌, ◌≢◌, refl, ◌∙◌, ap, true, false, [], ◌∷◌, ◌++◌,
  List, Bytes, some, none, length, ltb, arith, Option-cases, inl, inr, length-append, sym,
  replicate, bit_and, ◌==◌, ge→ltb, lt→ltb,
}
use mevent.WebSocket.{TaskItem, WebSocket}
use mevent.WebSocket.Parse.{
  WebSocketHeader, parse_header, Round, wait, refuse, fault, next, deliver, parse_payload,
  parse_round, parse_loop, parse, Parsed, again, failed, undefined,
}
use mevent.WebSocket.Parse.Rounds.{
  Leaves, Leaves-mono, round-Leaves, deliver-Leaves, header-fits, after_frame, frame_payload,
  length-after_frame, length-frame_payload, PayloadRound, waits, refuses, faults, delivers,
  payload-PayloadRound,
}

-- A round that goes on takes at least two bytes off the buffer, and cannot overfill the cache.
record Advances (ws w : WebSocket) : Type 0 where
  shorter : length w.rbuf + 2 ≤ length ws.rbuf
  limit : w.max_buffer_size ≡ ws.max_buffer_size
  memory : length w.cache_str + length w.rbuf ≤ length ws.cache_str + length ws.rbuf
  cached : length w.cache_str ≤ ws.max_buffer_size

parse_round-Advances :
    (ws : WebSocket)
    → length ws.cache_str + length ws.rbuf < 2 ^ 64
    → Leaves (Advances ws) (parse_round ws)
parse_round-Advances ws small = round-Leaves (Advances ws) ws λ h e inside room.
    let ws' : WebSocket = record ws {
      cache_str = ws.cache_str ++ frame_payload h ws;
      rbuf = after_frame h ws;
    } in
    Leaves-mono _ (Advances ws) (deliver h ws')
      (λ w kept. omega (
        arith,
        ap length kept.0,
        header-fits ws.rbuf e,
        length-after_frame h ws,
        length-append ws.cache_str (frame_payload h ws),
        length-frame_payload h ws inside,
      ))
      (deliver-Leaves h ws')

-- What `Parse` returns is one of the three, with a predicate on the websocket that it leaves.
abbrev pub Ends : (WebSocket → Type 0) → Parsed → Type 0
Ends P (again ws tasks) = P ws
Ends P (failed ws tasks) = P ws
Ends P undefined = Unit

abbrev Finishes : ℕ → ℕ → WebSocket → List TaskItem → Type 0
Finishes max rounds ws tasks =
    (p : Parsed) × (parse_loop rounds ws tasks ≡ some p) × Ends (λ w. length w.cache_str ≤ max) p

round-Finishes :
    (max rounds : ℕ) (ws : WebSocket) (tasks : List TaskItem) (r : Round)
    → length ws.cache_str ≤ max
    → parse_round ws ≡ r
    → Leaves (Advances ws) r
    → ((w : WebSocket) (ts : List TaskItem) → Advances ws w → Finishes max rounds w ts)
    → Finishes max (suc rounds) ws tasks
unfolding parse_loop
round-Finishes max rounds ws tasks wait room e adv rest = (again ws tasks, rw (e, parse_loop), room)
round-Finishes max rounds ws tasks refuse room e adv rest =
    (failed ws tasks, rw (e, parse_loop), room)
round-Finishes max rounds ws tasks fault room e adv rest = (undefined, rw (e, parse_loop), tt)
round-Finishes max rounds ws tasks (next w more) room e adv rest =
    let (p, runs, ends) = rest w (tasks ++ more) adv in (p, rw (e, parse_loop) runs, ends)

loop-Finishes :
    (max rounds : ℕ) (ws : WebSocket) (tasks : List TaskItem)
    → ws.max_buffer_size ≡ max
    → length ws.cache_str + length ws.rbuf < 2 ^ 64
    → length ws.cache_str ≤ max
    → length ws.rbuf < rounds
    → Finishes max rounds ws tasks
loop-Finishes max zero ws tasks limit small room enough = absurd (omega arith)
loop-Finishes max (suc rounds) ws tasks limit small room enough =
    round-Finishes max rounds ws tasks (parse_round ws) room refl (parse_round-Advances ws small)
      λ w ts adv.
        loop-Finishes max rounds w ts (adv.limit ∙ limit) (omega arith) (omega arith) (omega arith)

-- Where cache and buffer together hold fewer than 2^64 bytes and the cache is within
-- `max_buffer_size_`, `Parse` ends: its loop needs no more rounds than the buffer has bytes,
-- and one. Where it then returns, the cache is still within `max_buffer_size_`.
pub parse_total :
    (ws : WebSocket)
    → length ws.cache_str + length ws.rbuf < 2 ^ 64
    → length ws.cache_str ≤ ws.max_buffer_size
    → (p : Parsed) × (parse ws ≡ some p) × Ends (λ w. length w.cache_str ≤ ws.max_buffer_size) p
unfolding parse
parse_total ws small room =
    loop-Finishes ws.max_buffer_size (suc (length ws.rbuf)) ws [] refl small room (omega arith)

parse_round-none : (ws : WebSocket) → parse_header ws.rbuf ≡ none → parse_round ws ≡ wait
unfolding parse_round
parse_round-none ws e = rw (e, parse_round)

parse_round-some :
    (ws : WebSocket) (h : WebSocketHeader)
    → parse_header ws.rbuf ≡ some h
    → parse_round ws ≡ parse_payload h ws
unfolding parse_round
parse_round-some ws h e = rw (e, parse_round)

deliver-ne-fault : (h : WebSocketHeader) (ws : WebSocket) → deliver h ws ≢ fault
unfolding deliver
deliver-ne-fault h ws = ground arith

fault-wraps :
    (h : WebSocketHeader) (ws : WebSocket) {r : Round}
    → PayloadRound h ws r
    → r ≡ fault
    → h.header_size ≤ 14
    → ws.max_buffer_size + 14 < 2 ^ 64
    → 2 ^ 64 ≤ length ws.cache_str + h.len
fault-wraps h ws (waits _) e size limit = cc
fault-wraps h ws (refuses _) e size limit = cc
fault-wraps h ws (faults whole room past) e size limit = omega arith
fault-wraps h ws (delivers _ _ d) e size limit = absurd (deliver-ne-fault h _ (sym d ∙ e))

-- With a `max_buffer_size_` below 2^64 - 14, the behaviour of a round is undefined only
-- where the cache and the frame's length together reach 2^64.
pub parse_round-fault :
    (ws : WebSocket)
    → ws.max_buffer_size + 14 < 2 ^ 64
    → parse_round ws ≡ fault
    → (h : WebSocketHeader) × (parse_header ws.rbuf ≡ some h)
      × (2 ^ 64 ≤ length ws.cache_str + h.len)
parse_round-fault ws limit e = elim (Option-cases (parse_header ws.rbuf)) [
  | inl missing ↦ cc (parse_round-none ws missing)
  | inr (h, found) ↦ (
    h,
    found,
    fault-wraps h ws (payload-PayloadRound h ws) (sym (parse_round-some ws h found) ∙ e)
        (header-fits ws.rbuf found).1 limit,
  )
]

module _ (first k0 k1 k2 k3 : ℕ) (rest : Bytes) where
  abbrev longest_header : WebSocketHeader
  longest_header = record {
    header_size = 14;
    fin = bit_and first 0x80 == 0x80;
    mask = true;
    opcode = bit_and first 0x0f;
    len0 = 127;
    len = 0xffff_ffff_ffff_ffff;
    masking_key = k0 ∷ k1 ∷ k2 ∷ k3 ∷ [];
  }

  -- The second byte has the mask bit and the length code 127.
  abbrev longest_frame : Bytes
  longest_frame = first ∷ 255 ∷ (replicate 8 255 ++ k0 ∷ k1 ∷ k2 ∷ k3 ∷ rest)

  longest_header_lem : parse_header longest_frame ≡ some longest_header
  unfolding parse_header
  longest_header_lem = rw (
    ge→ltb (length longest_frame) 2 (omega arith),
    ge→ltb (length longest_frame) 14 (omega arith),
  )

  -- Where the cache holds a byte or more within `max_buffer_size_`, and cache and buffer
  -- together fewer than 2^64 bytes, a masked frame with the length code 127 and eight length
  -- bytes 255 passes both tests, though what it announces ends behind the buffer, and the
  -- round runs into undefined behaviour: it unmasks bytes that the buffer does not have.
  pub parse_round_overflow :
      (ws : WebSocket)
      → ws.rbuf ≡ longest_frame
      → 0 < length ws.cache_str
      → length ws.cache_str ≤ ws.max_buffer_size
      → length ws.cache_str + length ws.rbuf < 2 ^ 64
      → ((h : WebSocketHeader) × (parse_header ws.rbuf ≡ some h)
          × (h.mask ≡ true)
          × (length ws.rbuf < h.header_size + h.len))
        × (parse_round ws ≡ fault)
  unfolding parse_payload
  parse_round_overflow ws e some_cached room small =
      let size : length ws.rbuf ≡ 14 + length rest = omega (arith, ap length e) in
      let whole : ltb (length ws.rbuf) ((14 + (2 ^ 64 - 1)) % 2 ^ 64) ≡ false =
        ge→ltb _ _ (omega arith) in
      let fits : ltb ws.max_buffer_size ((length ws.cache_str + (2 ^ 64 - 1)) % 2 ^ 64) ≡ false =
        ge→ltb _ _ (omega arith) in
      let past : ltb (length ws.rbuf) (14 + (2 ^ 64 - 1)) ≡ true = lt→ltb _ _ (omega arith) in
      let found : parse_header ws.rbuf ≡ some longest_header = rw e longest_header_lem in
      (
        (longest_header, found, refl, omega (arith, size)),
        parse_round-some ws longest_header found ∙ rw (whole, fits, past),
      )
