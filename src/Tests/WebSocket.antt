-- ===== src/Tests/WebSocket.antt =====
-- websocket.cpp on concrete inputs.
use mevent.Common.{
  ◌≡◌, ◌<◌, ◌+◌, refl, arith, some, Bytes, codes, [], ◌∷◌, ◌++◌, List, length, true, false, ◌^◌,
  ◌≤◌, ◌+◌, replicate,
}
use mevent.WebSocket.{WebSocket, text_frame, ping, pong, continuation}
use mevent.WebSocket.Frame.{make_frame}
use mevent.WebSocket.Parse.{
  parse, again, Parsed, undefined, parse_round, parse_header, fault, deliver, WebSocketHeader,
}
use mevent.WebSocket.Parse.Safety.{Ends, parse_total, parse_round-fault, parse_round_overflow}
use mevent.WebSocket.Parse.Control.{sent_item, parse-pong_text, parse-fragment_ping}
use mevent.WebSocket.Wire.{plain, masked, wire_frame}
use mevent.WebSocket.Wire.Header.{wire_view}
use mevent.WebSocket.Wire.Frames.{make_frame-wire_frame, parse_round-wire_frame}
use mevent.WebSocket.Wire.Messages.{DataFrame, wire, assembled, leftover, parse-wire}

abbrev fresh : Bytes → WebSocket
fresh b = record { max_buffer_size = 8192; rbuf = b; cache_str = [] }

parse_test :
    parse (fresh (make_frame [] (codes "hello") text_frame))
    ≡ some (again (fresh []) (record { opcode = text_frame; msg = codes "hello" } ∷ []))
unfolding make_frame parse
parse_test = refl

masked_test :
    parse (fresh (0x81 ∷ 0x85 ∷ 0x37 ∷ 0xfa ∷ 0x21 ∷ 0x3d ∷ 0x7f ∷ 0x9f ∷ 0x4d ∷ 0x51 ∷ 0x58 ∷ []))
    ≡ some (again (fresh []) (record { opcode = text_frame; msg = codes "Hello" } ∷ []))
unfolding parse
masked_test = refl

overflow_test :
    parse (
      fresh (0x01 ∷ 0x01 ∷ b'a' ∷ 0x00 ∷ 0x7f ∷ 255 ∷ 255 ∷ 255 ∷ 255 ∷ 255 ∷ 255 ∷ 255 ∷ 255 ∷ []))
    ≡ some undefined
unfolding parse
overflow_test = refl

-- "Hel" and "lo" as one message in two frames, the first one masked.
abbrev two_frames : List DataFrame
two_frames =
    record { fin = false; opcode = text_frame; masking = masked 1 2 3 4; payload = codes "Hel" }
    ∷ record { fin = true; opcode = continuation; masking = plain; payload = codes "lo" }
    ∷ []

parse-wire_example :
    parse (record { max_buffer_size = 8192; rbuf = wire two_frames; cache_str = [] })
    ≡ some (
        again
          (record { max_buffer_size = 8192; rbuf = []; cache_str = leftover [] two_frames })
          (assembled [] two_frames))
parse-wire_example = parse-wire 8192 [] two_frames (omega arith) (
    (
      record { data_opcode = omega arith; key_bytes = omega arith; payload_bytes = omega arith },
      omega arith,
      (
        record { data_opcode = omega arith; key_bytes = tt; payload_bytes = omega arith },
        omega arith,
        tt,
      ),
    ))

abbrev half_cached : WebSocket
half_cached = record {
  max_buffer_size = 8192;
  rbuf = 0x80 ∷ 255 ∷ (replicate 8 255 ++ 1 ∷ 2 ∷ 3 ∷ 4 ∷ []);
  cache_str = 97 ∷ [];
}

parse_total_example :
    (p : Parsed) × (parse half_cached ≡ some p) × Ends (λ w. length w.cache_str ≤ 8192) p
parse_total_example = parse_total half_cached (omega arith) (omega arith)

parse_round_overflow_example :
    ((h : WebSocketHeader) × (parse_header half_cached.rbuf ≡ some h)
      × (h.mask ≡ true)
      × (length half_cached.rbuf < h.header_size + h.len))
    × (parse_round half_cached ≡ fault)
parse_round_overflow_example =
    parse_round_overflow 0x80 1 2 3 4 [] half_cached refl (omega arith) (omega arith) (omega arith)

half_cached_fault : parse_round half_cached ≡ fault
unfolding parse
half_cached_fault = refl

parse_round-fault_example :
    (h : WebSocketHeader) × (parse_header half_cached.rbuf ≡ some h)
    × (2 ^ 64 ≤ length half_cached.cache_str + h.len)
parse_round-fault_example = parse_round-fault half_cached (omega arith) half_cached_fault

make_frame-wire_frame_example :
    make_frame (7 ∷ []) (codes "hello") text_frame
    ≡ (7 ∷ []) ++ wire_frame true text_frame plain (codes "hello")
make_frame-wire_frame_example =
    make_frame-wire_frame (7 ∷ []) (codes "hello") text_frame (omega arith) (omega arith)

parse_round-wire_frame_example :
    parse_round (record {
      max_buffer_size = 8192;
      rbuf = wire_frame true text_frame (masked 1 2 3 4) (codes "hi") ++ (9 ∷ []);
      cache_str = [];
    })
    ≡ deliver
        (wire_view true text_frame (masked 1 2 3 4) 2)
        (record { max_buffer_size = 8192; rbuf = 9 ∷ []; cache_str = codes "hi" })
parse_round-wire_frame_example =
    parse_round-wire_frame true text_frame (masked 1 2 3 4) (codes "hi") (9 ∷ []) [] 8192
      (omega arith) (omega arith) (omega arith) (omega arith) (omega arith)

parse-pong_text_example :
    parse (record {
      max_buffer_size = 8192;
      rbuf = wire_frame true pong plain (codes "a") ++ wire_frame true text_frame plain (codes "b");
      cache_str = [];
    })
    ≡ some (
        again
          (record { max_buffer_size = 8192; rbuf = []; cache_str = [] })
          (sent_item pong (codes "a") ∷ sent_item text_frame (codes "ab") ∷ []))
parse-pong_text_example =
    parse-pong_text 8192 plain plain (codes "a") (codes "b") (omega arith) tt tt (omega arith)
      (omega arith) (omega arith)

parse-fragment_ping_example :
    parse (record {
      max_buffer_size = 8192;
      rbuf =
          wire_frame false text_frame plain (codes "a") ++ wire_frame true ping plain (codes "b");
      cache_str = [];
    })
    ≡ some (
        again
          (record { max_buffer_size = 8192; rbuf = []; cache_str = [] })
          (sent_item ping (codes "ab") ∷ []))
parse-fragment_ping_example =
    parse-fragment_ping 8192 plain plain (codes "a") (codes "b") (omega arith) tt tt (omega arith)
      (omega arith) (omega arith)
