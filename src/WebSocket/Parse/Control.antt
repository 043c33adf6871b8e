-- ===== src/WebSocket/Parse/Control.antt =====
-- Control frames share the message cache: what that does to the messages around them.
use mevent.Common.{
  ℕ, suc, ◌+◌, ◌-◌, ◌^◌, ◌≤◌, ◌<◌, ◌≡◌, refl, sym, ◌∙◌, ap, Bool, true, false, [], ◌∷◌, ◌++◌, List,
  Bytes, some, length, arith, length-append, append-nil, IsBytes,
}
use mevent.WebSocket.{TaskItem, text_frame, ping, pong}
use mevent.WebSocket.Parse.{parse_header, next, deliver, parse_round, parse_loop, parse, again}
use mevent.WebSocket.Wire.{Masking, key, wire_frame}
use mevent.WebSocket.Wire.Frames.{parse_round-wire_frame}
use mevent.WebSocket.Wire.Messages.{holding, parse_loop_next, length-wire_frame}

abbrev pub sent_item : ℕ → Bytes → TaskItem
sent_item op m = record { opcode = op; msg = m }

parse_loop-nil :
    (rounds max : ℕ) (cache : Bytes) (tasks : List TaskItem)
    → parse_loop (suc rounds) (holding max [] cache) tasks
      ≡ some (again (holding max [] cache) tasks)
unfolding parse_loop parse_round parse_header
parse_loop-nil rounds max cache tasks = refl

-- Two rounds empty the buffer.
parse_twice :
    (max : ℕ) (buf left cache end : Bytes) (t1 t2 : List TaskItem)
    → 2 ≤ length buf
    → parse_round (holding max buf []) ≡ next (holding max left cache) t1
    → parse_round (holding max left cache) ≡ next (holding max [] end) t2
    → parse (holding max buf []) ≡ some (again (holding max [] end) (t1 ++ t2))
unfolding parse
parse_twice max buf left cache end t1 t2 long first second =
    let e : suc (length buf) ≡ suc (suc (suc (length buf - 2))) = omega arith in
    ap (λ (r : ℕ). parse_loop r (holding max buf []) []) e
    ∙ parse_loop_next (suc (suc (length buf - 2))) (holding max buf []) (holding max left cache) []
        t1 first
    ∙ parse_loop_next (suc (length buf - 2)) (holding max left cache) (holding max [] end) t1 t2
        second
    ∙ parse_loop-nil (length buf - 2) max end (t1 ++ t2)

module _ (max : ℕ) (m1 m2 : Masking) (a b : Bytes) (small : max + 14 < 2 ^ 64) where
  long : (fin : Bool) (op : ℕ) (rest : Bytes) → 2 ≤ length (wire_frame fin op m1 a ++ rest)
  long fin op rest =
      omega (arith, length-append (wire_frame fin op m1 a) rest, length-wire_frame fin op m1 a)

  -- Where both payloads together fit the limit, the payload of a pong stays in the cache, and
  -- stands in front of the message of the text frame behind it.
  pub parse-pong_text :
      IsBytes (key m1)
      → IsBytes (key m2)
      → IsBytes a
      → IsBytes b
      → length a + length b ≤ max
      → parse (record {
        max_buffer_size = max;
        rbuf = wire_frame true pong m1 a ++ wire_frame true text_frame m2 b;
        cache_str = [];
      })
        ≡ some (
            again
              (record { max_buffer_size = max; rbuf = []; cache_str = [] })
              (sent_item pong a ∷ sent_item text_frame (a ++ b) ∷ []))
  unfolding deliver
  parse-pong_text k1 k2 b1 b2 fits =
      let second = wire_frame true text_frame m2 b in
      parse_twice max (wire_frame true pong m1 a ++ second) second a [] (sent_item pong a ∷ [])
        (sent_item text_frame (a ++ b) ∷ []) (long true pong second)
        (parse_round-wire_frame true pong m1 a second [] max (omega arith) k1 b1 (omega arith)
          small)
        (rw (sym (append-nil second))
          (parse_round-wire_frame true text_frame m2 b [] a max (omega arith) k2 b2 fits small))

  -- Where both payloads together fit the limit, a ping behind an unfinished fragment takes the
  -- fragment away with its own payload.
  pub parse-fragment_ping :
      IsBytes (key m1)
      → IsBytes (key m2)
      → IsBytes a
      → IsBytes b
      → length a + length b ≤ max
      → parse (record {
        max_buffer_size = max;
        rbuf = wire_frame false text_frame m1 a ++ wire_frame true ping m2 b;
        cache_str = [];
      })
        ≡ some (
            again
              (record { max_buffer_size = max; rbuf = []; cache_str = [] })
              (sent_item ping (a ++ b) ∷ []))
  unfolding deliver
  parse-fragment_ping k1 k2 b1 b2 fits =
      let second = wire_frame true ping m2 b in
      parse_twice max (wire_frame false text_frame m1 a ++ second) second a [] []
        (sent_item ping (a ++ b) ∷ []) (long false text_frame second)
        (parse_round-wire_frame false text_frame m1 a second [] max (omega arith) k1 b1
          (omega arith) small)
        (rw (sym (append-nil second))
          (parse_round-wire_frame true ping m2 b [] a max (omega arith) k2 b2 fits small))
