-- ===== src/WebSocket/Wire/Messages.antt =====
-- Streams of data frames: how messages, whole or in fragments, come out of `Parse`.
use mevent.Common.{
  ℕ, zero, suc, ◌+◌, ◌^◌, ◌≤◌, ◌<◌, ◌≡◌, refl, ◌∙◌, Bool, List, [], ◌∷◌, ◌++◌, Bytes, length,
  if◌then◌else◌, arith, some, Bool-cases, inl, inr, append_assoc, append-nil, length-append,
  IsBytes,
}
use mevent.WebSocket.{TaskItem, WebSocket}
use mevent.WebSocket.Parse.{next, deliver, parse_header, parse_round, parse_loop, parse, again}
use mevent.WebSocket.Wire.{Masking, key, wire_header, wire_frame}
use mevent.WebSocket.Wire.Header.{wire_view}
use mevent.WebSocket.Wire.Frames.{parse_round-wire_frame}

-- A text, binary or continuation frame.
pub record DataFrame : Type 0 where
  pub fin : Bool
  pub opcode : ℕ
  pub masking : Masking
  pub payload : Bytes

pub wire : List DataFrame → Bytes
wire [] = []
wire (f ∷ fs) = wire_frame f.fin f.opcode f.masking f.payload ++ wire fs

-- The messages that the frames make up, in order, each with the opcode of its final frame.
pub assembled : Bytes → List DataFrame → List TaskItem
assembled cache [] = []
assembled cache (f ∷ fs) =
    let whole = cache ++ f.payload in
    let last = record { opcode = f.opcode; msg = whole } ∷ assembled [] fs in
    let part = assembled whole fs in if f.fin then last else part

-- The payload of a message that has not ended.
pub leftover : Bytes → List DataFrame → Bytes
leftover cache [] = cache
leftover cache (f ∷ fs) = leftover (if f.fin then [] else cache ++ f.payload) fs

pub record IsDataFrame (f : DataFrame) : Type 0 where
  pub data_opcode : f.opcode ≤ 2
  pub key_bytes : IsBytes (key f.masking)
  pub payload_bytes : IsBytes f.payload

-- Every message stays within `max_buffer_size_`.
abbrev pub Fits : ℕ → Bytes → List DataFrame → Type 0
Fits max cache [] = Unit {0}
Fits max cache (f ∷ fs) =
    IsDataFrame f
    × (length cache + length f.payload ≤ max)
    × Fits max (if f.fin then [] else cache ++ f.payload) fs

pub length-wire_frame :
    (fin : Bool) (op : ℕ) (m : Masking) (xs : Bytes) → 2 ≤ length (wire_frame fin op m xs)
unfolding wire_frame wire_header
length-wire_frame fin op m xs = omega arith

length-wire : (fs : List DataFrame) → length fs ≤ length (wire fs)
unfolding wire
length-wire [] = omega arith
length-wire (f ∷ fs) =
    let frame = wire_frame f.fin f.opcode f.masking f.payload in
    omega (
      arith,
      length-wire fs,
      length-append frame (wire fs),
      length-wire_frame f.fin f.opcode f.masking f.payload,
    )

deliver_data :
    (fin : Bool) (op : ℕ) (m : Masking) (n : ℕ) (ws : WebSocket)
    → op ≤ 2
    → deliver (wire_view fin op m n) ws ≡ (
        if fin
        then next (record ws { cache_str = [] }) (record { opcode = op; msg = ws.cache_str } ∷ [])
        else next ws [])
unfolding deliver
deliver_data fin zero m n ws h = refl
deliver_data fin (suc zero) m n ws h = refl
deliver_data fin (suc (suc zero)) m n ws h = refl
deliver_data fin (suc (suc (suc op))) m n ws h = absurd (omega arith)

pub parse_loop_next :
    (rounds : ℕ) (ws ws' : WebSocket) (tasks more : List TaskItem)
    → parse_round ws ≡ next ws' more
    → parse_loop (suc rounds) ws tasks ≡ parse_loop rounds ws' (tasks ++ more)
unfolding parse_loop
parse_loop_next rounds ws ws' tasks more e = rw (e, parse_loop)

abbrev pub holding : ℕ → Bytes → Bytes → WebSocket
holding max rbuf cache = record { max_buffer_size = max; rbuf = rbuf; cache_str = cache }

-- One frame off the buffer.
parse_round-wire :
    (max : ℕ) (cache : Bytes) (f : DataFrame) (fs : List DataFrame)
    → max + 14 < 2 ^ 64
    → IsDataFrame f
    → length cache + length f.payload ≤ max
    → let whole = cache ++ f.payload in
      parse_round (holding max (wire (f ∷ fs)) cache) ≡ (
        if f.fin
        then next (holding max (wire fs) []) (record { opcode = f.opcode; msg = whole } ∷ [])
        else next (holding max (wire fs) whole) [])
unfolding wire
parse_round-wire max cache f fs small ok room =
    parse_round-wire_frame f.fin f.opcode f.masking f.payload (wire fs) cache max (omega arith)
      ok.key_bytes ok.payload_bytes room small
    ∙ deliver_data f.fin f.opcode f.masking (length f.payload) _ ok.data_opcode

parse_loop-wire :
    (max rounds : ℕ) (cache : Bytes) (tasks : List TaskItem) (fs : List DataFrame)
    → max + 14 < 2 ^ 64
    → length fs < rounds
    → Fits max cache fs
    → parse_loop rounds (holding max (wire fs) cache) tasks
      ≡ some (again (holding max [] (leftover cache fs)) (tasks ++ assembled cache fs))
parse_loop-wire max zero cache tasks fs small enough fits = absurd (omega arith)
parse_loop-wire max (suc rounds) cache tasks [] small enough fits =
    unfold wire leftover assembled parse_loop parse_round parse_header in rw (append-nil tasks)
parse_loop-wire max (suc rounds) cache tasks (f ∷ fs) small enough (ok, room, rest) =
    let whole = cache ++ f.payload in
    let read = parse_round-wire max cache f fs small ok room in
    elim (Bool-cases f.fin) [
      | inl last ↦
          let item : TaskItem = record { opcode = f.opcode; msg = whole } in
          parse_loop_next rounds _ (holding max (wire fs) []) tasks (item ∷ []) (read ∙ rw last)
          ∙ parse_loop-wire max rounds [] (tasks ++ item ∷ []) fs small (omega arith)
              (rw last at rest)
          ∙ unfold leftover assembled in rw (last, append_assoc tasks (item ∷ []) (assembled [] fs))
      | inr more ↦
          parse_loop_next rounds _ (holding max (wire fs) whole) tasks [] (read ∙ rw more)
          ∙ parse_loop-wire max rounds whole (tasks ++ []) fs small (omega arith) (rw more at rest)
          ∙ unfold leftover assembled in rw (more, append-nil tasks)
    ]

-- With a limit below 2^64 - 14, from a buffer of data frames, masked or not, whose messages
-- keep within the limit, `Parse` pushes exactly the messages that the frames make up, in
-- order, and keeps the payload of an unfinished one.
pub parse-wire :
    (max : ℕ) (cache : Bytes) (fs : List DataFrame)
    → max + 14 < 2 ^ 64
    → Fits max cache fs
    → parse (record { max_buffer_size = max; rbuf = wire fs; cache_str = cache })
      ≡ some (
          again
            (record { max_buffer_size = max; rbuf = []; cache_str = leftover cache fs })
            (assembled cache fs))
unfolding parse
parse-wire max cache fs small fits =
    parse_loop-wire max (suc (length (wire fs))) cache [] fs small (omega (arith, length-wire fs))
      fits
