-- ===== src/Connection.antt =====
-- connection.h and connection.cpp: the queue of buffers to write, `Readn` and `Flush`. The calls of
-- the socket and of the TLS library are an argument: the sequence of their results.
pub mod Buffers
pub mod Queue
pub mod Whole
use mevent.Common.{
  ℕ, Bool, true, false, Bytes, List, [], ◌∷◌, ◌++◌, ◌+◌, ◌-◌, ltb, ◌==◌, if◌then◌else◌, length,
  take, drop, Option, some, none,
}

pub data ConnStatus : Type 0 where
  again upgrade end error close : ConnStatus

-- What one call of `read` or `SSL_read` does: it gives bytes, it would block (`EAGAIN` and the errors
-- of `SSL_get_error` that the code treats alike), or the code gives up.
pub data Call : Type 0 where
  gives : Bytes → Call
  would_block gives_up : Call

pub data Reading : Type 0 where
  received : Bytes → Reading
  failed overrun : Reading

-- The bytes that a call asks for or offers behind `buf + n`: `SSL_read` and `SSL_write` get the whole
-- `len`.
abbrev pub asked : Bool → ℕ → ℕ → ℕ
asked ssl len n = if ssl then len else len - n

-- `Readn`, with the bytes read so far; where the results end, the last call would block. Bytes
-- written past the `len` bytes of the buffer are an overrun.
unfoldable pub readn : Bool → ℕ → Bytes → List Call → Reading
readn ssl len got [] = received got
readn ssl len got (would_block ∷ calls) = received got
readn ssl len got (gives_up ∷ calls) = elim (ltb (length got) len) [
  | true ↦ failed
  | false ↦ received got
]
readn ssl len got (gives bytes ∷ calls) = elim (ltb (length got) len) [
  | false ↦ received got
  | true ↦ elim (ltb len (length got + length bytes)) [
    | true ↦ overrun
    | false ↦ readn ssl len (got ++ bytes) calls
  ]
]

-- What one call of `write` or `SSL_write` does.
pub data WriteCall : Type 0 where
  takes : ℕ → WriteCall
  write_would_block write_gives_up : WriteCall

-- What a call of `Writen` does: it returns the number of bytes written, or it returns -1, with so
-- many bytes written before it failed.
pub data WriteResult : Type 0 where
  wrote failed_after : ℕ → WriteResult

-- `Writen` with the number of bytes written so far. Where the results end, the last call would
-- block. A call is offered `asked ssl len n` bytes; `none` is a call that takes bytes from behind the
-- end of the buffer.
unfoldable pub writen : Bool → ℕ → ℕ → List WriteCall → Option WriteResult
writen ssl len n [] = some (wrote n)
writen ssl len n (write_would_block ∷ calls) = some (wrote n)
writen ssl len n (write_gives_up ∷ calls) =
    if ltb n len then some (failed_after n) else some (wrote n)
writen ssl len n (takes k ∷ calls) = elim (ltb n len) [
  | false ↦ some (wrote n)
  | true ↦ elim (ltb len (n + k)) [ true ↦ none | false ↦ writen ssl len (n + k) calls ]
]

pub record WriteBuffer : Type 0 where
  pub str : Bytes
  pub len : ℕ
  pub write_len : ℕ

abbrev pub write_buffer : Bytes → WriteBuffer
write_buffer str = record { str = str; len = length str; write_len = 0 }

-- The fields that `Flush` and the writes use. `fd` is none where `fd_` is negative; `upgraded` is
-- the request's status, `finish` the response's flag.
pub record Connection : Type 0 where
  pub fd : Option ℕ
  pub write_buffer_chain : List WriteBuffer
  pub upgraded : Bool
  pub finish : Bool

-- `WriteString`; `WriteData` does the same with the bytes of a vector.
abbrev pub write_string : Connection → Bytes → Connection
write_string c [] = c
write_string c (b ∷ str) = elim c.fd [
  | none ↦ c
  | some fd ↦ record c {
    write_buffer_chain = c.write_buffer_chain ++ (write_buffer (b ∷ str) ∷ []);
  }
]

-- What the loop of `Flush` leaves: the status it returns, if it does, the queue, and the bytes that
-- went out.
pub record Flushed : Type 0 where
  pub returned : Option ConnStatus
  pub chain : List WriteBuffer
  pub sent : Bytes

-- The loop of `Flush` on what the calls of `Writen` do; where they end, the next one returns 0. Where
-- one returns -1, `write_len` does not learn of the bytes that have gone out.
unfoldable pub flush_chain : List WriteBuffer → List WriteResult → Flushed
flush_chain [] results = record { returned = none; chain = []; sent = [] }
flush_chain (wb ∷ chain) [] = record { returned = some again; chain = wb ∷ chain; sent = [] }
flush_chain (wb ∷ chain) (failed_after n ∷ results) = record {
  returned = some error;
  chain = wb ∷ chain;
  sent = take n (drop wb.write_len wb.str);
}
flush_chain (wb ∷ chain) (wrote n ∷ results) =
    let out = take n (drop wb.write_len wb.str) in
    let written = record wb { write_len = wb.write_len + n } in
    let rest = flush_chain chain results in
    if wb.write_len + n == wb.len
    then record rest { sent = out ++ rest.sent }
    else record { returned = some again; chain = written ∷ chain; sent = out }

unfoldable pub flush : Connection → List WriteResult → ConnStatus × Connection × Bytes
unfolding flush_chain
flush c results =
    let loop = flush_chain c.write_buffer_chain results in
    let done : ConnStatus = if c.upgraded then upgrade else (if c.finish then end else again) in
    let status : ConnStatus = elim loop.returned [ some s ↦ s | none ↦ done ] in
    elim c.fd [
      | none ↦ (close, c, [])
      | some fd ↦ (status, record c { write_buffer_chain = loop.chain }, loop.sent)
    ]
