-- ===== src/WebSocket.antt =====
-- websocket.h and websocket.cpp: the data of a websocket connection.
pub mod Send
pub mod Frame
pub mod Parse
pub mod Wire
pub mod Handshake
use mevent.Common.{ℕ, [], Bytes}

-- `WebSocketOpcodeType`. The parser casts any four bits to it, so an opcode is a number.
abbrev pub continuation : ℕ
continuation = 0x0

abbrev pub text_frame : ℕ
text_frame = 0x1

abbrev pub binary_frame : ℕ
binary_frame = 0x2

abbrev pub close : ℕ
close = 0x8

abbrev pub ping : ℕ
ping = 0x9

abbrev pub pong : ℕ
pong = 0xa

-- `WebSocketTaskItem`. Its `ws` is the websocket that pushes it.
pub record TaskItem : Type 0 where
  pub opcode : ℕ
  pub msg : Bytes

-- The fields of `WebSocket` that the parser works on.
pub record WebSocket : Type 0 where
  pub max_buffer_size : ℕ
  pub rbuf : Bytes
  pub cache_str : Bytes

-- `WebSocket::Reset`, for these fields.
pub reset : WebSocket
reset = record { max_buffer_size = 8192; rbuf = []; cache_str = [] }
