-- ===== src/WebSocket/Send.antt =====
-- websocket.cpp: the operations that send, and `ReadData`. The connection's queue is an argument; the
-- mutex makes a `Safe` operation one step.
use mevent.Common.{
  ℕ, Bool, true, false, ◌&&◌, if◌then◌else◌, ◌==◌, length, Bytes, List, [], ◌∷◌, ◌++◌, Option, some,
  none, ◌≡◌, refl, ◌∙◌, ap, ◌<◌, ◌^◌, arith,
}
use mevent.WebSocket.{WebSocket, TaskItem, text_frame, ping, pong}
use mevent.WebSocket.Frame.{make_frame}
use mevent.WebSocket.Parse.{parse, again, failed, undefined}
use mevent.WebSocket.Wire.{plain, wire_frame}
use mevent.WebSocket.Wire.Frames.{make_frame-wire_frame}
use mevent.Connection.{WriteResult, ConnStatus, Connection, write_string, flush}
use mevent.Connection.Queue.{pending, write_string-pending}

abbrev pub send_pong : Connection → Bytes → Connection
send_pong conn str = write_string conn (make_frame [] str pong)

abbrev pub send_ping : Connection → Bytes → Connection
send_ping conn str = write_string conn (make_frame [] str ping)

abbrev pub send_text : Connection → Bytes → Connection
send_text conn str = write_string conn (make_frame [] str text_frame)

abbrev is_error : ConnStatus → Bool
is_error ConnStatus.error = true
is_error s = false

abbrev is_close : ConnStatus → Bool
is_close ConnStatus.close = true
is_close s = false

-- The end of the four `Safe` operations: `Flush` and the test of its status.
abbrev pub flush_safe : Connection → List WriteResult → Bool × Connection × Bytes
flush_safe conn results =
    let (status, conn', sent) = flush conn results in
    (if is_error status && is_close status then false else true, conn', sent)

abbrev pub send_pong_safe : Connection → Bytes → List WriteResult → Bool × Connection × Bytes
send_pong_safe conn str results = flush_safe (send_pong conn str) results

abbrev pub send_ping_safe : Connection → Bytes → List WriteResult → Bool × Connection × Bytes
send_ping_safe conn str results = flush_safe (send_ping conn str) results

abbrev pub write_string_safe : Connection → Bytes → List WriteResult → Bool × Connection × Bytes
write_string_safe conn str results = flush_safe (send_text conn str) results

abbrev pub write_raw_data_safe : Connection → Bytes → List WriteResult → Bool × Connection × Bytes
write_raw_data_safe conn bytes results = flush_safe (write_string conn bytes) results

-- What `ReadData` returns, with the tasks pushed; `none` is undefined behaviour in `Parse`.
abbrev pub WebSocketRead : Type 0
WebSocketRead = Option (ConnStatus × WebSocket × List TaskItem)

-- `ReadData` on what the calls of `Readn` give: `none` is -1, and where they end, the next one is 0.
unfoldable pub read_data : WebSocket → List TaskItem → List (Option Bytes) → WebSocketRead
read_data ws tasks [] = some (ConnStatus.again, ws, tasks)
read_data ws tasks (none ∷ reads) = some (ConnStatus.close, ws, tasks)
read_data ws tasks (some buf ∷ reads) =
    if length buf == 0
    then some (ConnStatus.again, ws, tasks)
    else elim (parse (record ws { rbuf = ws.rbuf ++ buf })) [
      | none ↦ none
      | some undefined ↦ none
      | some (failed ws' more) ↦ some (ConnStatus.error, ws', tasks ++ more)
      | some (again ws' more) ↦ elim (length buf == 2048) [
        | true ↦ read_data ws' (tasks ++ more) reads
        | false ↦ some (ConnStatus.again, ws', tasks ++ more)
      ]
    ]

-- `WriteString` puts one text frame of RFC 6455 behind what waits on an open connection.
pub send_text-pending :
    (conn : Connection) (fd : ℕ) (str : Bytes)
    → conn.fd ≡ some fd
    → length str < 2 ^ 64
    → pending (send_text conn str).write_buffer_chain
      ≡ pending conn.write_buffer_chain ++ wire_frame true text_frame plain str
send_text-pending conn fd str e small =
    write_string-pending conn fd (make_frame [] str text_frame) e
    ∙ ap (λ frame. pending conn.write_buffer_chain ++ frame)
        (make_frame-wire_frame [] str text_frame (omega arith) small)

both_false : (s : ConnStatus) → (if is_error s && is_close s then false else true) ≡ true
both_false ConnStatus.again = refl
both_false ConnStatus.upgrade = refl
both_false ConnStatus.end = refl
both_false ConnStatus.error = refl
both_false ConnStatus.close = refl

-- `WriteStringSafe` returns true whatever becomes of the connection: its test asks for a status that is
-- `ERROR` and `CLOSE` at once, and `Flush` returning either of them goes unnoticed.
pub write_string_safe_always :
    (conn : Connection) (str : Bytes) (results : List WriteResult)
    → (write_string_safe conn str results).0 ≡ true
write_string_safe_always conn str results = both_false (flush (send_text conn str) results).0
