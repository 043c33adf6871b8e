-- ===== src/EventLoop/Workers.antt =====
-- event_loop.cpp: a round of `WorkerThread` and of `WebSocketWorkerThread`. The locks make a round
-- one step, and a wait on an empty queue changes nothing.
use mevent.Connection.{WriteResult}
use mevent.Common.{ℕ, Bytes, List, [], ◌∷◌, ◌==◌, ◌||◌, if◌then◌else◌, Option, some, none}
use mevent.HttpHandler.{get_handle_func}
use mevent.WebSocket
use mevent.WebSocket.{TaskItem, binary_frame, continuation, text_frame, ping, pong}
use mevent.Connection.Whole.{Conn, is_upgrade, flush_conn}
use mevent.Response
use mevent.Response.{write_error_message}
use mevent.EventLoop.{EventLoop, Handlers, WebSocketTask, set_conn, settle_written}

-- `WriteErrorMessage(404)` on the connection's response.
unfoldable pub not_found : Conn → Bytes → Conn
not_found conn date =
    let (resp, io) = write_error_message conn.resp conn.io 404 date in
    record conn { resp = resp; io = io }

-- The handler of the request's path, or the answer that there is none.
unfoldable pub handle : Handlers → EventLoop → ℕ → Bytes → EventLoop
unfolding not_found
handle h lp c date = elim (get_handle_func lp.handler (lp.conns c).req.path) [
  | some f ↦ h.on_request f c lp
  | none ↦ set_conn lp c (not_found (lp.conns c) date)
]

-- `resp->Flush()`, unless the handler has upgraded the connection.
unfoldable pub finish_response : Conn → Bytes → Conn
finish_response conn date =
    let (resp, io) = Response.flush conn.resp conn.io date in
    if is_upgrade conn.req.status then conn else record conn { resp = resp; io = io }

-- `conn->Flush()` and what the status leads to.
unfoldable pub write_out : Handlers → EventLoop → ℕ → List WriteResult → Option EventLoop
write_out h lp c writes =
    let (status, conn, sent) = flush_conn (lp.conns c) writes in
    settle_written status h (set_conn lp c conn) c

-- The round on a connection from the queue, under its lock.
unfoldable pub serve : Handlers → EventLoop → ℕ → Bytes → List WriteResult → Option EventLoop
unfolding handle finish_response write_out
serve h lp c date writes =
    let handled = handle h lp c date in
    elim (lp.conns c).io.fd [
      | none ↦ some lp
      | some fd ↦ write_out h (set_conn handled c (finish_response (handled.conns c) date)) c writes
    ]

unfoldable pub worker_round :
    Handlers → EventLoop → List ℕ → Bytes → List WriteResult → Option EventLoop
unfolding serve
worker_round h lp [] date writes = some lp
worker_round h lp (c ∷ rest) date writes = serve h (record lp { task_que = rest }) c date writes

-- One round of `WorkerThread`.
abbrev pub worker : Handlers → EventLoop → Bytes → List WriteResult → Option EventLoop
worker h lp date writes = worker_round h lp lp.task_que date writes

-- A call of a function that is set.
abbrev pub call_frame : Option ℕ → Handlers → EventLoop → ℕ → Bytes → EventLoop
call_frame none h lp c msg = lp
call_frame (some f) h lp c msg = h.on_frame f c msg lp

abbrev pub call_close : Option ℕ → Handlers → EventLoop → ℕ → EventLoop
call_close none h lp c = lp
call_close (some f) h lp c = h.on_close f c lp

-- The branches on the opcode of a task.
unfoldable pub dispatch : Handlers → EventLoop → ℕ → TaskItem → EventLoop
dispatch h lp c item =
    let callbacks = (lp.conns c).callbacks in
    if item.opcode == binary_frame || item.opcode == continuation || item.opcode == text_frame
    then call_frame callbacks.on_message_func h lp c item.msg
    else if item.opcode == ping
    then call_frame callbacks.ping_func h lp c item.msg
    else if item.opcode == pong
    then call_frame callbacks.pong_func h lp c item.msg
    else if item.opcode == WebSocket.close
    then call_close callbacks.on_close_func h lp c
    else lp

unfoldable pub web_socket_serve :
    Handlers → EventLoop → WebSocketTask → List WriteResult → Option EventLoop
unfolding dispatch write_out
web_socket_serve h lp task writes = elim (lp.conns task.conn).io.fd [
  | none ↦ some lp
  | some fd ↦ write_out h (dispatch h lp task.conn task.item) task.conn writes
]

unfoldable pub web_socket_round :
    Handlers → EventLoop → List WebSocketTask → List WriteResult → Option EventLoop
unfolding web_socket_serve
web_socket_round h lp [] writes = some lp
web_socket_round h lp (task ∷ rest) writes =
    web_socket_serve h (record lp { ws_task_que = rest }) task writes

-- One round of `WebSocketWorkerThread`.
abbrev pub web_socket_worker : Handlers → EventLoop → List WriteResult → Option EventLoop
web_socket_worker h lp writes = web_socket_round h lp lp.ws_task_que writes
