-- ===== src/EventLoop/Serving.antt =====
-- event_loop.cpp: the rounds of the workers keep the pool in agreement with the sockets.
use mevent.Connection.{WriteResult}
use mevent.Common.{
  ℕ, Bytes, List, [], ◌∷◌, ◌==◌, ◌||◌, Option, some, none, inl, inr, Bool-cases, Option-cases,
  Whenever,
}
use mevent.HttpHandler.{get_handle_func}
use mevent.Connection.Whole.{flush_conn}
use mevent.WebSocket
use mevent.WebSocket.{TaskItem, binary_frame, continuation, text_frame, ping, pong}
use mevent.EventLoop.{EventLoop, Handlers, WebSocketTask, set_conn}
use mevent.EventLoop.Workers.{
  not_found, handle, finish_response, write_out, serve, worker_round, worker, call_frame,
  call_close, dispatch, web_socket_serve, web_socket_round, web_socket_worker,
}
use mevent.EventLoop.Frames.{flush_conn-fd, not_found-fd, finish_response-fd}
use mevent.EventLoop.Sound.{IsSound, Same-IsSound, AreTame, Effect-IsSound, settle_written-IsSound}
use mevent.EventLoop.Handling.{set_conn-IsSound}

module _ (h : Handlers) (t : AreTame h) where
  write_out-IsSound :
      (lp : EventLoop) (c : ℕ) (writes : List WriteResult)
      → IsSound lp
      → Whenever IsSound (write_out h lp c writes)
  unfolding write_out
  write_out-IsSound lp c writes v =
      let (status, conn, sent) = flush_conn (lp.conns c) writes in
      settle_written-IsSound h t status (set_conn lp c conn) c
        (set_conn-IsSound lp c conn (flush_conn-fd (lp.conns c) writes) v)

  handle-IsSound :
      (lp : EventLoop) (c : ℕ) (date : Bytes) → IsSound lp → IsSound (handle h lp c date)
  unfolding handle
  handle-IsSound lp c date v =
      elim (Option-cases (get_handle_func lp.handler (lp.conns c).req.path)) [
        | inl e ↦
            rw (handle, e)
              (set_conn-IsSound lp c (not_found (lp.conns c) date) (not_found-fd (lp.conns c) date)
                v)
        | inr (f, e) ↦ rw (handle, e) (Effect-IsSound h t (t.requests f c lp) v)
      ]

  serve-IsSound :
      (lp : EventLoop) (c : ℕ) (date : Bytes) (writes : List WriteResult)
      → IsSound lp
      → Whenever IsSound (serve h lp c date writes)
  unfolding serve
  serve-IsSound lp c date writes v = elim (Option-cases (lp.conns c).io.fd) [
    | inl shut ↦ rw (serve, shut) v
    | inr (fd, e) ↦
        let handled = handle h lp c date in
        let conn = finish_response (handled.conns c) date in
        rw (serve, e)
          (write_out-IsSound (set_conn handled c conn) c writes (
            set_conn-IsSound handled c conn (finish_response-fd (handled.conns c) date)
              (handle-IsSound lp c date v)))
  ]

  worker_round-IsSound :
      (lp : EventLoop) (que : List ℕ) (date : Bytes) (writes : List WriteResult)
      → IsSound lp
      → Whenever IsSound (worker_round h lp que date writes)
  unfolding worker_round
  worker_round-IsSound lp [] date writes v = v
  worker_round-IsSound lp (c ∷ rest) date writes v =
      serve-IsSound (record lp { task_que = rest }) c date writes v

  pub worker-IsSound :
      (lp : EventLoop) (date : Bytes) (writes : List WriteResult)
      → IsSound lp
      → Whenever IsSound (worker h lp date writes)
  worker-IsSound lp date writes v = worker_round-IsSound lp lp.task_que date writes v

  call_frame-IsSound :
      (f : Option ℕ) (lp : EventLoop) (c : ℕ) (msg : Bytes)
      → IsSound lp
      → IsSound (call_frame f h lp c msg)
  call_frame-IsSound none lp c msg v = v
  call_frame-IsSound (some f) lp c msg v = Effect-IsSound h t (t.frames f c msg lp) v

  call_close-IsSound :
      (f : Option ℕ) (lp : EventLoop) (c : ℕ) → IsSound lp → IsSound (call_close f h lp c)
  call_close-IsSound none lp c v = v
  call_close-IsSound (some f) lp c v = Same-IsSound lp (h.on_close f c lp) (t.closes f c lp) v

  dispatch-IsSound :
      (lp : EventLoop) (c : ℕ) (item : TaskItem) → IsSound lp → IsSound (dispatch h lp c item)
  unfolding dispatch
  dispatch-IsSound lp c item v =
      let callbacks = (lp.conns c).callbacks in
      let message = call_frame-IsSound callbacks.on_message_func lp c item.msg v in
      let pinged = call_frame-IsSound callbacks.ping_func lp c item.msg v in
      let ponged = call_frame-IsSound callbacks.pong_func lp c item.msg v in
      let closed = call_close-IsSound callbacks.on_close_func lp c v in
      elim (Bool-cases
        (item.opcode == binary_frame || item.opcode == continuation || item.opcode == text_frame)) [
          | inl a ↦ rw (dispatch, a) message
          | inr a ↦ elim (Bool-cases (item.opcode == ping)) [
            | inl b ↦ rw (dispatch, a, b) pinged
            | inr b ↦ elim (Bool-cases (item.opcode == pong)) [
              | inl d ↦ rw (dispatch, a, b, d) ponged
              | inr d ↦ elim (Bool-cases (item.opcode == WebSocket.close)) [
                | inl e ↦ rw (dispatch, a, b, d, e) closed
                | inr e ↦ rw (dispatch, a, b, d, e) v
              ]
            ]
          ]
        ]

  web_socket_serve-IsSound :
      (lp : EventLoop) (task : WebSocketTask) (writes : List WriteResult)
      → IsSound lp
      → Whenever IsSound (web_socket_serve h lp task writes)
  unfolding web_socket_serve
  web_socket_serve-IsSound lp task writes v = elim (Option-cases (lp.conns task.conn).io.fd) [
    | inl shut ↦ rw (web_socket_serve, shut) v
    | inr (fd, e) ↦
        rw (web_socket_serve, e)
          (write_out-IsSound (dispatch h lp task.conn task.item) task.conn writes
            (dispatch-IsSound lp task.conn task.item v))
  ]

  web_socket_round-IsSound :
      (lp : EventLoop) (que : List WebSocketTask) (writes : List WriteResult)
      → IsSound lp
      → Whenever IsSound (web_socket_round h lp que writes)
  unfolding web_socket_round
  web_socket_round-IsSound lp [] writes v = v
  web_socket_round-IsSound lp (task ∷ rest) writes v =
      web_socket_serve-IsSound (record lp { ws_task_que = rest }) task writes v

  pub web_socket_worker-IsSound :
      (lp : EventLoop) (writes : List WriteResult)
      → IsSound lp
      → Whenever IsSound (web_socket_worker h lp writes)
  web_socket_worker-IsSound lp writes v = web_socket_round-IsSound lp lp.ws_task_que writes v
