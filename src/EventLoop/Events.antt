-- ===== src/EventLoop/Events.antt =====
-- event_loop.cpp: the handlers of the events of a socket, `Accept`, and a round of `Loop`.
use mevent.Common.{
  ℕ, Bool, true, false, Bytes, List, [], ◌∷◌, ◌==◌, if◌then◌else◌, Option, some, none,
}
use mevent.ConnectionPool.{free_list_pop, free_list_push, active_list_push, active_list_update}
use mevent.Connection.{WriteResult, ConnStatus}
use mevent.Connection.Whole.{Conn, ConnRead, flush_conn, read_data, reset}
use mevent.Response.{write_error_message}
use mevent.EventLoop.{EventLoop, Handlers, set_conn, task_push, web_socket_task_push, settle}

-- What the calls of one event give: the time, its text, and the results of the reads and writes.
pub record Io : Type 0 where
  pub now : ℕ
  pub date : Bytes
  pub reads : List (Option Bytes)
  pub writes : List WriteResult

-- `WriteErrorMessage` and `Flush`.
unfoldable pub answer_error : Conn → Io → ConnStatus × Conn
answer_error conn io =
    let (resp, out) = write_error_message conn.resp conn.io conn.req.error_code io.date in
    let (status, conn', sent) = flush_conn (record conn { resp = resp; io = out }) io.writes in
    (status, conn')

-- The branch of `OnRead` on `ERROR`.
unfoldable pub after_read : ConnStatus → Conn → Io → ConnStatus × Conn
after_read ConnStatus.error conn io =
    if conn.req.error_code == 0 then (ConnStatus.error, conn) else answer_error conn io
after_read ConnStatus.again conn io = (ConnStatus.again, conn)
after_read ConnStatus.upgrade conn io = (ConnStatus.upgrade, conn)
after_read ConnStatus.end conn io = (ConnStatus.end, conn)
after_read ConnStatus.close conn io = (ConnStatus.close, conn)

-- The tasks that a read pushes.
unfoldable pub push_tasks : EventLoop → ℕ → ConnRead → EventLoop
push_tasks lp c r =
    let pushed = web_socket_task_push lp c r.tasks in
    if r.task_pushed then task_push pushed c else pushed

unfoldable pub on_read : Handlers → EventLoop → ℕ → Io → Option EventLoop
unfolding answer_error after_read push_tasks
on_read h lp c io =
    elim (read_data lp.max_header_size lp.max_post_size io.now (lp.conns c) io.reads) [
      | none ↦ none
      | some r ↦
          let (status, conn) = after_read r.result r.conn io in
          settle status h (set_conn (push_tasks lp c r) c conn) c
    ]

unfoldable pub on_write : Handlers → EventLoop → ℕ → Io → Option EventLoop
on_write h lp c io =
    let (status, conn, sent) = flush_conn (lp.conns c) io.writes in
    settle status h (set_conn lp c conn) c

-- An event of a connection's socket, as `Loop` takes it: `MEVENT_IN` is asked for first. This is the
-- serial run of its sections: `ActiveListUpdate` comes before the connection's mutex is taken, so
-- that another thread may run between it and `OnRead`, and within it between its two halves.
unfoldable pub on_event : Handlers → EventLoop → ℕ → Bool → Bool → Io → Option EventLoop
unfolding on_read on_write
on_event h lp c true event_out io =
    on_read h (record lp { conn_pool = active_list_update lp.conn_pool c }) c io
on_event h lp c false true io = on_write h lp c io
on_event h lp c false false io = some lp

-- What `accept` and the calls that set the new socket up give.
pub record Accepted : Type 0 where
  pub clifd : ℕ
  pub addr : ℕ
  pub now : ℕ
  pub set_up : Bool
  pub with_ssl : Bool

-- The assignments of `Accept` to the connection.
unfoldable pub attach : Conn → Accepted → Conn
attach conn a = record conn {
  active_time = a.now;
  io = record conn.io { fd = some a.clifd };
  attached = true;
  req = record conn.req { addr = a.addr };
  ssl = a.with_ssl;
}

-- The round behind `FreeListPop` with a connection.
unfoldable pub accept_conn : EventLoop → ℕ → Accepted → EventLoop
unfolding attach
accept_conn lp c a =
    let lp' = set_conn lp c (attach (lp.conns c) a) in
    elim a.set_up [
      | true ↦ record lp' { conn_pool = active_list_push lp'.conn_pool c }
      | false ↦ record (set_conn lp' c (reset (lp'.conns c))) {
        conn_pool = free_list_push lp'.conn_pool c;
      }
    ]

-- One round of `Accept`, and whether another follows.
unfoldable pub accept_one : EventLoop → Accepted → EventLoop × Bool
unfolding accept_conn
accept_one lp a =
    let (pool, conn) = free_list_pop lp.conn_pool in
    elim conn [
      | none ↦ (record lp { conn_pool = pool }, false)
      | some c ↦ (accept_conn (record lp { conn_pool = pool }) c a, true)
    ]

-- `Accept` on the sockets that `accept` gives until it would block.
unfoldable pub accept : EventLoop → List Accepted → EventLoop
unfolding accept_one
accept lp [] = lp
accept lp (a ∷ rest) =
    let (lp', more) = accept_one lp a in elim more [ true ↦ accept lp' rest | false ↦ lp' ]
