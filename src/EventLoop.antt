-- ===== src/EventLoop.antt =====
-- event_loop.h and event_loop.cpp: the state of an event loop and the operations on one of its
-- connections. A connection is its number in the pool, and `conns` are the objects. The functions
-- that the library's user registers are numbers too, and a `Handlers` says what each does.
-- `none` is the exception that a call of an empty `std::function` throws, or undefined behaviour
-- in a parser. The calls of `Modify` change only what the kernel watches.
pub mod Events
pub mod Workers
pub mod Timeout
pub mod Frames
pub mod Sound
pub mod Handling
pub mod Serving
pub mod Admission
pub mod Stale
pub mod Idle
pub mod Drained
pub mod Setup
pub mod Loop
pub mod Steps
pub mod Consistency
use mevent.Common.{
  ℕ, Bool, true, false, Bytes, List, [], ◌∷◌, ◌++◌, ◌==◌, if◌then◌else◌, map, Option, some, none,
}
use mevent.TernarySearchTree.{Node}
use mevent.WebSocket.{TaskItem}
use mevent.ConnectionPool.{ConnectionPool, free_list_push, active_list_erase}
use mevent.Connection.{ConnStatus}
use mevent.Connection.Whole.{Conn, is_upgrade, is_positive, reset, flush_conn}

-- `WebSocketTaskItem`, with the number of the connection whose websocket it names.
pub record WebSocketTask : Type 0 where
  pub conn : ℕ
  pub item : TaskItem

pub record EventLoop : Type 0 where
  pub conn_pool : ConnectionPool
  pub conns : ℕ → Conn
  pub task_que : List ℕ
  pub ws_task_que : List WebSocketTask
  pub handler : Node ℕ
  pub max_post_size : ℕ
  pub max_header_size : ℕ
  pub idle_timeout : ℕ

-- What the registered functions do, with the connection that they are called on.
pub record Handlers : Type 0 where
  pub on_request : ℕ → ℕ → EventLoop → EventLoop
  pub on_frame : ℕ → ℕ → Bytes → EventLoop → EventLoop
  pub on_close : ℕ → ℕ → EventLoop → EventLoop

abbrev pub set_conn : EventLoop → ℕ → Conn → EventLoop
set_conn lp c conn = record lp { conns = λ d. if c == d then conn else lp.conns d }

abbrev pub task_push : EventLoop → ℕ → EventLoop
task_push lp c = record lp { task_que = lp.task_que ++ c ∷ [] }

-- The calls of `WebSocketTaskPush` for the messages of one read.
abbrev pub web_socket_task_push : EventLoop → ℕ → List TaskItem → EventLoop
web_socket_task_push lp c items = record lp {
  ws_task_que = lp.ws_task_que ++ map (λ item. record { conn = c; item = item }) items;
}

-- `OnClose` calls `on_close_func_` without asking whether it is set.
unfoldable pub on_close : Handlers → EventLoop → ℕ → Option EventLoop
on_close h lp c = elim (is_upgrade (lp.conns c).req.status) [
  | false ↦ some lp
  | true ↦ elim (lp.conns c).callbacks.on_close_func [
    | none ↦ none
    | some f ↦ some (h.on_close f c lp)
  ]
]

-- The three calls behind `OnClose`.
unfoldable pub retire : EventLoop → ℕ → EventLoop
retire lp c = record (set_conn lp c (reset (lp.conns c))) {
  conn_pool = active_list_erase (free_list_push lp.conn_pool c) c;
}

unfoldable pub reset_connection : Handlers → EventLoop → ℕ → Option EventLoop
unfolding on_close retire
reset_connection h lp c = elim (is_positive (lp.conns c).io.fd) [
  | false ↦ some lp
  | true ↦ elim (on_close h lp c) [ none ↦ none | some lp' ↦ some (retire lp' c) ]
]

-- `Connection::Close`; `none` is also the call on a null `elp_`.
unfoldable pub close : Handlers → EventLoop → ℕ → Option EventLoop
close h lp c = elim (lp.conns c).attached [ true ↦ reset_connection h lp c | false ↦ none ]

-- The test `status != ConnStatus::AGAIN` behind a read or a write.
unfoldable pub settle : ConnStatus → Handlers → EventLoop → ℕ → Option EventLoop
settle ConnStatus.again h lp c = some lp
settle ConnStatus.upgrade h lp c = reset_connection h lp c
settle ConnStatus.end h lp c = reset_connection h lp c
settle ConnStatus.error h lp c = reset_connection h lp c
settle ConnStatus.close h lp c = reset_connection h lp c

-- The tests on the status of the two workers: `Modify` where the socket was not watched for writing,
-- nothing for an upgraded connection.
unfoldable pub settle_written : ConnStatus → Handlers → EventLoop → ℕ → Option EventLoop
settle_written ConnStatus.again h lp c =
    some (set_conn lp c (record (lp.conns c) { ev_writable = true }))
settle_written ConnStatus.upgrade h lp c = some lp
settle_written ConnStatus.end h lp c = reset_connection h lp c
settle_written ConnStatus.error h lp c = reset_connection h lp c
settle_written ConnStatus.close h lp c = reset_connection h lp c
