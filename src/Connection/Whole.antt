-- ===== src/Connection/Whole.antt =====
-- connection.h and connection.cpp: the whole object of a connection, and the operations that work on
-- its request, response and websocket together. `now` is what `time` gives; the results of the
-- calls of `Readn` and `Writen` are arguments.
use mevent.Common.{ℕ, zero, suc, Bool, true, false, Bytes, List, [], Option, some, none}
use mevent.Connection.{WriteResult, ConnStatus, Connection, flush}
use mevent.Request
use mevent.Request.{
  Request, RequestStatus, header_receiving, body_receiving, body_received, upgrade,
}
use mevent.Request.Read
use mevent.Response
use mevent.Response.{Response}
use mevent.WebSocket
use mevent.WebSocket.{WebSocket, TaskItem}
use mevent.WebSocket.Send

-- The functions that a websocket's user sets, by number; `none` is an empty `std::function`.
pub record Callbacks : Type 0 where
  pub on_message_func : Option ℕ
  pub ping_func : Option ℕ
  pub pong_func : Option ℕ
  pub on_close_func : Option ℕ

abbrev pub no_callbacks : Callbacks
no_callbacks = record {
  on_message_func = none;
  ping_func = none;
  pong_func = none;
  on_close_func = none;
}

-- `io` holds `fd_`, the write queue and the response's `finish_`; its field `upgraded` is set where
-- `Flush` reads it. `attached` is false where `elp_` is `NULL`.
pub record Conn : Type 0 where
  pub io : Connection
  pub req : Request
  pub resp : Response
  pub ws : WebSocket
  pub callbacks : Callbacks
  pub active_time : ℕ
  pub ev_writable : Bool
  pub ssl : Bool
  pub attached : Bool

abbrev pub is_upgrade : RequestStatus → Bool
is_upgrade header_receiving = false
is_upgrade body_receiving = false
is_upgrade body_received = false
is_upgrade upgrade = true

unfoldable pub flush_conn : Conn → List WriteResult → ConnStatus × Conn × Bytes
flush_conn c results =
    let (status, io, sent) = flush (record c.io { upgraded = is_upgrade c.req.status }) results in
    (status, record c { io = io }, sent)

-- What `ReadData` returns, the connection, and the tasks that it has pushed.
pub record ConnRead : Type 0 where
  pub result : ConnStatus
  pub conn : Conn
  pub task_pushed : Bool
  pub tasks : List TaskItem

-- `req_.ReadData()` and `ws_.ReadData()`.
abbrev pub request_read : ℕ → ℕ → Conn → List (Option Bytes) → ConnRead
request_read max_header_size max_post_size c reads =
    let r = Request.Read.read_data max_header_size max_post_size c.req reads in
    record {
      result = r.result;
      conn = record c { req = r.request };
      task_pushed = r.task_pushed;
      tasks = [];
    }

abbrev pub websocket_read : Conn → List (Option Bytes) → Option ConnRead
websocket_read c reads = elim (WebSocket.Send.read_data c.ws [] reads) [
  | none ↦ none
  | some (status, ws, tasks) ↦
      some (record {
        result = status;
        conn = record c { ws = ws };
        task_pushed = false;
        tasks = tasks;
      })
]

-- `Connection::ReadData`; `none` is undefined behaviour in the websocket's parser.
unfoldable pub read_data : ℕ → ℕ → ℕ → Conn → List (Option Bytes) → Option ConnRead
read_data max_header_size max_post_size now c reads =
    let seen = record c { active_time = now } in
    elim c.io.fd [
      | none ↦
          some (record { result = ConnStatus.close; conn = c; task_pushed = false; tasks = [] })
      | some fd ↦ elim (is_upgrade c.req.status) [
        | true ↦ websocket_read seen reads
        | false ↦ some (request_read max_header_size max_post_size seen reads)
      ]
    ]

-- `fd_ > 0`.
abbrev pub is_positive : Option ℕ → Bool
is_positive none = false
is_positive (some zero) = false
is_positive (some (suc fd)) = true

unfoldable pub keepalive : Conn → Conn
keepalive c =
    let answered = Response.reset c.resp c.io in
    elim c.io.fd [
      | none ↦ c
      | some fd ↦ record c { req = Request.keepalive c.req; resp = answered.0; io = answered.1 }
    ]

abbrev pub closed_fd : Option ℕ → Option ℕ
closed_fd none = none
closed_fd (some zero) = some 0
closed_fd (some (suc fd)) = none

unfoldable pub reset : Conn → Conn
reset c = record {
  io = record { fd = closed_fd c.io.fd; write_buffer_chain = []; upgraded = false; finish = false };
  req = Request.reset c.req;
  resp = (Response.reset c.resp c.io).0;
  ws = WebSocket.reset;
  callbacks = no_callbacks;
  active_time = 0;
  ev_writable = false;
  ssl = false;
  attached = false;
}
