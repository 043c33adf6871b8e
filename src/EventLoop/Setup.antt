-- ===== src/EventLoop/Setup.antt =====
-- event_loop.cpp: the constructor, the settings, and the state with which `Loop` begins; a setting
-- that the code checks is positive, so the fields are natural numbers.
use mevent.Common.{ℕ, zero, suc, Bool, false, [], none, ℤ, pos, negsuc}
use mevent.TernarySearchTree.{Node}
use mevent.ConnectionPool.{connection_pool}
use mevent.Connection.Whole.{Conn, no_callbacks}
use mevent.Request.{new_request}
use mevent.WebSocket
use mevent.EventLoop.{EventLoop}

-- The fields of `EventLoop` that are set before `Loop`, the handler apart.
pub record LoopSettings : Type 0 where
  pub worker_threads : ℕ
  pub max_worker_connections : ℕ
  pub idle_timeout : ℕ
  pub max_post_size : ℕ
  pub max_header_size : ℕ
  pub ssl_ctx : Bool

abbrev pub event_loop : LoopSettings
event_loop = record {
  worker_threads = 1;
  max_worker_connections = 1024;
  idle_timeout = 30;
  max_post_size = 8192;
  max_header_size = 2048;
  ssl_ctx = false;
}

abbrev pub set_ssl_ctx : LoopSettings → Bool → LoopSettings
set_ssl_ctx s ssl_ctx = record s { ssl_ctx = ssl_ctx }

-- A number below 1 is ignored.
unfoldable pub set_idle_timeout : LoopSettings → ℤ → LoopSettings
set_idle_timeout s (negsuc n) = s
set_idle_timeout s (pos zero) = s
set_idle_timeout s (pos (suc n)) = record s { idle_timeout = suc n }

unfoldable pub set_max_worker_connections : LoopSettings → ℤ → LoopSettings
set_max_worker_connections s (negsuc n) = s
set_max_worker_connections s (pos zero) = s
set_max_worker_connections s (pos (suc n)) = record s { max_worker_connections = suc n }

abbrev pub set_max_post_size : LoopSettings → ℕ → LoopSettings
set_max_post_size s size = record s { max_post_size = size }

abbrev pub set_max_header_size : LoopSettings → ℕ → LoopSettings
set_max_header_size s size = record s { max_header_size = size }

-- `Connection::Connection`, with the constructors of its members.
abbrev pub new_conn : Conn
new_conn = record {
  io = record { fd = none; write_buffer_chain = []; upgraded = false; finish = false };
  req = new_request;
  resp = record { header_map = []; wbuf = [] };
  ws = WebSocket.reset;
  callbacks = no_callbacks;
  active_time = 0;
  ev_writable = false;
  ssl = false;
  attached = false;
}

-- The state in which `Loop` starts its threads.
abbrev pub loop : LoopSettings → Node ℕ → EventLoop
loop s handler = record {
  conn_pool = connection_pool s.max_worker_connections;
  conns = λ c. new_conn;
  task_que = [];
  ws_task_que = [];
  handler = handler;
  max_post_size = s.max_post_size;
  max_header_size = s.max_header_size;
  idle_timeout = s.idle_timeout;
}
