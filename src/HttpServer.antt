-- ===== src/HttpServer.antt =====
-- http_server.h and http_server.cpp: the settings of a server, and the loops that it starts. The
-- calls of the system that open the socket, change the user and set up TLS are in
-- HttpServer/Listening; `ssl_ctx` says whether there is a context for TLS.
pub mod Configured
pub mod Listening
use mevent.Common.{
  ℕ, zero, suc, ◌*◌, Bool, true, false, Bytes, List, [], ◌∷◌, Option, some, none, ltb, ℤ, pos,
  negsuc,
}
use mevent.TernarySearchTree.{Node, leaf}
use mevent.HttpHandler.{set_handle_func}
use mevent.EventLoop.{EventLoop}
use mevent.EventLoop.Setup
use mevent.EventLoop.Setup.{LoopSettings, event_loop, set_ssl_ctx, loop}

pub record HttpServer : Type 0 where
  pub handler : Node ℕ
  pub user : Bytes
  pub rlimit_nofile : ℤ
  pub worker_threads : ℕ
  pub max_worker_connections : ℕ
  pub idle_timeout : ℕ
  pub max_post_size : ℕ
  pub max_header_size : ℕ
  pub ssl_ctx : Bool

abbrev pub http_server : HttpServer
http_server = record {
  handler = leaf;
  user = [];
  rlimit_nofile = pos 0;
  worker_threads = 1;
  max_worker_connections = 1024;
  idle_timeout = 30;
  max_post_size = 8192;
  max_header_size = 2048;
  ssl_ctx = false;
}

abbrev pub set_handler : HttpServer → Bytes → ℕ → HttpServer
set_handler server name func = record server { handler = set_handle_func server.handler name func }

abbrev pub set_rlimit_nofile : HttpServer → ℤ → HttpServer
set_rlimit_nofile server num = record server { rlimit_nofile = num }

abbrev pub set_user : HttpServer → Bytes → HttpServer
set_user server user = record server { user = user }

unfoldable pub set_worker_threads : HttpServer → ℤ → HttpServer
set_worker_threads server (negsuc n) = server
set_worker_threads server (pos zero) = server
set_worker_threads server (pos (suc n)) = record server { worker_threads = suc n }

unfoldable pub set_max_worker_connections : HttpServer → ℤ → HttpServer
set_max_worker_connections server (negsuc n) = server
set_max_worker_connections server (pos zero) = server
set_max_worker_connections server (pos (suc n)) = record server { max_worker_connections = suc n }

unfoldable pub set_idle_timeout : HttpServer → ℤ → HttpServer
set_idle_timeout server (negsuc n) = server
set_idle_timeout server (pos zero) = server
set_idle_timeout server (pos (suc n)) = record server { idle_timeout = suc n }

abbrev pub set_max_header_size : HttpServer → ℕ → HttpServer
set_max_header_size server size = record server { max_header_size = size }

abbrev pub set_max_post_size : HttpServer → ℕ → HttpServer
set_max_post_size server size = record server { max_post_size = size }

-- The settings that `EventLoopThread` gives to its loop, and the loop that it runs.
unfoldable pub loop_settings : HttpServer → LoopSettings
loop_settings server =
    let secured = set_ssl_ctx event_loop server.ssl_ctx in
    let pooled = Setup.set_max_worker_connections secured (pos server.max_worker_connections) in
    let timed = Setup.set_idle_timeout pooled (pos server.idle_timeout) in
    Setup.set_max_post_size (Setup.set_max_header_size timed server.max_header_size)
      server.max_post_size

abbrev pub event_loop_thread : HttpServer → EventLoop
event_loop_thread server = loop (loop_settings server) server.handler

-- One loop for each thread.
unfoldable pub event_loop_threads : ℕ → HttpServer → List EventLoop
event_loop_threads zero server = []
event_loop_threads (suc n) server = event_loop_thread server ∷ event_loop_threads n server

pub record Served : Type 0 where
  pub server : HttpServer
  pub loops : List EventLoop

-- `ListenAndServe` once the socket listens; `none` is a product that overflows an `int`.
unfoldable pub listen_and_serve : HttpServer → Option Served
unfolding event_loop_threads
listen_and_serve server =
    let product = server.worker_threads * server.max_worker_connections in
    let limited = record server { rlimit_nofile = pos product } in
    elim (ltb product 0x80000000) [
      | true ↦
          some
            (record { server = limited; loops = event_loop_threads limited.worker_threads limited })
      | false ↦ none
    ]
