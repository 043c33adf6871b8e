-- ===== src/HttpServer/Configured.antt =====
-- http_server.cpp: whatever settings are called, the loops run with those of the server.
use mevent.Common.{
  ℕ, zero, suc, ◌*◌, ◌≤◌, ◌<◌, ◌≡◌, refl, Bytes, List, [], ◌∷◌, some, lt→ltb, ℤ, pos, negsuc, arith,
  All, length,
}
use mevent.HttpServer.{
  HttpServer, http_server, set_handler, set_rlimit_nofile, set_user, set_worker_threads,
  set_max_worker_connections, set_idle_timeout, set_max_header_size, set_max_post_size,
  loop_settings, event_loop_thread, event_loop_threads, Served, listen_and_serve,
}
use mevent.EventLoop.{EventLoop}
use mevent.EventLoop.Setup
use mevent.EventLoop.Setup.{LoopSettings}
use mevent.EventLoop.Steps.{IsStart}

-- A call of one of the server's settings.
pub data Setting : Type 0 where
  handler : Bytes → ℕ → Setting
  user : Bytes → Setting
  rlimit_nofile worker_threads max_worker_connections idle_timeout : ℤ → Setting
  max_header_size max_post_size : ℕ → Setting

abbrev pub apply : HttpServer → Setting → HttpServer
apply server (Setting.handler name func) = set_handler server name func
apply server (Setting.user name) = set_user server name
apply server (Setting.rlimit_nofile num) = set_rlimit_nofile server num
apply server (Setting.worker_threads num) = set_worker_threads server num
apply server (Setting.max_worker_connections num) = set_max_worker_connections server num
apply server (Setting.idle_timeout secs) = set_idle_timeout server secs
apply server (Setting.max_header_size size) = set_max_header_size server size
apply server (Setting.max_post_size size) = set_max_post_size server size

abbrev pub configure : HttpServer → List Setting → HttpServer
configure server [] = server
configure server (s ∷ settings) = configure (apply server s) settings

abbrev IsPositive : HttpServer → Type 0
IsPositive server =
    (1 ≤ server.worker_threads) × (1 ≤ server.max_worker_connections) × (1 ≤ server.idle_timeout)

set_worker_threads-IsPositive :
    (server : HttpServer) (num : ℤ) → IsPositive server → IsPositive (set_worker_threads server num)
unfolding set_worker_threads
set_worker_threads-IsPositive server (negsuc n) v = v
set_worker_threads-IsPositive server (pos zero) v = v
set_worker_threads-IsPositive server (pos (suc n)) v = (omega arith, v.1, v.2)

set_max_worker_connections-IsPositive :
    (server : HttpServer) (num : ℤ)
    → IsPositive server
    → IsPositive (set_max_worker_connections server num)
unfolding set_max_worker_connections
set_max_worker_connections-IsPositive server (negsuc n) v = v
set_max_worker_connections-IsPositive server (pos zero) v = v
set_max_worker_connections-IsPositive server (pos (suc n)) v = (v.0, omega arith, v.2)

set_idle_timeout-IsPositive :
    (server : HttpServer) (secs : ℤ) → IsPositive server → IsPositive (set_idle_timeout server secs)
unfolding set_idle_timeout
set_idle_timeout-IsPositive server (negsuc n) v = v
set_idle_timeout-IsPositive server (pos zero) v = v
set_idle_timeout-IsPositive server (pos (suc n)) v = (v.0, v.1, omega arith)

apply-IsPositive :
    (server : HttpServer) (s : Setting) → IsPositive server → IsPositive (apply server s)
apply-IsPositive server (Setting.handler name func) v = v
apply-IsPositive server (Setting.user name) v = v
apply-IsPositive server (Setting.rlimit_nofile num) v = v
apply-IsPositive server (Setting.worker_threads num) v = set_worker_threads-IsPositive server num v
apply-IsPositive server (Setting.max_worker_connections num) v =
    set_max_worker_connections-IsPositive server num v
apply-IsPositive server (Setting.idle_timeout secs) v = set_idle_timeout-IsPositive server secs v
apply-IsPositive server (Setting.max_header_size size) v = v
apply-IsPositive server (Setting.max_post_size size) v = v

configure-IsPositive :
    (server : HttpServer) (settings : List Setting)
    → IsPositive server
    → IsPositive (configure server settings)
configure-IsPositive server [] v = v
configure-IsPositive server (s ∷ settings) v =
    configure-IsPositive (apply server s) settings (apply-IsPositive server s v)

-- A loop that has the server's settings and has not begun.
pub record Runs (server : HttpServer) (lp : EventLoop) : Type 0 where
  pub start : IsStart lp server.max_worker_connections
  pub handlers : lp.handler ≡ server.handler
  pub timeout : lp.idle_timeout ≡ server.idle_timeout
  pub post_size : lp.max_post_size ≡ server.max_post_size
  pub header_size : lp.max_header_size ≡ server.max_header_size

taken_connections :
    (s : LoopSettings) (n : ℕ)
    → 1 ≤ n
    → Setup.set_max_worker_connections s (pos n) ≡ record s { max_worker_connections = n }
unfolding Setup.set_max_worker_connections
taken_connections s zero h = absurd (omega (arith, h))
taken_connections s (suc n) h = refl

taken_timeout :
    (s : LoopSettings) (n : ℕ)
    → 1 ≤ n
    → Setup.set_idle_timeout s (pos n) ≡ record s { idle_timeout = n }
unfolding Setup.set_idle_timeout
taken_timeout s zero h = absurd (omega (arith, h))
taken_timeout s (suc n) h = refl

event_loop_thread-Runs :
    (server : HttpServer) → IsPositive server → Runs server (event_loop_thread server)
unfolding loop_settings
event_loop_thread-Runs server v =
    let secured = Setup.set_ssl_ctx Setup.event_loop server.ssl_ctx in
    let pooled = record secured { max_worker_connections = server.max_worker_connections } in
    rw
      (
        loop_settings,
        taken_connections secured server.max_worker_connections v.1,
        taken_timeout pooled server.idle_timeout v.2,
      )
      (record {
        start = record { pool = refl; fds = λ c. refl };
        handlers = refl;
        timeout = refl;
        post_size = refl;
        header_size = refl;
      })

event_loop_threads-Runs :
    (n : ℕ) (server : HttpServer)
    → IsPositive server
    → All (Runs server) (event_loop_threads n server) × (length (event_loop_threads n server) ≡ n)
unfolding event_loop_threads
event_loop_threads-Runs zero server v = (tt, refl)
event_loop_threads-Runs (suc n) server v =
    let (rest, count) = event_loop_threads-Runs n server v in
    ((event_loop_thread-Runs server v, rest), omega (arith, count))

-- Whatever settings of a new server are called, with whatever arguments: if the number of its
-- threads times that of its connections fits an `int`, `ListenAndServe` starts that many loops, at
-- least one, each at its start and with the handlers, the idle time, the sizes and the number of
-- connections of the server; the idle time is at least 1, and the limit of files is the product,
-- whatever `SetRlimitNofile` was called with.
pub configure-listen_and_serve :
    (settings : List Setting)
    → let server = configure http_server settings in
      server.worker_threads * server.max_worker_connections < 0x80000000
      → (s : Served) × (listen_and_serve server ≡ some s)
        × (length s.loops ≡ server.worker_threads)
        × All (Runs s.server) s.loops
        × (1 ≤ server.worker_threads)
        × (1 ≤ server.idle_timeout)
        × (s.server ≡ record server {
          rlimit_nofile = pos (server.worker_threads * server.max_worker_connections);
        })
unfolding listen_and_serve
configure-listen_and_serve settings small =
    let server = configure http_server settings in
    let product = server.worker_threads * server.max_worker_connections in
    let v = configure-IsPositive http_server settings (omega arith, omega arith, omega arith) in
    let limited = record server { rlimit_nofile = pos product } in
    let (runs, count) = event_loop_threads-Runs server.worker_threads limited v in
    (
      record { server = limited; loops = event_loop_threads server.worker_threads limited },
      rw (listen_and_serve, lt→ltb product 0x80000000 small) refl,
      count,
      runs,
      v.0,
      v.2,
      refl,
    )
