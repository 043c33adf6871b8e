-- ===== src/Examples/Pages.antt =====
-- examples/hello_world.cpp and examples/tls_server.cpp. Their calls of `ListenAndServe` and
-- `ListenAndServeTLS` are not part of it.
use mevent.Common.{codes, pos}
use mevent.Response.{set_header, write}
use mevent.Connection.Whole.{Conn}
use mevent.HttpServer.{
  HttpServer, http_server, set_handler, set_worker_threads, set_idle_timeout,
  set_max_worker_connections,
}

abbrev pub hello_index : Conn → Conn
hello_index conn =
    let typed = set_header conn.resp (codes "Content-Type") (codes "text/html") in
    record conn { resp = write (write typed (codes "hello")) (codes " world!") }

abbrev pub tls_index : Conn → Conn
tls_index conn = record conn {
  resp =
      write (set_header conn.resp (codes "Content-Type") (codes "text/html"))
        (codes "hello world!");
}

-- The server of both programs.
abbrev pub page_server : HttpServer
page_server =
    set_max_worker_connections
      (set_idle_timeout (set_worker_threads (set_handler http_server (codes "/") 0) (pos 4))
        (pos 60))
      (pos 8192)
