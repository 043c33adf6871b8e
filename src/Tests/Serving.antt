-- ===== src/Tests/Serving.antt =====
-- http_server.cpp and the handshake of websocket.cpp on concrete inputs.
use mevent.Common.{
  ◌≡◌, ◌≢◌, refl, ◌*◌, ◌≤◌, true, false, ◌<◌, [], ◌∷◌, ◌++◌, List, some, arith, codes, Bytes, pos,
  negsuc, All, length,
}
use mevent.Base64.{base64_decode}
use mevent.Request.{Request, RequestStatus, new_request, get_method, unknown_method}
use mevent.Request.Chars.{token, is_url_char}
use mevent.Request.Parse.{finished, parse}
use mevent.Request.Parse.RequestText.{HeaderLine, request_text}
use mevent.WebSocket.Handshake.Opening.{opening_response, upgrade-request_text}
use mevent.Connection.Queue.{pending}
use mevent.Connection.Whole.{Conn}
use mevent.EventLoop.Setup.{new_conn}
use mevent.WebSocket.Handshake.{upgrade}
use mevent.HttpServer.{
  http_server, set_worker_threads, set_idle_timeout, set_max_worker_connections, Served,
  listen_and_serve,
}
use mevent.HttpServer.Configured.{Setting, configure, Runs, configure-listen_and_serve}

abbrev settings : List Setting
settings =
    Setting.worker_threads (pos 2)
    ∷ Setting.idle_timeout (negsuc 4)
    ∷ Setting.max_worker_connections (pos 100)
    ∷ Setting.rlimit_nofile (pos 9)
    ∷ []

small_test :
    let server = configure http_server settings in
    server.worker_threads * server.max_worker_connections < 0x80000000
unfolding set_worker_threads set_idle_timeout set_max_worker_connections
small_test = omega arith

configure-listen_and_serve_example :
    let server = configure http_server settings in
    (s : Served) × (listen_and_serve server ≡ some s)
    × (length s.loops ≡ server.worker_threads)
    × All (Runs s.server) s.loops
    × (1 ≤ server.worker_threads)
    × (1 ≤ server.idle_timeout)
    × (s.server ≡ record server {
      rlimit_nofile = pos (server.worker_threads * server.max_worker_connections);
    })
configure-listen_and_serve_example = configure-listen_and_serve settings small_test

abbrev connected : Conn
connected = record new_conn {
  io = record { fd = some 5; write_buffer_chain = []; upgraded = false; finish = false };
}

abbrev opening : List HeaderLine
opening =
    HeaderLine.other_line (codes "Host: a")
    ∷ HeaderLine.other_line (codes "Upgrade: websocket")
    ∷ HeaderLine.other_line (codes "Connection: Upgrade")
    ∷ HeaderLine.other_line (codes "Sec-WebSocket-Version: 13")
    ∷ HeaderLine.key_field (codes "a2V5")
    ∷ []

get_known : get_method ≢ unknown_method
get_known e = ground (arith, e)

upgrade-request_text_example :
    let text = request_text get_method (codes "ws") (codes "room=1") opening in
    (last : Request) × (parse (record new_request { rbuf = text; rbuf_len = length text })
      ≡ some (finished, last))
    × (let (done, conn') =
          upgrade (λ s. codes "digest") (codes "today") (record connected { req = last }) in
        (done ≡ true)
        × (conn'.req.status ≡ RequestStatus.upgrade)
        × (token : Bytes) × (pending conn'.io.write_buffer_chain
            ≡ pending connected.io.write_buffer_chain ++ opening_response (codes "today") token)
        × (base64_decode token ≡ codes "digest"))
unfolding token is_url_char
upgrade-request_text_example =
    upgrade-request_text (λ s. codes "digest") (λ s. omega arith) (codes "today") connected 5
      get_method (codes "ws") (codes "room=1") opening 97 (codes "2V5") refl get_known
      (ground arith) (ground arith) (ground arith) (ground arith) (omega arith) refl
