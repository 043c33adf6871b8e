-- ===== src/Tests/Starting.antt =====
-- The start of the server of http_server.cpp on concrete answers of the system.
use mevent.Common.{
  ℕ, ◌≡◌, ◌⊎◌, ◌≤◌, refl, arith, true, false, Bytes, [], ◌∷◌, map, Option, some, none, codes, pos,
}
use mevent.HttpServer.{HttpServer, http_server, set_user, event_loop_thread, event_loop_threads}
use mevent.HttpServer.Listening.{
  System, Start, setrlimit, setgid, setuid, starts, start_server, start_server_tls, executable_path,
  ssl_file,
}
use mevent.HttpServer.Listening.Started.{start_server_lem}

abbrev unknown : Bytes → Option ℕ
unknown user = none

-- A system on which every call succeeds, but that knows no user.
abbrev sys : System
sys = record {
  socket = true;
  setsockopt = true;
  bind = true;
  listen = true;
  get_sys_gid = unknown;
  get_sys_uid = unknown;
  pthread_create = λ i. true;
  pthread_detach = λ i. true;
  crypto_locks = true;
  ssl_ctx = true;
  certificate_file = λ file. true;
  private_key_file = λ file. true;
  check_private_key = true;
  nid = true;
  ec_key = true;
  self = codes "/opt/app/bin";
}

abbrev server : HttpServer
server = set_user http_server (codes "www")

abbrev known : Bytes → Option ℕ
known user = some 33

-- A system that gives every user the number 33.
abbrev known_sys : System
known_sys = record sys { get_sys_gid = known; get_sys_uid = known }

start_server_lem_example :
    let limited = record server { rlimit_nofile = pos 1024 } in
    (s : Start) × (start_server known_sys server ≡ some s)
    × (((true ≡ false) × (s.calls ≡ []) × (s.running ≡ false))
        ⊎ ((true ≡ true)
            × (k : ℕ) × (s.calls
                ≡ setrlimit 1024
                  ∷ setgid 33
                  ∷ setuid 33
                  ∷ map starts (event_loop_threads k limited))
            × (k ≤ 1)
            × (s.running ≡ true → k ≡ 1)))
start_server_lem_example =
    start_server_lem known_sys server 33 33 (λ e. ground (arith, e)) refl refl (omega arith)
      (omega arith)

-- A user that the system does not know is not reported: the server runs as whoever started it.
unknown_user :
    start_server sys server
    ≡ some (record {
      calls =
          setrlimit 1024
          ∷ starts (event_loop_thread (record server { rlimit_nofile = pos 1024 }))
          ∷ [];
      running = true;
    })
unfolding start_server
unknown_user = refl

-- The private key is looked for beside the program.
key_path : ssl_file (executable_path sys.self) (codes "host.key") ≡ codes "/opt/app/host.key"
unfolding executable_path
key_path = refl

-- Without a key there is no server.
no_key :
    start_server_tls sys server (codes "host.crt") []
    ≡ some (record { calls = []; running = false })
unfolding start_server_tls
no_key = refl
