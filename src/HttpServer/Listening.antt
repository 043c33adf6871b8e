-- ===== src/HttpServer/Listening.antt =====
-- http_server.cpp: `ListenAndServe` and `ListenAndServeTLS` with their error paths, and
-- `ExecutablePath` of util.cpp. What the calls of the system and of OpenSSL answer is the record
-- `System`; `MEVENT_LOG_DEBUG_EXIT` ends the program. The calls that only fill structures or set
-- options are not part of it, nor is waiting.
pub mod Started
use mevent.Common.{
  ℕ, zero, suc, ◌+◌, ◌*◌, Bool, true, false, not, ◌&&◌, ◌||◌, Bytes, List, [], ◌∷◌, ◌++◌, Option,
  some, none, ltb, ◌==◌, if◌then◌else◌, pos,
}
use mevent.Request.Fields.{is_empty}
use mevent.HttpServer.{HttpServer, event_loop_thread}
use mevent.EventLoop.{EventLoop}

-- `none` is a result of -1, and `false` a failure. `self` is what `readlink` gives.
pub record System : Type 0 where
  pub socket : Bool
  pub setsockopt : Bool
  pub bind : Bool
  pub listen : Bool
  pub get_sys_gid : Bytes → Option ℕ
  pub get_sys_uid : Bytes → Option ℕ
  pub pthread_create : ℕ → Bool
  pub pthread_detach : ℕ → Bool
  pub crypto_locks : Bool
  pub ssl_ctx : Bool
  pub certificate_file : Bytes → Bool
  pub private_key_file : Bytes → Bool
  pub check_private_key : Bool
  pub nid : Bool
  pub ec_key : Bool
  pub self : Bytes

-- The calls that change the process, whatever they answer: a `setrlimit` that fails is only logged,
-- and the results of `setgid` and `setuid` are not looked at. `starts` is a thread that was created.
pub data SystemCall : Type 0 where
  setrlimit setgid setuid : ℕ → SystemCall
  starts : EventLoop → SystemCall

-- The calls in their order. `running` is false where the program has ended.
pub record Start : Type 0 where
  pub calls : List SystemCall
  pub running : Bool

abbrev pub exit : Start
exit = record { calls = []; running = false }

-- The loop from the thread `i` on.
unfoldable pub start_threads : System → ℕ → ℕ → HttpServer → Start
start_threads sys zero i server = record { calls = []; running = true }
start_threads sys (suc n) i server =
    let rest = start_threads sys n (i + 1) server in
    let started = starts (event_loop_thread server) in
    if not (sys.pthread_create i)
    then exit
    else if not (sys.pthread_detach i)
    then record { calls = started ∷ []; running = false }
    else record rest { calls = started ∷ rest.calls }

abbrev pub set_group : Option ℕ → List SystemCall
set_group none = []
set_group (some gid) = setgid gid ∷ []

abbrev pub set_owner : Option ℕ → List SystemCall
set_owner none = []
set_owner (some uid) = setuid uid ∷ []

unfoldable pub change_user : System → Bytes → List SystemCall
change_user sys user =
    if is_empty user
    then []
    else set_group (sys.get_sys_gid user) ++ set_owner (sys.get_sys_uid user)

abbrev pub limit_files : ℕ → List SystemCall
limit_files zero = []
limit_files (suc n) = setrlimit (suc n) ∷ []

-- The calls that open the socket.
abbrev pub listens : System → Bool
listens sys = sys.socket && sys.setsockopt && sys.bind && sys.listen

-- `ListenAndServe`; `none` is a product that overflows an `int`.
unfoldable pub start_server : System → HttpServer → Option Start
unfolding start_threads change_user
start_server sys server =
    let product = server.worker_threads * server.max_worker_connections in
    let limited = record server { rlimit_nofile = pos product } in
    let threads = start_threads sys limited.worker_threads 0 limited in
    elim (listens sys) [
      | false ↦ some exit
      | true ↦ elim (ltb product 0x80000000) [
        | false ↦ none
        | true ↦ some (record threads {
          calls = limit_files product ++ (change_user sys server.user ++ threads.calls);
        })
      ]
    ]

-- `ExecutablePath` on the bytes of the path: what goes up to the last slash.
unfoldable pub executable_path : Bytes → Bytes
executable_path [] = []
executable_path (c ∷ buf) =
    let rest = executable_path buf in if c == 47 || not (is_empty rest) then c ∷ rest else []

-- A file beside the program, unless its path begins with a slash.
abbrev pub ssl_file : Bytes → Bytes → Bytes
ssl_file self_path [] = self_path
ssl_file self_path (c ∷ file) = if c == 47 then c ∷ file else self_path ++ (c ∷ file)

-- The tests of `ListenAndServeTLS`, each of which may end the program.
unfoldable pub tls_ready : System → Bytes → Bytes → Bool
unfolding executable_path
tls_ready sys cert_file key_file =
    let self_path = executable_path sys.self in
    not (is_empty cert_file || is_empty key_file)
    && sys.crypto_locks
    && sys.ssl_ctx
    && sys.certificate_file (ssl_file self_path cert_file)
    && sys.private_key_file (ssl_file self_path key_file)
    && sys.check_private_key
    && sys.nid
    && sys.ec_key

unfoldable pub start_server_tls : System → HttpServer → Bytes → Bytes → Option Start
unfolding tls_ready start_server
start_server_tls sys server cert_file key_file = elim (tls_ready sys cert_file key_file) [
  | true ↦ start_server sys (record server { ssl_ctx = true })
  | false ↦ some exit
]
