-- ===== src/HttpServer/Listening/Started.antt =====
-- http_server.cpp: the calls that a start of the server makes, on every path.
use mevent.Common.{
  ℕ, zero, suc, ◌≢◌, ◌&&◌, Bytes, ◌+◌, ◌*◌, ◌≤◌, ◌≡◌, refl, ap, true, false, [], ◌∷◌, ◌++◌, map,
  ◌<◌, ◌⊎◌, lt→ltb, some, arith, Bool-cases, inl, inr, pos,
}
use mevent.HttpServer.{HttpServer, event_loop_thread, event_loop_threads}
use mevent.HttpServer.Listening.{
  exit, listens, System, starts, setrlimit, setgid, setuid, Start, start_threads, change_user,
  limit_files, start_server,
}

-- The threads that were started: all of them, if the program runs on.
abbrev pub HasStarted : ℕ → HttpServer → Start → Type 0
HasStarted n server s =
    (k : ℕ) × (s.calls ≡ map starts (event_loop_threads k server))
    × (k ≤ n)
    × (s.running ≡ true → k ≡ n)

start_threads-HasStarted :
    (sys : System) (n i : ℕ) (server : HttpServer)
    → HasStarted n server (start_threads sys n i server)
unfolding start_threads event_loop_threads
start_threads-HasStarted sys zero i server = (0, refl, omega arith, λ e. refl)
start_threads-HasStarted sys (suc n) i server =
    let (k, same, le, all) = start_threads-HasStarted sys n (i + 1) server in
    elim (Bool-cases (sys.pthread_create i)) [
      | inr e ↦ rw (start_threads, e) (0, refl, omega arith, λ no. absurd (ground arith))
      | inl e ↦ elim (Bool-cases (sys.pthread_detach i)) [
        | inr e' ↦ rw (start_threads, e, e') (1, refl, omega arith, λ no. absurd (ground arith))
        | inl e' ↦
            rw (start_threads, e, e')
              (
                suc k,
                ap (λ l. starts (event_loop_thread server) ∷ l) same,
                omega (arith, le),
                λ run. ap suc (all run),
              )
      ]
    ]

change_user_known :
    (sys : System) (user : Bytes) (gid uid : ℕ)
    → user ≢ []
    → sys.get_sys_gid user ≡ some gid
    → sys.get_sys_uid user ≡ some uid
    → change_user sys user ≡ setgid gid ∷ setuid uid ∷ []
unfolding change_user
change_user_known sys [] gid uid named group owner = absurd (named refl)
change_user_known sys (c ∷ user) gid uid named group owner = rw (group, owner) refl

limit_files_some : (n : ℕ) → 0 < n → limit_files n ≡ setrlimit n ∷ []
limit_files_some zero h = absurd (omega (arith, h))
limit_files_some (suc n) h = refl

-- Where a user is set whose group and user the system knows, and the product of threads and
-- connections is above 0 and fits an `int`, `ListenAndServe` comes to an end or runs on, on whatever
-- the other calls answer. Where one of the calls that open the socket fails, it ends, and has called
-- nothing that changes the process. Otherwise it has called `setrlimit` with the product, then
-- `setgid`, then `setuid`, and then started loops with the server's settings: at most as many as there
-- are to be threads, and as many where it runs on.
pub start_server_lem :
    (sys : System) (server : HttpServer) (gid uid : ℕ)
    → server.user ≢ []
    → sys.get_sys_gid server.user ≡ some gid
    → sys.get_sys_uid server.user ≡ some uid
    → 0 < server.worker_threads * server.max_worker_connections
    → server.worker_threads * server.max_worker_connections < 0x80000000
    → let product = server.worker_threads * server.max_worker_connections in
      let limited = record server { rlimit_nofile = pos product } in
      let opened = sys.socket && sys.setsockopt && sys.bind && sys.listen in
      (s : Start) × (start_server sys server ≡ some s)
      × (((opened ≡ false) × (s.calls ≡ []) × (s.running ≡ false))
          ⊎ ((opened ≡ true)
              × (k : ℕ) × (s.calls
                  ≡ setrlimit product
                    ∷ setgid gid
                    ∷ setuid uid
                    ∷ map starts (event_loop_threads k limited))
              × (k ≤ server.worker_threads)
              × (s.running ≡ true → k ≡ server.worker_threads)))
unfolding start_server
start_server_lem sys server gid uid named group owner some_files small =
    let product = server.worker_threads * server.max_worker_connections in
    let limited = record server { rlimit_nofile = pos product } in
    let threads = start_threads sys server.worker_threads 0 limited in
    let (k, same, le, all) = start_threads-HasStarted sys server.worker_threads 0 limited in
    elim (Bool-cases (listens sys)) [
      | inr e ↦ (exit, rw (start_server, e) refl, inl (e, refl, refl))
      | inl e ↦ (
        record threads {
          calls = limit_files product ++ (change_user sys server.user ++ threads.calls);
        },
        rw (start_server, e, lt→ltb product 0x80000000 small) refl,
        inr (
          e,
          k,
          rw
              (
                limit_files_some product some_files,
                change_user_known sys server.user gid uid named group owner,
                same,
              )
              refl,
          le,
          all,
        ),
      )
    ]
