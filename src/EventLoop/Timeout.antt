-- ===== src/EventLoop/Timeout.antt =====
-- event_loop.cpp: a round of `CheckConnectionTimeout`.
use mevent.Common.{ℕ, zero, suc, ◌+◌, ltb, ◌&&◌, Bool, true, false, Option, some, none}
use mevent.ConnectionPool.{active_list_timeout_check, active_list_check_next}
use mevent.EventLoop.{EventLoop, Handlers, reset_connection}

-- `now - active_time >= idle_timeout_`, for a time that is not before `active_time`.
abbrev pub is_idle : EventLoop → ℕ → ℕ → Bool
is_idle lp now c = elim (ltb now ((lp.conns c).active_time + lp.idle_timeout)) [
  | true ↦ false
  | false ↦ true
]

-- `ActiveListCheckNext` on the loop's pool.
unfoldable pub check_next : EventLoop → EventLoop × Option ℕ
check_next lp =
    let (pool, conn) = active_list_check_next lp.conn_pool in (record lp { conn_pool = pool }, conn)

-- The loop over the connections. Each round moves the cursor on, so that a list of `n` connections
-- is done in `n + 1` rounds; `none` is also that the rounds given are used up.
unfoldable pub walk : ℕ → Handlers → EventLoop → ℕ → Option ℕ → Option EventLoop
walk rounds h lp now none = some lp
walk zero h lp now (some c) = none
walk (suc rounds) h lp now (some c) =
    let next = check_next lp in
    elim (ltb 0 (lp.conns c).active_time) [
      | false ↦ walk rounds h next.0 now next.1
      | true ↦ elim (is_idle lp now c) [
        | false ↦ some lp
        | true ↦ elim (reset_connection h lp c) [
          | none ↦ none
          | some lp' ↦ walk rounds h (check_next lp').0 now (check_next lp').1
        ]
      ]
    ]

-- A round with the first connection: it sleeps where that one is not idle.
unfoldable pub timeout_first : ℕ → Handlers → EventLoop → ℕ → Option ℕ → Option EventLoop
unfolding walk
timeout_first rounds h lp now none = some lp
timeout_first rounds h lp now (some c) =
    elim (ltb 0 (lp.conns c).active_time && ltb now ((lp.conns c).active_time + lp.idle_timeout)) [
      | true ↦ some lp
      | false ↦ walk rounds h lp now (some c)
    ]

-- A round of `CheckConnectionTimeout` at the time `now`.
unfoldable pub check_connection_timeout : ℕ → Handlers → EventLoop → ℕ → Option EventLoop
unfolding check_next timeout_first
check_connection_timeout rounds h lp now =
    let started = record lp { conn_pool = active_list_timeout_check lp.conn_pool } in
    let (next, conn) = check_next started in timeout_first rounds h next now conn
