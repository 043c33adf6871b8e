-- ===== src/EventLoop/Idle/Pass.antt =====
-- event_loop.cpp: a pass of `CheckConnectionTimeout` closes the connections in front of the active
-- list that are idle, and stops at the first that is not.
use mevent.Common.{
  ℕ, zero, suc, ◌+◌, ◌<◌, ◌≡◌, refl, List, [], ◌∷◌, ◌++◌, lt→ltb, ge→ltb, Option, some, none, arith,
  All, length,
}
use mevent.ConnectionPool.{active_list_timeout_check}
use mevent.ConnectionPool.Segment.{NotIn-append_left, NotIn-append_right}
use mevent.ConnectionPool.Cursor.{first, Segment-first}
use mevent.EventLoop.{EventLoop, Handlers, retire}
use mevent.EventLoop.Timeout.{check_next, walk, timeout_first, check_connection_timeout}
use mevent.EventLoop.Consistency.{IsConsistent}
use mevent.EventLoop.Frames.{sockets}
use mevent.EventLoop.Sound.{retire-IsConsistent_lem}
use mevent.EventLoop.Admission.{cursor-IsConsistent}
use mevent.EventLoop.Idle.{
  IsOld, IsFresh, IsQuiet, reset_connection-quiet, retire-cursor, IsAtFirst, advance, closed_first,
  IsOld-closed_first, IsFresh-closed_first,
}

-- What a pass leaves: the list is `rest`, and every other connection is closed.
pub record Leaves (o : Option EventLoop) (rest : List ℕ) : Type 0 where
  pub state : EventLoop
  pub free : List ℕ
  pub result : o ≡ some state
  pub left : IsConsistent state.conn_pool (sockets state) rest free

module _ (h : Handlers) (q : IsQuiet h) (now : ℕ) where
  walk-Leaves :
      (rounds : ℕ) (lp : EventLoop) (idle rest free : List ℕ)
      → length idle < rounds
      → IsAtFirst lp (idle ++ rest) free
      → All (λ c. IsOld lp.idle_timeout now (lp.conns c)) idle
      → IsFresh lp.idle_timeout now lp.conns rest
      → Leaves (walk rounds h lp now (first (idle ++ rest))) rest
  unfolding walk
  walk-Leaves zero lp idle rest free enough a old fresh = absurd (omega (arith, enough))
  walk-Leaves (suc rounds) lp [] [] free enough a old fresh = record {
    state = lp;
    free = free;
    result = refl;
    left = a.consistent;
  }
  walk-Leaves (suc rounds) lp [] (c ∷ rest) free enough a old fresh = record {
    state = lp;
    free = free;
    result =
        rw
          (
            walk,
            lt→ltb 0 (lp.conns c).active_time fresh.0,
            lt→ltb now ((lp.conns c).active_time + lp.idle_timeout) fresh.1,
          )
          refl;
    left = a.consistent;
  }
  walk-Leaves (suc rounds) lp (c ∷ idle) rest free enough a old fresh =
      let apart = a.consistent.active_list.distinct.0 in
      let open_fd = a.consistent.opened.0 in
      let (next, conn) =
        advance (retire lp c) (idle ++ rest) (c ∷ free)
          (retire-IsConsistent_lem lp [] c (idle ++ rest) free open_fd a.consistent)
          (retire-cursor lp c (idle ++ rest) apart a.cursor) in
      let others =
        walk-Leaves rounds (closed_first lp c) idle rest (c ∷ free) (omega (arith, enough)) next
          (IsOld-closed_first now lp c idle (NotIn-append_left c idle rest apart) old.1)
          (IsFresh-closed_first now lp c rest (NotIn-append_right c idle rest apart) fresh) in
      let (_, late, closable) = old.0 in
      rw
        (
          walk,
          lt→ltb 0 (lp.conns c).active_time old.0.0,
          ge→ltb now ((lp.conns c).active_time + lp.idle_timeout) late,
          reset_connection-quiet h q lp c closable open_fd,
          conn,
        )
        others

  timeout_first-Leaves :
      (rounds : ℕ) (lp : EventLoop) (idle rest free : List ℕ)
      → length idle < rounds
      → IsAtFirst lp (idle ++ rest) free
      → All (λ c. IsOld lp.idle_timeout now (lp.conns c)) idle
      → IsFresh lp.idle_timeout now lp.conns rest
      → Leaves (timeout_first rounds h lp now (first (idle ++ rest))) rest
  unfolding timeout_first
  timeout_first-Leaves rounds lp [] [] free enough a old fresh = record {
    state = lp;
    free = free;
    result = refl;
    left = a.consistent;
  }
  timeout_first-Leaves rounds lp [] (c ∷ rest) free enough a old fresh = record {
    state = lp;
    free = free;
    result =
        rw
          (
            timeout_first,
            lt→ltb 0 (lp.conns c).active_time fresh.0,
            lt→ltb now ((lp.conns c).active_time + lp.idle_timeout) fresh.1,
          )
          refl;
    left = a.consistent;
  }
  timeout_first-Leaves rounds lp (c ∷ idle) rest free enough a old fresh =
      let (_, late, closable) = old.0 in
      rw
        (
          timeout_first,
          lt→ltb 0 (lp.conns c).active_time old.0.0,
          ge→ltb now ((lp.conns c).active_time + lp.idle_timeout) late,
        )
        (walk-Leaves rounds lp (c ∷ idle) rest free enough a old fresh)

-- Let the lists agree with the sockets, and the active list be `idle` followed by `rest`, where each
-- of `idle` was last read from `idle_timeout` seconds ago or more and the first of `rest`, if there
-- is one, later than that; let each websocket in `idle` have its close function set, and the close
-- functions leave the loop as it is. Then a pass of `CheckConnectionTimeout` with more rounds than
-- `idle` is long ends, the active list is `rest`, and every connection that is not in it is closed.
pub check_connection_timeout_lem :
    (h : Handlers)
    → IsQuiet h
    → (now rounds : ℕ) (lp : EventLoop) (idle rest free : List ℕ)
    → IsConsistent lp.conn_pool (sockets lp) (idle ++ rest) free
    → All (λ c. IsOld lp.idle_timeout now (lp.conns c)) idle
    → IsFresh lp.idle_timeout now lp.conns rest
    → length idle < rounds
    → Leaves (check_connection_timeout rounds h lp now) rest
unfolding check_connection_timeout active_list_timeout_check check_next
check_connection_timeout_lem h q now rounds lp idle rest free v old fresh enough =
    let started = record lp { conn_pool = active_list_timeout_check lp.conn_pool } in
    let (next, conn) =
      advance started (idle ++ rest) free
        (cursor-IsConsistent lp.conn_pool lp.conn_pool.active_list_head (sockets lp) (idle ++ rest)
          free v)
        (Segment-first lp.conn_pool none lp.conn_pool.active_list_head (idle ++ rest)
          lp.conn_pool.active_list_tail v.active_list.linked) in
    rw conn (
      timeout_first-Leaves h q now rounds (check_next started).0 idle rest free enough next old
        fresh)
