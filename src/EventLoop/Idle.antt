-- ===== src/EventLoop/Idle.antt =====
-- event_loop.cpp: idle connections, their closing, and the step of the cursor behind it.
pub mod Pass
use mevent.Common.{
  ℕ, zero, suc, ◌+◌, ◌≤◌, ◌<◌, ◌≡◌, ◌≢◌, ◌⊎◌, refl, sym, ap, ◌∙◌, subst, Bool, true, false, List,
  [], ◌∷◌, ◌++◌, ◌==◌, ==_iff, ◌&&◌, ltb, lt→ltb, ge→ltb, if◌then◌else◌, Option, some, none, arith,
  inl, inr, Bool-cases, Option-cases, All, Whenever-some, length,
}
use mevent.ConnectionPool.{
  ConnectionPool, Links, Pointer, active_list_timeout_check, active_list_check_next, free_list_push,
  active_list_erase,
}
use mevent.ConnectionPool.Segment.{NotIn, Distinct, NotIn-append_left, NotIn-append_right}
use mevent.ConnectionPool.Cursor.{first, Segment-first, IsActive-second, active_list_erase-cursor}
use mevent.Connection.Whole.{Conn, is_positive, is_upgrade}
use mevent.EventLoop.{EventLoop, Handlers, on_close, retire, reset_connection}
use mevent.EventLoop.Timeout.{is_idle, check_next, walk, timeout_first, check_connection_timeout}
use mevent.EventLoop.Consistency.{IsConsistent}
use mevent.ConnectionPool.Sequences.{All-both}
use mevent.EventLoop.Frames.{sockets}
use mevent.EventLoop.Sound.{retire-IsConsistent_lem}
use mevent.EventLoop.Admission.{cursor-IsConsistent}

-- A websocket's close function is set.
abbrev pub IsClosable : Conn → Type 0
IsClosable conn =
    (is_upgrade conn.req.status ≡ false) ⊎ ((f : ℕ) × (conn.callbacks.on_close_func ≡ some f))

-- The last read is `timeout` seconds ago, and the connection can be closed.
abbrev pub IsOld : ℕ → ℕ → Conn → Type 0
IsOld timeout now conn =
    (0 < conn.active_time) × (conn.active_time + timeout ≤ now) × IsClosable conn

-- The first of `cs`, if there is one, has been read from since.
abbrev pub IsFresh : ℕ → ℕ → (ℕ → Conn) → List ℕ → Type 0
IsFresh timeout now conns [] = Unit
IsFresh timeout now conns (c ∷ cs) =
    (0 < (conns c).active_time) × (now < (conns c).active_time + timeout)

-- The functions called at the end of a websocket that leave the loop as it is.
abbrev pub IsQuiet : Handlers → Type 0
IsQuiet h = (f c : ℕ) (lp : EventLoop) → h.on_close f c lp ≡ lp

on_close-quiet :
    (h : Handlers)
    → IsQuiet h
    → (lp : EventLoop) (c : ℕ) → IsClosable (lp.conns c)
    → on_close h lp c ≡ some lp
unfolding on_close
on_close-quiet h q lp c (inl e) = rw (on_close, e) refl
on_close-quiet h q lp c (inr (f, e)) = elim (Bool-cases (is_upgrade (lp.conns c).req.status)) [
  | inl up ↦ rw (on_close, up, e) (ap some (q f c lp))
  | inr other ↦ rw (on_close, other) refl
]

pub reset_connection-quiet :
    (h : Handlers)
    → IsQuiet h
    → (lp : EventLoop) (c : ℕ) → IsClosable (lp.conns c)
    → is_positive (sockets lp c) ≡ true
    → reset_connection h lp c ≡ some (retire lp c)
unfolding reset_connection
reset_connection-quiet h q lp c k open_fd =
    rw (reset_connection, open_fd, on_close-quiet h q lp c k) refl

retire-conns : (lp : EventLoop) (c d : ℕ) → d ≢ c → (retire lp c).conns d ≡ lp.conns d
unfolding retire
retire-conns lp c d n = elim (Bool-cases (c == d)) [
  | inl same ↦ absurd (n (sym ((==_iff c d).0 same)))
  | inr other ↦ rw (retire, other) refl
]

first-NotIn : (c : ℕ) (cs : List ℕ) → NotIn c cs → first cs ≢ some c
first-NotIn c [] n e = ground (arith, e)
first-NotIn c (d ∷ cs) n e = n.0 (ground (arith, e))

pub retire-cursor :
    (lp : EventLoop) (c : ℕ) (cs : List ℕ)
    → NotIn c cs
    → lp.conn_pool.active_list_lookup_cursor ≡ first cs
    → (retire lp c).conn_pool.active_list_lookup_cursor ≡ first cs
unfolding retire free_list_push
retire-cursor lp c cs n e =
    active_list_erase-cursor (free_list_push lp.conn_pool c) c
      (λ hit. first-NotIn c cs n (sym e ∙ hit))
    ∙ e

abbrev pub behind : List ℕ → List ℕ
behind [] = []
behind (c ∷ cs) = cs

-- The walk has come to the first connection of the active list, and the cursor to the next one.
pub record IsAtFirst (lp : EventLoop) (active free : List ℕ) : Type 0 where
  pub consistent : IsConsistent lp.conn_pool (sockets lp) active free
  pub cursor : lp.conn_pool.active_list_lookup_cursor ≡ first (behind active)

pub advance :
    (lp : EventLoop) (active free : List ℕ)
    → IsConsistent lp.conn_pool (sockets lp) active free
    → lp.conn_pool.active_list_lookup_cursor ≡ first active
    → IsAtFirst (check_next lp).0 active free × ((check_next lp).1 ≡ first active)
unfolding check_next active_list_check_next
advance lp [] free v e =
    rw (check_next, active_list_check_next, e) (record { consistent = v; cursor = e }, refl)
advance lp (x ∷ xs) free v e =
    rw (check_next, active_list_check_next, e)
      (
        record {
          consistent =
              cursor-IsConsistent lp.conn_pool (lp.conn_pool.active_next x) (sockets lp) (x ∷ xs)
                free v;
          cursor = IsActive-second lp.conn_pool x xs v.active_list;
        },
        refl,
      )

-- After the first connection is closed.
abbrev pub closed_first : EventLoop → ℕ → EventLoop
closed_first lp c = (check_next (retire lp c)).0

pub IsOld-closed_first :
    (now : ℕ) (lp : EventLoop) (c : ℕ) (cs : List ℕ)
    → NotIn c cs
    → All (λ d. IsOld lp.idle_timeout now (lp.conns d)) cs
    → All (λ d. IsOld (closed_first lp c).idle_timeout now ((closed_first lp c).conns d)) cs
unfolding check_next retire
IsOld-closed_first now lp c cs n old =
    All-both (λ d. IsOld lp.idle_timeout now (lp.conns d)) (λ d. d ≢ c)
      (λ d. IsOld lp.idle_timeout now ((closed_first lp c).conns d)) cs
      (λ d a other. subst (IsOld lp.idle_timeout now) (sym (retire-conns lp c d other)) a) old n

pub IsFresh-closed_first :
    (now : ℕ) (lp : EventLoop) (c : ℕ) (cs : List ℕ)
    → NotIn c cs
    → IsFresh lp.idle_timeout now lp.conns cs
    → IsFresh (closed_first lp c).idle_timeout now (closed_first lp c).conns cs
unfolding check_next retire
IsFresh-closed_first now lp c [] n fresh = tt
IsFresh-closed_first now lp c (d ∷ cs) n fresh =
    subst (λ conn. (0 < conn.active_time) × (now < conn.active_time + lp.idle_timeout))
      (sym (retire-conns lp c d n.0)) fresh
