-- ===== src/EventLoop/Admission.antt =====
-- event_loop.cpp: `Accept` and `CheckConnectionTimeout` keep the pool in agreement with the sockets.
use mevent.Common.{
  ℕ, zero, suc, ◌+◌, ◌<◌, ◌≡◌, refl, sym, ap, ◌∙◌, fun_ext, subst, true, false, List, [], ◌∷◌, ◌++◌,
  ◌==◌, ==_iff, ◌&&◌, ltb, Option, some, none, arith, inl, inr, Bool-cases, Option-cases, All,
  Whenever, Whenever-some,
}
use mevent.ConnectionPool.{
  ConnectionPool, Links, Pointer, update, free_list_pop, free_list_push, active_list_push,
  active_list_timeout_check, active_list_check_next,
}
use mevent.Connection.Whole.{is_positive, closed_fd, reset}
use mevent.EventLoop.{EventLoop, Handlers, set_conn, reset_connection}
use mevent.EventLoop.Events.{Accepted, attach, accept_conn, accept_one, accept}
use mevent.EventLoop.Timeout.{is_idle, check_next, walk, timeout_first, check_connection_timeout}
use mevent.EventLoop.Consistency.{IsConsistent}
use mevent.EventLoop.Consistency.Popped.{
  IsPopped, free_list_pop-IsPopped, admit-IsConsistent, give_back-IsConsistent,
}
use mevent.EventLoop.Frames.{sockets}
use mevent.EventLoop.Sound.{IsSound, AreTame, reset_connection-IsSound}

positive_fd : (s : ℕ) → 0 < s → (is_positive (some s) ≡ true) × (closed_fd (some s) ≡ none)
positive_fd zero h = absurd (omega (arith, h))
positive_fd (suc s) h = (refl, refl)

attach-sockets :
    (lp : EventLoop) (c : ℕ) (a : Accepted) (d : ℕ)
    → sockets (set_conn lp c (attach (lp.conns c) a)) d ≡ update (sockets lp) c (some a.clifd) d
unfolding attach
attach-sockets lp c a d = elim (Bool-cases (c == d)) [
  | inl same ↦ rw (sockets, same) refl
  | inr other ↦ rw (sockets, other) refl
]

module _ (lp : EventLoop) (c : ℕ) (a : Accepted) (active rest : List ℕ)
    (v : IsPopped lp.conn_pool (sockets lp) active rest c) (open_fd : 0 < a.clifd) where
  admitted : a.set_up ≡ true → IsSound (accept_conn lp c a)
  unfolding accept_conn
  admitted up =
      let done =
        subst (λ fd. IsConsistent (active_list_push lp.conn_pool c) fd (active ++ c ∷ []) rest)
          (sym (fun_ext (attach-sockets lp c a)))
          (admit-IsConsistent lp.conn_pool (sockets lp) active rest c v (some a.clifd)
            (positive_fd a.clifd open_fd).0) in
      rw (accept_conn, up) (active ++ c ∷ [], rest, done)

  given_back-sockets :
      (d : ℕ)
      → let lp' = set_conn lp c (attach (lp.conns c) a) in
        sockets (set_conn lp' c (reset (lp'.conns c))) d ≡ sockets lp d
  unfolding attach reset
  given_back-sockets d = elim (Bool-cases (c == d)) [
    | inl same ↦
        rw (sockets, same, (==_iff c c).1 refl)
          ((positive_fd a.clifd open_fd).1
            ∙ sym (v.others.closed c v.not_active)
            ∙ ap (sockets lp) ((==_iff c d).0 same))
    | inr other ↦ rw (sockets, other) refl
  ]

  given_back : a.set_up ≡ false → IsSound (accept_conn lp c a)
  unfolding accept_conn
  given_back down =
      let done =
        subst (λ fd. IsConsistent (free_list_push lp.conn_pool c) fd active (c ∷ rest))
          (sym (fun_ext given_back-sockets))
          (give_back-IsConsistent lp.conn_pool (sockets lp) active rest c v) in
      rw (accept_conn, down) (active, c ∷ rest, done)

  accept_conn-IsSound : IsSound (accept_conn lp c a)
  accept_conn-IsSound = elim (Bool-cases a.set_up) [
    | inl up ↦ admitted up
    | inr down ↦ given_back down
  ]

accept_one-IsSound :
    (lp : EventLoop) (a : Accepted) → 0 < a.clifd → IsSound lp → IsSound (accept_one lp a).0
unfolding accept_one
accept_one-IsSound lp a pos v =
    let (pool, conn) = free_list_pop lp.conn_pool in
    elim (free_list_pop-IsPopped lp.conn_pool (sockets lp) v.0 v.1 v.2) [
      | inl (c, rest, found, popped) ↦
          rw (accept_one, found)
            (accept_conn-IsSound (record lp { conn_pool = pool }) c a v.0 rest popped pos)
      | inr (nothing, same) ↦
          rw (accept_one, nothing)
            (v.0, v.1, subst (λ p. IsConsistent p (sockets lp) v.0 v.1) (sym same) v.2)
    ]

pub accept-IsSound :
    (lp : EventLoop) (given : List Accepted)
    → All (λ a. 0 < a.clifd) given
    → IsSound lp
    → IsSound (accept lp given)
unfolding accept
accept-IsSound lp [] pos v = v
accept-IsSound lp (a ∷ rest) pos v =
    let one = accept_one-IsSound lp a pos.0 v in
    elim (Bool-cases (accept_one lp a).1) [
      | inl e ↦ rw (accept, e) (accept-IsSound (accept_one lp a).0 rest pos.1 one)
      | inr e ↦ rw (accept, e) one
    ]

-- The cursor has no part in the agreement.
pub cursor-IsConsistent :
    (p : ConnectionPool) (cursor : Pointer) (fd : Links) (active free : List ℕ)
    → IsConsistent p fd active free
    → IsConsistent (record p { active_list_lookup_cursor = cursor }) fd active free
cursor-IsConsistent p cursor fd active free v = record {
  active_list = record {
    linked = v.active_list.linked;
    distinct = v.active_list.distinct;
    unlinked = v.active_list.unlinked;
  };
  free_list = v.free_list;
  free_distinct = v.free_distinct;
  apart = v.apart;
  opened = v.opened;
  closed = v.closed;
  known_active = v.known_active;
  known_free = v.known_free;
  bounded = v.bounded;
}

cursor-IsSound :
    (lp : EventLoop) (cursor : Pointer)
    → IsSound lp
    → IsSound (record lp { conn_pool = record lp.conn_pool { active_list_lookup_cursor = cursor } })
cursor-IsSound lp cursor v =
    (v.0, v.1, cursor-IsConsistent lp.conn_pool cursor (sockets lp) v.0 v.1 v.2)

check_next-IsSound : (lp : EventLoop) → IsSound lp → IsSound (check_next lp).0
unfolding check_next active_list_check_next
check_next-IsSound lp v = elim (Option-cases lp.conn_pool.active_list_lookup_cursor) [
  | inl e ↦ rw (check_next, active_list_check_next, e) v
  | inr (c, e) ↦
      rw (check_next, active_list_check_next, e) (cursor-IsSound lp (lp.conn_pool.active_next c) v)
]

module _ (h : Handlers) (t : AreTame h) where
  walk-IsSound :
      (rounds : ℕ) (lp : EventLoop) (now : ℕ) (conn : Option ℕ)
      → IsSound lp
      → Whenever IsSound (walk rounds h lp now conn)
  unfolding walk
  walk-IsSound rounds lp now none v = v
  walk-IsSound zero lp now (some c) v = tt
  walk-IsSound (suc rounds) lp now (some c) v =
      let next = check_next lp in
      elim (Bool-cases (ltb 0 (lp.conns c).active_time)) [
        | inr e ↦ rw (walk, e) (walk-IsSound rounds next.0 now next.1 (check_next-IsSound lp v))
        | inl e ↦ elim (Bool-cases (is_idle lp now c)) [
          | inr i ↦ rw (walk, e, i) v
          | inl i ↦ elim (Option-cases (reset_connection h lp c)) [
            | inl n ↦ rw (walk, e, i, n) tt
            | inr (m, n) ↦
                let w =
                  Whenever-some IsSound (reset_connection h lp c) m
                    (reset_connection-IsSound h t lp c v) n in
                rw (walk, e, i, n)
                  (walk-IsSound rounds (check_next m).0 now (check_next m).1
                    (check_next-IsSound m w))
          ]
        ]
      ]

  timeout_first-IsSound :
      (rounds : ℕ) (lp : EventLoop) (now : ℕ) (conn : Option ℕ)
      → IsSound lp
      → Whenever IsSound (timeout_first rounds h lp now conn)
  unfolding timeout_first
  timeout_first-IsSound rounds lp now none v = v
  timeout_first-IsSound rounds lp now (some c) v =
      elim (Bool-cases
        (ltb 0 (lp.conns c).active_time && ltb now ((lp.conns c).active_time + lp.idle_timeout))) [
          | inl e ↦ rw (timeout_first, e) v
          | inr e ↦ rw (timeout_first, e) (walk-IsSound rounds lp now (some c) v)
        ]

  pub check_connection_timeout-IsSound :
      (rounds : ℕ) (lp : EventLoop) (now : ℕ)
      → IsSound lp
      → Whenever IsSound (check_connection_timeout rounds h lp now)
  unfolding check_connection_timeout active_list_timeout_check
  check_connection_timeout-IsSound rounds lp now v =
      let started = record lp { conn_pool = active_list_timeout_check lp.conn_pool } in
      let (next, conn) = check_next started in
      timeout_first-IsSound rounds next now conn
        (check_next-IsSound started (cursor-IsSound lp lp.conn_pool.active_list_head v))
