-- ===== src/EventLoop/Handling.antt =====
-- event_loop.cpp: the handlers of events keep the pool in agreement with the sockets.
use mevent.Common.{
  ℕ, ◌≡◌, sym, ◌∙◌, Bool, true, false, [], ◌∷◌, ◌++◌, inl, inr, Option-cases, Whenever,
  Whenever-some, subst,
}
use mevent.ConnectionPool.{active_list_update}
use mevent.Connection.Whole.{Conn, is_positive, flush_conn, read_data}
use mevent.EventLoop.{EventLoop, Handlers, set_conn}
use mevent.EventLoop.Events.{Io, after_read, push_tasks, on_read, on_write, on_event}
use mevent.EventLoop.Consistency.{IsConsistent, update-IsConsistent}
use mevent.ConnectionPool.Sequences.{mem_cases}
use mevent.EventLoop.Frames.{
  sockets, set_conn-Same, flush_conn-fd, after_read-fd, push_tasks-Same, read_data-fd,
}
use mevent.EventLoop.Sound.{IsSound, Same-IsSound, AreTame, settle-IsSound, open-NotIn}

pub set_conn-IsSound :
    (lp : EventLoop) (c : ℕ) (conn : Conn)
    → conn.io.fd ≡ sockets lp c
    → IsSound lp
    → IsSound (set_conn lp c conn)
set_conn-IsSound lp c conn e v = Same-IsSound lp (set_conn lp c conn) (set_conn-Same lp c conn e) v

module _ (h : Handlers) (t : AreTame h) where
  on_read-IsSound :
      (lp : EventLoop) (c : ℕ) (io : Io) → IsSound lp → Whenever IsSound (on_read h lp c io)
  unfolding on_read
  on_read-IsSound lp c io v =
      let read = read_data lp.max_header_size lp.max_post_size io.now (lp.conns c) io.reads in
      elim (Option-cases read) [
        | inl n ↦ rw (on_read, n) tt
        | inr (r, n) ↦
            let pushed = push_tasks lp c r in
            let s = push_tasks-Same lp c r in
            let (status, conn) = after_read r.result r.conn io in
            let same =
              Whenever-some (λ r. r.conn.io.fd ≡ sockets lp c) read r
                (read_data-fd lp.max_header_size lp.max_post_size io.now (lp.conns c) io.reads) n in
            rw (on_read, n)
              (settle-IsSound h t status (set_conn pushed c conn) c (
                set_conn-IsSound pushed c conn
                  (after_read-fd r.result r.conn io ∙ same ∙ sym (s.fds c))
                  (Same-IsSound lp pushed s v)))
      ]

  on_write-IsSound :
      (lp : EventLoop) (c : ℕ) (io : Io) → IsSound lp → Whenever IsSound (on_write h lp c io)
  unfolding on_write
  on_write-IsSound lp c io v =
      let (status, conn, sent) = flush_conn (lp.conns c) io.writes in
      settle-IsSound h t status (set_conn lp c conn) c
        (set_conn-IsSound lp c conn (flush_conn-fd (lp.conns c) io.writes) v)

  -- `ActiveListUpdate` needs that the connection is open.
  update-IsSound :
      (lp : EventLoop) (c : ℕ)
      → is_positive (sockets lp c) ≡ true
      → IsSound lp
      → IsSound (record lp { conn_pool = active_list_update lp.conn_pool c })
  update-IsSound lp c e v = elim (mem_cases c v.0) [
    | inl n ↦ absurd (open-NotIn lp v c e n)
    | inr (ys, zs, split) ↦
        let w = subst (λ xs. IsConsistent lp.conn_pool (sockets lp) xs v.1) split v.2 in
        ((ys ++ zs) ++ c ∷ [], v.1, update-IsConsistent lp.conn_pool (sockets lp) ys c zs v.1 w)
  ]

  pub on_event-IsSound :
      (lp : EventLoop) (c : ℕ) (event_in event_out : Bool) (io : Io)
      → is_positive (sockets lp c) ≡ true
      → IsSound lp
      → Whenever IsSound (on_event h lp c event_in event_out io)
  unfolding on_event
  on_event-IsSound lp c true event_out io e v =
      on_read-IsSound (record lp { conn_pool = active_list_update lp.conn_pool c }) c io
        (update-IsSound lp c e v)
  on_event-IsSound lp c false true io e v = on_write-IsSound lp c io v
  on_event-IsSound lp c false false io e v = v
