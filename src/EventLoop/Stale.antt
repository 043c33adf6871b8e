-- ===== src/EventLoop/Stale.antt =====
-- event_loop.cpp: `Loop` on an event of a connection that another thread has closed meanwhile, or
-- closes while `ActiveListUpdate` is at work.
use mevent.Common.{
  ℕ, ◌≡◌, refl, ap, ◌∙◌, Bool, true, false, List, [], ◌∷◌, ◌++◌, ==_iff, some, none, arith, inl,
  inr, Bool-cases,
}
use mevent.ConnectionPool.{
  ConnectionPool, free_list_push, same_pointer, unlink_prev, unlink_next, skip_cursor, erase_links,
  active_list_push, active_list_erase, active_list_update,
}
use mevent.ConnectionPool.Segment.{NotIn}
use mevent.ConnectionPool.Active.{IsActive}
use mevent.Connection.{ConnStatus}
use mevent.Connection.Whole.{read_data}
use mevent.EventLoop.{
  EventLoop, Handlers, set_conn, web_socket_task_push, settle, reset_connection, retire,
}
use mevent.EventLoop.Events.{Io, after_read, push_tasks, on_read, on_event}
use mevent.EventLoop.Frames.{sockets}
use mevent.EventLoop.Sound.{retire-closed}
use mevent.ConnectionPool.Sequences.{Distinct-NotIn}
use mevent.ConnectionPool.Erase.{active_list_erase-IsActive}
use mevent.Connection.Whole.{is_positive}

-- The pool's active list is `c` alone.
pub record IsLone (p : ConnectionPool) (c : ℕ) : Type 0 where
  pub head : p.active_list_head ≡ some c
  pub tail : p.active_list_tail ≡ some c
  pub last : p.active_next c ≡ none

skip_cursor-links :
    (p : ConnectionPool) (c : ℕ)
    → ((skip_cursor p c).active_next ≡ p.active_next)
      × ((skip_cursor p c).active_prev ≡ p.active_prev)
unfolding skip_cursor
skip_cursor-links p c = ground arith

unlink_prev-none :
    (p : ConnectionPool) (c : ℕ)
    → p.active_next c ≡ none
    → p.active_prev c ≡ none
    → unlink_prev p c ≡ record p { active_list_head = none }
unfolding unlink_prev
unlink_prev-none p c n b = rw (unlink_prev, b, n) refl

unlink_next-none :
    (p : ConnectionPool) (c : ℕ)
    → p.active_next c ≡ none
    → p.active_prev c ≡ none
    → unlink_next p c ≡ record p { active_list_tail = none }
unfolding unlink_next
unlink_next-none p c n b = rw (unlink_next, n, b) refl

-- The erasure of a connection without links empties the list.
erase_links-empties :
    (p : ConnectionPool) (c : ℕ)
    → p.active_next c ≡ none
    → p.active_prev c ≡ none
    → let q = erase_links p c in (q.active_list_tail ≡ none) × (q.active_next c ≡ none)
unfolding erase_links
erase_links-empties p c n b =
    elim (Bool-cases (same_pointer p.active_list_tail p.active_list_head)) [
      | inl one ↦ rw (erase_links, one) (refl, ground arith)
      | inr many ↦
          rw
            (
              erase_links,
              many,
              unlink_prev-none p c n b,
              unlink_next-none (record p { active_list_head = none }) c n b,
            )
            (refl, ground arith)
    ]

erase-empties :
    (p : ConnectionPool) (c : ℕ)
    → p.active_next c ≡ none
    → p.active_prev c ≡ none
    → let q = active_list_erase p c in (q.active_list_tail ≡ none) × (q.active_next c ≡ none)
unfolding active_list_erase
erase-empties p c n b =
    let (next, prev) = skip_cursor-links p c in
    erase_links-empties (skip_cursor p c) c (ap (λ f. f c) next ∙ n) (ap (λ f. f c) prev ∙ b)

pub update-IsLone :
    (p : ConnectionPool) (c : ℕ) (xs : List ℕ)
    → NotIn c xs
    → IsActive p xs
    → IsLone (active_list_update p c) c
unfolding active_list_update active_list_push
update-IsLone p c xs out v =
    let (n, b) = v.unlinked c out in
    let (t, l) = erase-empties p c n b in
    rw (active_list_update, active_list_push, t) (record { head = refl; tail = refl; last = l })

read-shut :
    (lp : EventLoop) (c : ℕ) (io : Io)
    → sockets lp c ≡ none
    → read_data lp.max_header_size lp.max_post_size io.now (lp.conns c) io.reads
      ≡ some
          (record { result = ConnStatus.close; conn = lp.conns c; task_pushed = false; tasks = [] })
unfolding read_data
read-shut lp c io shut = simp (read_data, shut)

reset-shut :
    (h : Handlers) (lp : EventLoop) (c : ℕ)
    → sockets lp c ≡ none
    → reset_connection h lp c ≡ some lp
unfolding reset_connection
reset-shut h lp c shut = rw (reset_connection, shut) refl

-- On an event of a connection that is closed, though other connections are open, `Loop` succeeds and
-- leaves an active list of the closed connection alone: it has neither a next one nor a socket.
pub on_event-stale :
    (h : Handlers) (lp : EventLoop) (c : ℕ) (event_out : Bool) (io : Io) (active : List ℕ)
    → IsActive lp.conn_pool active
    → NotIn c active
    → sockets lp c ≡ none
    → (lp' : EventLoop) × (on_event h lp c true event_out io ≡ some lp')
      × IsLone lp'.conn_pool c
      × (sockets lp' c ≡ none)
unfolding on_event on_read after_read push_tasks settle
on_event-stale h lp c event_out io active v out shut =
    let moved = record lp { conn_pool = active_list_update lp.conn_pool c } in
    let after = set_conn (web_socket_task_push moved c []) c (lp.conns c) in
    let still : sockets after c ≡ none = rw (sockets, (==_iff c c).1 refl) shut in
    (
      after,
      rw (on_read, read-shut moved c io shut) (reset-shut h after c still),
      update-IsLone lp.conn_pool c active out v,
      still,
    )

-- `ActiveListUpdate` erases and pushes under two locks. Where a worker resets an open connection of the
-- active list in between, it is closed, and afterwards the active list is this connection alone,
-- whatever other connections it held.
pub interrupted_update :
    (lp : EventLoop) (front : List ℕ) (c : ℕ) (back : List ℕ)
    → IsActive lp.conn_pool (front ++ c ∷ back)
    → is_positive (sockets lp c) ≡ true
    → let erased = record lp { conn_pool = active_list_erase lp.conn_pool c } in
      let reset_between = retire erased c in
      IsLone (active_list_push reset_between.conn_pool c) c × (sockets reset_between c ≡ none)
unfolding retire free_list_push active_list_push
interrupted_update lp front c back v up =
    let erased = record lp { conn_pool = active_list_erase lp.conn_pool c } in
    let once = active_list_erase-IsActive lp.conn_pool front c back v in
    let (n, b) = once.unlinked c (Distinct-NotIn front c back v.distinct) in
    let (t, l) = erase-empties (free_list_push erased.conn_pool c) c n b in
    (
      rw (retire, active_list_push, t) (record { head = refl; tail = refl; last = l }),
      retire-closed erased c up,
    )
