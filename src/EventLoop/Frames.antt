-- ===== src/EventLoop/Frames.antt =====
-- event_loop.cpp: what the parts of a handler do not touch, the pool and the sockets.
use mevent.Common.{
  ℕ, ◌≡◌, refl, ap, subst, ◌∙◌, Bytes, List, [], ◌∷◌, ◌==◌, ==_iff, Option, arith, inl, inr,
  Bool-cases, Option-cases, Whenever,
}
use mevent.ConnectionPool.{Links}
use mevent.Connection.{WriteResult, ConnStatus, Connection, flush, write_string}
use mevent.Connection.Whole.{Conn, ConnRead, flush_conn, read_data, websocket_read, is_upgrade}
use mevent.WebSocket.Send
use mevent.Response
use mevent.Response.{Response, write_error_message, flush_written}
use mevent.EventLoop.{EventLoop, Handlers, set_conn, on_close}
use mevent.EventLoop.Events.{Io, answer_error, after_read, push_tasks}
use mevent.EventLoop.Workers.{not_found, finish_response}

abbrev pub sockets : EventLoop → Links
sockets lp c = (lp.conns c).io.fd

-- The pool and every socket are the same.
pub record Same (a b : EventLoop) : Type 0 where
  pub pool : b.conn_pool ≡ a.conn_pool
  pub fds : (c : ℕ) → sockets b c ≡ sockets a c

pub Same-refl : (a : EventLoop) → Same a a
Same-refl a = record { pool = refl; fds = λ c. refl }

pub Same-trans : (a b c : EventLoop) → Same a b → Same b c → Same a c
Same-trans a b c p q = record { pool = q.pool ∙ p.pool; fds = λ x. q.fds x ∙ p.fds x }

pub set_conn-Same :
    (lp : EventLoop) (c : ℕ) (conn : Conn)
    → conn.io.fd ≡ sockets lp c
    → Same lp (set_conn lp c conn)
set_conn-Same lp c conn e = record {
  pool = refl;
  fds = λ d. elim (Bool-cases (c == d)) [
    | inl same ↦ rw (sockets, same) (e ∙ ap (sockets lp) ((==_iff c d).0 same))
    | inr other ↦ rw (sockets, other) refl
  ];
}

write_string-fd : (c : Connection) (str : Bytes) → (write_string c str).fd ≡ c.fd
write_string-fd c [] = refl
write_string-fd c (b ∷ str) = ground arith

flush-fd : (c : Connection) (results : List WriteResult) → (flush c results).1.fd ≡ c.fd
unfolding flush
flush-fd c results = ground arith

pub flush_conn-fd :
    (c : Conn) (results : List WriteResult) → (flush_conn c results).1.io.fd ≡ c.io.fd
unfolding flush_conn
flush_conn-fd c results = flush-fd (record c.io { upgraded = is_upgrade c.req.status }) results

answer_error-fd : (c : Conn) (io : Io) → (answer_error c io).1.io.fd ≡ c.io.fd
unfolding answer_error
answer_error-fd c io =
    let (resp, out) = write_error_message c.resp c.io c.req.error_code io.date in
    flush_conn-fd (record c { resp = resp; io = out }) io.writes
    ∙ write_string-fd c.io (Response.error_message c.req.error_code io.date)

pub after_read-fd : (s : ConnStatus) (c : Conn) (io : Io) → (after_read s c io).1.io.fd ≡ c.io.fd
unfolding after_read
after_read-fd ConnStatus.error c io = elim (Bool-cases (c.req.error_code == 0)) [
  | inl e ↦ rw e refl
  | inr e ↦ rw e (answer_error-fd c io)
]
after_read-fd ConnStatus.again c io = refl
after_read-fd ConnStatus.upgrade c io = refl
after_read-fd ConnStatus.end c io = refl
after_read-fd ConnStatus.close c io = refl

pub push_tasks-Same : (lp : EventLoop) (c : ℕ) (r : ConnRead) → Same lp (push_tasks lp c r)
unfolding push_tasks
push_tasks-Same lp c r = elim (Bool-cases r.task_pushed) [
  | inl e ↦ rw e (record { pool = refl; fds = λ d. refl })
  | inr e ↦ rw e (record { pool = refl; fds = λ d. refl })
]

pub not_found-fd : (c : Conn) (date : Bytes) → (not_found c date).io.fd ≡ c.io.fd
unfolding not_found
not_found-fd c date = write_string-fd c.io (Response.error_message 404 date)

flush_written-fd :
    (r : Response) (c : Connection) (date wbuf : Bytes) → (flush_written r c date wbuf).1.fd ≡ c.fd
flush_written-fd r c date [] = refl
flush_written-fd r c date (b ∷ wbuf) =
    let head = (Response.make_header (Response.with_length r) date).0 in
    write_string-fd (write_string c head) (b ∷ wbuf) ∙ write_string-fd c head

pub finish_response-fd : (c : Conn) (date : Bytes) → (finish_response c date).io.fd ≡ c.io.fd
unfolding finish_response
finish_response-fd c date = elim (Bool-cases (is_upgrade c.req.status)) [
  | inl e ↦ rw e refl
  | inr e ↦ rw e (flush_written-fd c.resp c.io date c.resp.wbuf)
]

websocket_read-fd :
    (c : Conn) (reads : List (Option Bytes))
    → Whenever (λ r. r.conn.io.fd ≡ c.io.fd) (websocket_read c reads)
websocket_read-fd c reads = elim (Option-cases (Send.read_data c.ws [] reads)) [
  | inl n ↦ rw (websocket_read, n) tt
  | inr (out, n) ↦ rw (websocket_read, n) refl
]

pub read_data-fd :
    (max_header_size max_post_size now : ℕ) (c : Conn) (reads : List (Option Bytes))
    → Whenever (λ r. r.conn.io.fd ≡ c.io.fd) (read_data max_header_size max_post_size now c reads)
unfolding read_data
read_data-fd h p now c reads = elim (Option-cases c.io.fd) [
  | inl n ↦ rw (read_data, n) n
  | inr (fd, n) ↦ elim (Bool-cases (is_upgrade c.req.status)) [
    | inl up ↦
        rw (read_data, n, up)
          (subst
            (λ fd.
              Whenever (λ r. r.conn.io.fd ≡ fd)
                (websocket_read (record c { active_time = now }) reads))
            n (websocket_read-fd (record c { active_time = now }) reads))
    | inr up ↦ rw (read_data, n, up) n
  ]
]

pub on_close-Same :
    (h : Handlers)
    → ((f c : ℕ) (lp : EventLoop) → Same lp (h.on_close f c lp))
    → (lp : EventLoop) (c : ℕ) → Whenever (Same lp) (on_close h lp c)
unfolding on_close
on_close-Same h quiet lp c = elim (Bool-cases (is_upgrade (lp.conns c).req.status)) [
  | inr other ↦ rw (on_close, other) (Same-refl lp)
  | inl up ↦ elim (Option-cases (lp.conns c).callbacks.on_close_func) [
    | inl unset ↦ rw (on_close, up, unset) tt
    | inr (f, set) ↦ rw (on_close, up, set) (quiet f c lp)
  ]
]
