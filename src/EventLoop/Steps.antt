-- ===== src/EventLoop/Steps.antt =====
-- event_loop.cpp: the serial runs of a loop's threads as one step relation. A step is a whole event or
-- a whole round of one thread. The code lets other threads in between: `Loop` calls
-- `ActiveListUpdate`, which locks the pool twice, before it takes the connection's mutex. What
-- is shown here is that of runs in which it does not come to that.
use mevent.Connection.{WriteResult}
use mevent.Common.{
  ℕ, ◌<◌, ◌≡◌, refl, sym, subst₂, fun_ext, Bool, true, Bytes, List, [], some, none, arith, All,
  Whenever-some,
}
use mevent.ConnectionPool.{connection_pool}
use mevent.Connection.Whole.{is_positive}
use mevent.EventLoop.{EventLoop, Handlers}
use mevent.EventLoop.Events.{Io, on_event, Accepted, accept}
use mevent.EventLoop.Workers.{worker, web_socket_worker}
use mevent.EventLoop.Timeout.{check_connection_timeout}
use mevent.EventLoop.Consistency.{IsConsistent}
use mevent.EventLoop.Frames.{sockets}
use mevent.EventLoop.Sound.{IsSound, AreTame}
use mevent.EventLoop.Handling.{on_event-IsSound}
use mevent.EventLoop.Serving.{worker-IsSound, web_socket_worker-IsSound}
use mevent.EventLoop.Admission.{accept-IsSound, check_connection_timeout-IsSound}

pub data Step (h : Handlers) (lp lp' : EventLoop) : Type 0 where
  accepted : (given : List Accepted) → lp' ≡ accept lp given → Step h lp lp'
  event :
      (c : ℕ) (event_in event_out : Bool) (io : Io)
      → on_event h lp c event_in event_out io ≡ some lp'
      → Step h lp lp'
  worked :
      (date : Bytes) (writes : List WriteResult)
      → worker h lp date writes ≡ some lp'
      → Step h lp lp'
  web_socket_worked :
      (writes : List WriteResult) → web_socket_worker h lp writes ≡ some lp' → Step h lp lp'
  timed_out : (rounds now : ℕ) → check_connection_timeout rounds h lp now ≡ some lp' → Step h lp lp'

pub data Reach (h : Handlers) (lp : EventLoop) : EventLoop → Type 0 where
  here : Reach h lp lp
  next : {m n : EventLoop} → Reach h lp m → Step h m n → Reach h lp n

-- The sockets that `accept` gives are above 0, and an event is that of an open connection, which
-- `Loop` does not ask.
abbrev pub IsTimely : {h : Handlers} {lp lp' : EventLoop} → Step h lp lp' → Type 0
IsTimely (accepted given e) = All (λ a. 0 < a.clifd) given
IsTimely {h} {lp} (event c event_in event_out io e) = is_positive (sockets lp c) ≡ true
IsTimely (worked date writes e) = Unit
IsTimely (web_socket_worked writes e) = Unit
IsTimely (timed_out rounds now e) = Unit

abbrev pub AreTimely : {h : Handlers} {lp lp' : EventLoop} → Reach h lp lp' → Type 0
AreTimely here = Unit
AreTimely (next r st) = AreTimely r × IsTimely st

-- The state that `Loop` starts from: a new pool, and no connection with a socket.
pub record IsStart (lp : EventLoop) (max_conn : ℕ) : Type 0 where
  pub pool : lp.conn_pool ≡ connection_pool max_conn
  pub fds : (c : ℕ) → sockets lp c ≡ none

pub IsStart-IsSound : (lp : EventLoop) (max_conn : ℕ) → IsStart lp max_conn → IsSound lp
IsStart-IsSound lp max_conn s =
    let fresh : IsConsistent (connection_pool max_conn) (λ c. none) [] [] = record {
      active_list = record { linked = (refl, refl); distinct = tt; unlinked = λ c n. (refl, refl) };
      free_list = refl;
      free_distinct = tt;
      apart = tt;
      opened = tt;
      closed = λ c n. refl;
      known_active = tt;
      known_free = tt;
      bounded = omega arith;
    } in
    ([], [], subst₂ (λ p fd. IsConsistent p fd [] []) (sym s.pool) (sym (fun_ext s.fds)) fresh)

pub Step-IsSound :
    (h : Handlers)
    → AreTame h
    → (lp lp' : EventLoop) (st : Step h lp lp') → IsTimely st
    → IsSound lp
    → IsSound lp'
Step-IsSound h t lp lp' (accepted given e) timely v = rw e (accept-IsSound lp given timely v)
Step-IsSound h t lp lp' (event c event_in event_out io e) timely v =
    Whenever-some IsSound (on_event h lp c event_in event_out io) lp'
      (on_event-IsSound h t lp c event_in event_out io timely v) e
Step-IsSound h t lp lp' (worked date writes e) timely v =
    Whenever-some IsSound (worker h lp date writes) lp' (worker-IsSound h t lp date writes v) e
Step-IsSound h t lp lp' (web_socket_worked writes e) timely v =
    Whenever-some IsSound (web_socket_worker h lp writes) lp'
      (web_socket_worker-IsSound h t lp writes v) e
Step-IsSound h t lp lp' (timed_out rounds now e) timely v =
    Whenever-some IsSound (check_connection_timeout rounds h lp now) lp'
      (check_connection_timeout-IsSound h t rounds lp now v) e

-- In a serial run of a loop from its start, in which events and rounds of its threads follow each
-- other without interleaving, `accept` gives sockets above 0, each event is that of a connection
-- that is open at its turn, and the registered functions close connections only by `Close`, the
-- close functions none: after every step, the active list holds each connection with an open
-- socket and no other, once, in links that are whole in both directions; the free list is whole
-- and holds none of them; and there is at most one connection more than the pool's limit.
pub Reach-IsSound :
    (h : Handlers)
    → AreTame h
    → (lp lp' : EventLoop) (max_conn : ℕ) → IsStart lp max_conn
    → (r : Reach h lp lp') → AreTimely r
    → IsSound lp'
Reach-IsSound h t lp _ max_conn s here timely = IsStart-IsSound lp max_conn s
Reach-IsSound h t lp lp' max_conn s (next {m} r st) timely =
    Step-IsSound h t m lp' st timely.1 (Reach-IsSound h t lp m max_conn s r timely.0)
