-- ===== src/Tests/EventLoop.antt =====
-- event_loop.cpp on concrete inputs.
use mevent.Common.{◌≡◌, refl, ap, true, false, [], ◌∷◌, some, none, arith, codes, inl, inr}
use mevent.TernarySearchTree.{leaf}
use mevent.Request.{RequestStatus}
use mevent.ConnectionPool.{
  connection_pool, new_connection, free_list_pop, active_list_push, active_list_erase,
}
use mevent.ConnectionPool.Active.{IsActive, active_list_push-IsActive}
use mevent.Connection.{flush, write_buffer, wrote}
use mevent.Connection.Whole.{Conn, flush_conn, is_positive, no_callbacks}
use mevent.EventLoop.{EventLoop, Handlers, set_conn, settle, retire}
use mevent.EventLoop.Events.{Io, on_event, on_write, Accepted, accept}
use mevent.EventLoop.Workers.{write_out}
use mevent.EventLoop.Timeout.{check_connection_timeout}
use mevent.EventLoop.Setup.{event_loop, loop, new_conn}
use mevent.EventLoop.Consistency.{IsConsistent}
use mevent.EventLoop.Frames.{sockets, Same-refl}
use mevent.EventLoop.Sound.{IsSound, AreTame, quiet}
use mevent.EventLoop.Steps.{accepted, event, here, next, Reach-IsSound}
use mevent.EventLoop.Stale.{IsLone, on_event-stale, interrupted_update}
use mevent.EventLoop.Idle.Pass.{Leaves, check_connection_timeout_lem}
use mevent.EventLoop.Drained.{drained_websocket}

abbrev start : EventLoop
start = loop event_loop leaf

abbrev idle_handlers : Handlers
idle_handlers = record {
  on_request = λ f c lp. lp;
  on_frame = λ f c msg lp. lp;
  on_close = λ f c lp. lp;
}

idle_handlers-AreTame : AreTame idle_handlers
idle_handlers-AreTame = record {
  requests = λ f c lp. quiet (Same-refl lp);
  frames = λ f c msg lp. quiet (Same-refl lp);
  closes = λ f c lp. Same-refl lp;
}

abbrev client : Accepted
client = record { clifd = 5; addr = 1; now = 100; set_up = true; with_ssl = false }

abbrev refused_client : Accepted
refused_client = record { clifd = 6; addr = 1; now = 100; set_up = false; with_ssl = false }

abbrev silent : Io
silent = record { now = 101; date = []; reads = []; writes = [] }

abbrev two_clients : EventLoop
two_clients = accept start (client ∷ refused_client ∷ [])

open_test : sockets two_clients 0 ≡ some 5
unfolding accept free_list_pop active_list_push
open_test = refl

-- After an event that the first client's socket can be written to.
abbrev written_client : EventLoop
written_client = set_conn two_clients 0 (flush_conn (two_clients.conns 0) []).1

written_test : on_event idle_handlers two_clients 0 false true silent ≡ some written_client
unfolding accept free_list_pop active_list_push on_event on_write flush_conn flush settle
written_test = refl

Reach-IsSound_example : IsSound written_client
Reach-IsSound_example =
    Reach-IsSound idle_handlers idle_handlers-AreTame start written_client 1024
      (record { pool = refl; fds = λ c. refl })
      (next (next here (accepted (client ∷ refused_client ∷ []) refl))
        (event 0 false true silent written_test))
      ((tt, (omega arith, (omega arith, tt))), ap is_positive open_test)

abbrev one_open : EventLoop
one_open = record start { conn_pool = active_list_push (new_connection (connection_pool 1024)) 0 }

one_open-IsActive : IsActive one_open.conn_pool (0 ∷ [])
unfolding new_connection
one_open-IsActive =
    active_list_push-IsActive (new_connection (connection_pool 1024)) 0 []
      (record { linked = (refl, refl); distinct = tt; unlinked = λ c n. ground arith }) tt

on_event-stale_example :
    (lp' : EventLoop) × (on_event idle_handlers one_open 7 true false silent ≡ some lp')
    × IsLone lp'.conn_pool 7
    × (sockets lp' 7 ≡ none)
on_event-stale_example =
    on_event-stale idle_handlers one_open 7 false silent (0 ∷ []) one_open-IsActive
      (omega arith, tt) refl

-- A connection that was last read from at time 100.
abbrev old_conn : Conn
old_conn = record new_conn {
  io = record { fd = some 5; write_buffer_chain = []; upgraded = false; finish = false };
  active_time = 100;
}

abbrev old_loop : EventLoop
old_loop = set_conn one_open 0 old_conn

-- Two connections are active, and the first one is open.
abbrev two_linked : EventLoop
two_linked = record old_loop { conn_pool = active_list_push old_loop.conn_pool 1 }

two_linked-IsActive : IsActive two_linked.conn_pool (0 ∷ 1 ∷ [])
unfolding set_conn
two_linked-IsActive =
    active_list_push-IsActive one_open.conn_pool 1 (0 ∷ []) one_open-IsActive (omega arith, tt)

first_open : is_positive (sockets two_linked 0) ≡ true
unfolding set_conn
first_open = refl

interrupted_update_example :
    let erased = record two_linked { conn_pool = active_list_erase two_linked.conn_pool 0 } in
    let reset_between = retire erased 0 in
    IsLone (active_list_push reset_between.conn_pool 0) 0 × (sockets reset_between 0 ≡ none)
interrupted_update_example =
    interrupted_update two_linked [] 0 (1 ∷ []) two_linked-IsActive first_open

old_loop-IsConsistent : IsConsistent old_loop.conn_pool (sockets old_loop) (0 ∷ []) []
unfolding active_list_push new_connection
old_loop-IsConsistent = record {
  active_list = one_open-IsActive;
  free_list = refl;
  free_distinct = tt;
  apart = tt;
  opened = (refl, tt);
  closed = λ c n. ground (arith, n);
  known_active = (omega arith, tt);
  known_free = tt;
  bounded = omega arith;
}

check_connection_timeout_lem_example :
    Leaves (check_connection_timeout 2 idle_handlers old_loop 130) []
check_connection_timeout_lem_example =
    check_connection_timeout_lem idle_handlers (λ f c lp. refl) 130 2 old_loop (0 ∷ []) [] []
      old_loop-IsConsistent ((omega arith, omega arith, inl refl), tt) tt (omega arith)

-- A websocket of which one buffer waits to be written.
abbrev drained_conn : Conn
drained_conn = record old_conn {
  io = record old_conn.io { write_buffer_chain = write_buffer (codes "hi") ∷ [] };
  req = record old_conn.req { status = RequestStatus.upgrade };
  callbacks = record no_callbacks { on_close_func = some 0 };
}

abbrev drained_loop : EventLoop
drained_loop = set_conn one_open 0 drained_conn

abbrev writing : Io
writing = record { now = 101; date = []; reads = []; writes = wrote 2 ∷ [] }

drained_websocket_example :
    (stopped : EventLoop) × (kept : EventLoop) × (on_write idle_handlers drained_loop 0 writing
      ≡ some stopped)
    × (sockets stopped 0 ≡ none)
    × (write_out idle_handlers drained_loop 0 (wrote 2 ∷ []) ≡ some kept)
    × (sockets kept 0 ≡ some 5)
    × ((kept.conns 0).io.write_buffer_chain ≡ [])
drained_websocket_example =
    drained_websocket idle_handlers (λ f c lp. refl) drained_loop 0 4 writing refl (inr (0, refl))
      refl (omega arith, tt)
