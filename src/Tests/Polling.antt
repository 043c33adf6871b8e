-- ===== src/Tests/Polling.antt =====
-- event_loop_base_epoll.cpp and the batch of events of event_loop.cpp, with the bits of Linux.
use mevent.Common.{◌≡◌, refl, true, [], ◌∷◌, some, none}
use mevent.TernarySearchTree.{leaf}
use mevent.ConnectionPool.{free_list_pop, active_list_push}
use mevent.Connection.{flush}
use mevent.Connection.Whole.{flush_conn}
use mevent.EventLoopBase.{EpollBits, watched, polled}
use mevent.EventLoop.{EventLoop, Handlers, settle}
use mevent.EventLoop.Events.{Io, on_event, on_write, Accepted, accept}
use mevent.EventLoop.Setup.{event_loop, loop}
use mevent.EventLoop.Loop.{loop_events}

abbrev linux : EpollBits
linux = record { epollin = 1; epollout = 4; epollerr = 8; epollhup = 16; epollet = 0x80000000 }

watched_test : watched linux 3 ≡ 0x80000005
watched_test = refl

hung_up_test : polled linux 17 (some 0) ≡ record { mask = 3; ptr = some 0 }
hung_up_test = refl

failed_test : polled linux 8 (some 0) ≡ record { mask = 2; ptr = some 0 }
failed_test = refl

abbrev handlers : Handlers
handlers = record {
  on_request = λ f c lp. lp;
  on_frame = λ f c msg lp. lp;
  on_close = λ f c lp. lp;
}

abbrev client : Accepted
client = record { clifd = 5; addr = 1; now = 100; set_up = true; with_ssl = true }

abbrev quiet_io : Io
quiet_io = record { now = 101; date = []; reads = []; writes = [] }

-- The listening socket, and then the new connection.
abbrev batch_result : EventLoop
batch_result =
    elim (loop_events handlers (loop event_loop leaf) (
      record { event = polled linux 1 none; given = client ∷ []; io = quiet_io }
      ∷ record { event = polled linux 4 (some 0); given = []; io = quiet_io }
      ∷ [])) [ none ↦ loop event_loop leaf | some lp ↦ lp ]

batch_test : (batch_result.conns 0).io.fd ≡ some 5
unfolding loop_events on_event on_write flush_conn flush settle accept free_list_pop
    active_list_push
batch_test = refl
