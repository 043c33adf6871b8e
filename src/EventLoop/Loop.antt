-- ===== src/EventLoop/Loop.antt =====
-- event_loop.cpp: the events of one `Poll`, as `Loop` works them off.
use mevent.Common.{List, [], ◌∷◌, Option, some, none}
use mevent.EventLoopBase.{Event, has, mevent_in, mevent_out}
use mevent.EventLoop.{EventLoop, Handlers}
use mevent.EventLoop.Events.{Io, on_event, Accepted, accept}

-- An event, with what its calls give: those of `Accept` on the listening socket, or those on a
-- connection.
pub record Occurrence : Type 0 where
  pub event : Event
  pub given : List Accepted
  pub io : Io

unfoldable pub loop_event : Handlers → EventLoop → Occurrence → Option EventLoop
loop_event h lp o = elim o.event.ptr [
  | none ↦ some (accept lp o.given)
  | some c ↦ on_event h lp c (has o.event.mask mevent_in) (has o.event.mask mevent_out) o.io
]

unfoldable pub loop_events : Handlers → EventLoop → List Occurrence → Option EventLoop
unfolding loop_event
loop_events h lp [] = some lp
loop_events h lp (o ∷ rest) = elim (loop_event h lp o) [
  | none ↦ none
  | some lp' ↦ loop_events h lp' rest
]
