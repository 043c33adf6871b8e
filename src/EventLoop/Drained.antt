-- ===== src/EventLoop/Drained.antt =====
-- event_loop.cpp: what `OnWrite` and the workers do with a websocket whose queue has been written out.
use mevent.Common.{
  suc, ◌+◌, ◌==◌, [], ◌∷◌, ℕ, ◌≡◌, refl, sym, ap, ◌∙◌, subst, true, List, ==_iff, some, none,
}
use mevent.Request.{RequestStatus}
use mevent.Connection.{
  WriteBuffer, Connection, flush_chain, flush, wrote, failed_after, WriteResult, ConnStatus,
}
use mevent.Connection.Whole.{Conn, is_upgrade, is_positive, flush_conn}
use mevent.EventLoop.{EventLoop, Handlers, set_conn, retire, settle, settle_written}
use mevent.EventLoop.Events.{Io, on_write}
use mevent.EventLoop.Workers.{write_out}
use mevent.EventLoop.Frames.{sockets, flush_conn-fd}
use mevent.EventLoop.Sound.{retire-closed}
use mevent.EventLoop.Idle.{IsQuiet, IsClosable, reset_connection-quiet}

set_conn_here : (lp : EventLoop) (c : ℕ) (conn : Conn) → (set_conn lp c conn).conns c ≡ conn
set_conn_here lp c conn = rw (set_conn, (==_iff c c).1 refl) refl

flush_conn-IsClosable :
    (conn : Conn) (writes : List WriteResult)
    → IsClosable conn
    → IsClosable (flush_conn conn writes).1
unfolding flush_conn
flush_conn-IsClosable conn writes k = k

-- The calls of `Writen` write all that waits.
abbrev pub Drains : List WriteBuffer → List WriteResult → Type 0
Drains [] results = Unit
Drains (wb ∷ chain) [] = ⊥
Drains (wb ∷ chain) (failed_after n ∷ results) = ⊥
Drains (wb ∷ chain) (wrote n ∷ results) = (wb.write_len + n ≡ wb.len) × Drains chain results

flush_chain-Drains :
    (chain : List WriteBuffer) (results : List WriteResult)
    → Drains chain results
    → ((flush_chain chain results).returned ≡ none) × ((flush_chain chain results).chain ≡ [])
unfolding flush_chain
flush_chain-Drains [] results d = (refl, refl)
flush_chain-Drains (wb ∷ chain) [] d = absurd d
flush_chain-Drains (wb ∷ chain) (failed_after n ∷ results) d = absurd d
flush_chain-Drains (wb ∷ chain) (wrote n ∷ results) d =
    let whole : (wb.write_len + n == wb.len) ≡ true = (==_iff (wb.write_len + n) wb.len).1 d.0 in
    rw whole (flush_chain-Drains chain results d.1)

flush-Drains :
    (c : Connection) (fd : ℕ) (results : List WriteResult)
    → c.fd ≡ some fd
    → c.upgraded ≡ true
    → Drains c.write_buffer_chain results
    → ((flush c results).0 ≡ ConnStatus.upgrade) × ((flush c results).1.write_buffer_chain ≡ [])
unfolding flush
flush-Drains c fd results open_fd up d =
    let (returned, chain) = flush_chain-Drains c.write_buffer_chain results d in
    simp (flush, open_fd, up, returned, chain) (refl, refl)

-- For an open connection with a socket above 0, whose request has been upgraded and whose close
-- function is set, where the calls of `Writen` write all that waits, and with close functions that
-- leave the loop as it is: `OnWrite` resets the connection, so that its socket is closed, while
-- the end of a worker's round, on the same results of the writes, leaves it open, with nothing
-- waiting.
pub drained_websocket :
    (h : Handlers)
    → IsQuiet h
    → (lp : EventLoop) (c fd : ℕ) (io : Io) → sockets lp c ≡ some (suc fd)
    → IsClosable (lp.conns c)
    → (lp.conns c).req.status ≡ RequestStatus.upgrade
    → Drains (lp.conns c).io.write_buffer_chain io.writes
    → (stopped : EventLoop) × (kept : EventLoop) × (on_write h lp c io ≡ some stopped)
      × (sockets stopped c ≡ none)
      × (write_out h lp c io.writes ≡ some kept)
      × (sockets kept c ≡ some (suc fd))
      × ((kept.conns c).io.write_buffer_chain ≡ [])
unfolding on_write write_out settle settle_written flush_conn
drained_websocket h q lp c fd io open_fd k up d =
    let conn = (flush_conn (lp.conns c) io.writes).1 in
    let written = set_conn lp c conn in
    let here = set_conn_here lp c conn in
    let (drained, empty) =
      flush-Drains (record (lp.conns c).io { upgraded = is_upgrade (lp.conns c).req.status })
        (suc fd) io.writes open_fd (ap is_upgrade up) d in
    let kept : sockets written c ≡ some (suc fd) =
      ap (λ x. x.io.fd) here ∙ flush_conn-fd (lp.conns c) io.writes ∙ open_fd in
    let still : is_positive (sockets written c) ≡ true = ap is_positive kept in
    let closable : IsClosable (written.conns c) =
      subst IsClosable (sym here) (flush_conn-IsClosable (lp.conns c) io.writes k) in
    (
      retire written c,
      written,
      rw (on_write, drained) (reset_connection-quiet h q written c closable still),
      retire-closed written c still,
      rw (write_out, drained) refl,
      kept,
      ap (λ x. x.io.write_buffer_chain) here ∙ empty,
    )
