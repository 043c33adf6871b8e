-- ===== src/Tests/Sending.antt =====
-- The sending operations of websocket.cpp on concrete inputs.
use mevent.Common.{◌≡◌, refl, true, false, [], ◌∷◌, some, codes}
use mevent.Connection.{Connection, write_buffer, flush, failed_after}
use mevent.WebSocket.Frame.{make_frame}
use mevent.WebSocket.Send.{write_string_safe}

abbrev waiting : Connection
waiting = record {
  fd = some 5;
  write_buffer_chain = write_buffer (codes "abc") ∷ [];
  upgraded = true;
  finish = false;
}

-- A write that fails is reported as one that succeeds.
failed_write : (write_string_safe waiting (codes "hi") (failed_after 0 ∷ [])).0 ≡ true
unfolding flush make_frame
failed_write = refl
