-- ===== src/WebSocket/Handshake.antt =====
-- websocket.cpp: `Handshake` and `Upgrade`, and the functions that set the handlers. SHA-1 and the
-- text of the date are arguments; `conn_` is the connection.
pub mod Opening
use mevent.Common.{
  ℕ, ◌≡◌, refl, Bool, true, false, Bytes, [], ◌∷◌, ◌++◌, Option, some, codes, IsBytes,
}
use mevent.Base64.{base64_encode, base64_decode}
use mevent.Base64.RoundTrip.{base64_decode-base64_encode}
use mevent.Request.{RequestStatus}
use mevent.Response.{crlf, server}
use mevent.Connection.{write_string}
use mevent.Connection.Queue.{pending, write_string-pending}
use mevent.Connection.Whole.{Conn}

-- The GUID of RFC 6455.
abbrev pub guid : Bytes
guid = codes "258EAFA5-E914-47DA-95CA-C5AB0DC85B11"

-- The response, with the text of `Sec-WebSocket-Accept`.
abbrev pub switching_protocols : Bytes → Bytes → Bytes
switching_protocols date accept =
    codes "HTTP/1.1 101 Switching Protocols"
    ++ crlf
    ++ codes "Server: "
    ++ server
    ++ crlf
    ++ codes "Date: "
    ++ date
    ++ crlf
    ++ codes "Upgrade: websocket"
    ++ crlf
    ++ codes "Connection: Upgrade"
    ++ crlf
    ++ codes "Sec-WebSocket-Accept: "
    ++ accept
    ++ crlf
    ++ crlf

abbrev pub handshake : (Bytes → Bytes) → Bytes → Bytes → Bytes
handshake sha1 date sec_websocket_key =
    switching_protocols date (base64_encode (sha1 (sec_websocket_key ++ guid)))

-- The branch of `Upgrade` on the key.
abbrev pub upgrade_with : (Bytes → Bytes) → Bytes → Conn → Bytes → Bool × Conn
upgrade_with sha1 date conn [] = (false, conn)
upgrade_with sha1 date conn (k ∷ key) = (
  true,
  record conn {
    req = record conn.req { status = RequestStatus.upgrade };
    io = write_string conn.io (handshake sha1 date (k ∷ key));
  },
)

unfoldable pub upgrade : (Bytes → Bytes) → Bytes → Conn → Bool × Conn
upgrade sha1 date conn = upgrade_with sha1 date conn conn.req.sec_websocket_key

abbrev pub set_on_message_handler : Conn → Option ℕ → Conn
set_on_message_handler conn func = record conn {
  callbacks = record conn.callbacks { on_message_func = func };
}

abbrev pub set_ping_handler : Conn → Option ℕ → Conn
set_ping_handler conn func = record conn { callbacks = record conn.callbacks { ping_func = func } }

abbrev pub set_pong_handler : Conn → Option ℕ → Conn
set_pong_handler conn func = record conn { callbacks = record conn.callbacks { pong_func = func } }

abbrev pub set_on_close_handler : Conn → Option ℕ → Conn
set_on_close_handler conn func = record conn {
  callbacks = record conn.callbacks { on_close_func = func };
}

abbrev pub set_max_buffer_size : Conn → ℕ → Conn
set_max_buffer_size conn size = record conn { ws = record conn.ws { max_buffer_size = size } }

-- For a hash function that gives bytes, and a connection with a socket and a key from the request,
-- `Upgrade` returns true, sets the request's status, and queues behind what waits one response with
-- status 101, whose accept token decodes to the hash of the key with the GUID behind it.
pub upgrade_lem :
    (sha1 : Bytes → Bytes)
    → ((s : Bytes) → IsBytes (sha1 s))
    → (date : Bytes) (conn : Conn) (fd k : ℕ) (key : Bytes) → conn.io.fd ≡ some fd
    → conn.req.sec_websocket_key ≡ k ∷ key
    → let (done, conn') = upgrade sha1 date conn in
      (done ≡ true)
      × (conn'.req.status ≡ RequestStatus.upgrade)
      × (token : Bytes) × (pending conn'.io.write_buffer_chain
          ≡ pending conn.io.write_buffer_chain ++ switching_protocols date token)
      × (base64_decode token ≡ sha1 ((k ∷ key) ++ guid))
unfolding upgrade
upgrade_lem sha1 digests date conn fd k key open_fd e =
    let token = base64_encode (sha1 ((k ∷ key) ++ guid)) in
    rw (upgrade, e)
      (
        refl,
        refl,
        token,
        write_string-pending conn.io fd (handshake sha1 date (k ∷ key)) open_fd,
        base64_decode-base64_encode (sha1 ((k ∷ key) ++ guid)) (digests ((k ∷ key) ++ guid)),
      )
