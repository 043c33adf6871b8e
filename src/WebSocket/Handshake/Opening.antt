-- ===== src/WebSocket/Handshake/Opening.antt =====
-- `Upgrade` on the text of a client's opening handshake, from `Parse` of request.cpp to the response
-- of websocket.cpp.
use mevent.Common.{
  ℕ, ◌≡◌, ◌≢◌, ◌<◌, ◌^◌, ap, ◌∙◌, true, Bytes, IsBytes, List, ◌∷◌, ◌++◌, append_assoc, [], codes,
  some, length, All,
}
use mevent.Base64.{base64_decode}
use mevent.Request.{Request, RequestMethod, RequestStatus, unknown_method, new_request}
use mevent.Request.Parse.{finished, parse}
use mevent.Request.Parse.Lines.{Header, IsUrlText}
use mevent.Request.Parse.RequestText.{
  HeaderLine, IsLine, Fits, read_lines, request_line, request_text,
}
use mevent.Request.Parse.WellFormed.{parse-request_text}
use mevent.Connection.Queue.{pending}
use mevent.Connection.Whole.{Conn}
use mevent.WebSocket.Handshake.{switching_protocols, upgrade, upgrade_lem}

abbrev line : Bytes → Bytes
line text = text ++ 13 ∷ 10 ∷ []

-- The server's opening handshake of RFC 6455, with the header lines that this server adds.
abbrev pub opening_response : Bytes → Bytes → Bytes
opening_response date accept =
    line (codes "HTTP/1.1 101 Switching Protocols")
    ++ line (codes "Server: mevent")
    ++ line (codes "Date: " ++ date)
    ++ line (codes "Upgrade: websocket")
    ++ line (codes "Connection: Upgrade")
    ++ line (codes "Sec-WebSocket-Accept: " ++ accept)
    ++ line []

-- What RFC 6455 puts behind the key.
abbrev pub handshake_guid : Bytes
handshake_guid = codes "258EAFA5-E914-47DA-95CA-C5AB0DC85B11"

switching_protocols_lem :
    (date accept : Bytes) → switching_protocols date accept ≡ opening_response date accept
switching_protocols_lem date accept = simp append_assoc

-- Let the header lines of a request give a key, let the rest of its text be well-formed and the whole
-- shorter than 4 GiB, and let the hash function give bytes. Then `Parse` takes the whole text, and
-- `Upgrade` on a connection that has a socket and the parsed request returns true, sets the status of
-- the request, and queues behind what waits the server's opening handshake, whose accept token decodes
-- to the hash of that key with the GUID of RFC 6455 behind it.
pub upgrade-request_text :
    (sha1 : Bytes → Bytes)
    → ((s : Bytes) → IsBytes (sha1 s))
    → (date : Bytes) (conn : Conn) (fd : ℕ) (method : RequestMethod) (path query : Bytes)
      (lines : List HeaderLine) (k : ℕ) (key : Bytes)
    → conn.io.fd ≡ some fd
    → method ≢ unknown_method
    → IsUrlText path
    → IsUrlText query
    → All IsLine lines
    → Fits (request_line method (47 ∷ path) query) lines
    → length (request_text method path query lines) < 2 ^ 32
    → (read_lines (request_line method (47 ∷ path) query) lines).sec_websocket_key ≡ k ∷ key
    → let text = request_text method path query lines in
      (last : Request) × (parse (record new_request { rbuf = text; rbuf_len = length text })
        ≡ some (finished, last))
      × (let (done, conn') = upgrade sha1 date (record conn { req = last }) in
          (done ≡ true)
          × (conn'.req.status ≡ RequestStatus.upgrade)
          × (token : Bytes) × (pending conn'.io.write_buffer_chain
              ≡ pending conn.io.write_buffer_chain ++ opening_response date token)
          × (base64_decode token ≡ sha1 ((k ∷ key) ++ handshake_guid)))
upgrade-request_text sha1 digests date conn fd method path query lines k key open_fd known text
      asked fine fits small given =
    let (last, ends, read, all) =
      parse-request_text method path query lines known text asked fine fits small in
    let (done, marked, token, queued, decodes) =
      upgrade_lem sha1 digests date (record conn { req = last }) fd k key open_fd
        (ap (λ (h : Header). h.sec_websocket_key) read ∙ given) in
    let front = pending conn.io.write_buffer_chain in
    (
      last,
      ends,
      (
        done,
        marked,
        token,
        queued ∙ ap (λ text. front ++ text) (switching_protocols_lem date token),
        decodes,
      ),
    )
