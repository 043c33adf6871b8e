-- ===== src/Examples/ChatRoom.antt =====
-- examples/chat_room.cpp. A websocket is named by the number of its connection, in the order of the
-- addresses. A `std::map` is a function, a `std::set` the list of its elements in their order. What
-- runs under a mutex is one step; waiting for a condition is not part of it. The text of the page,
-- SHA-1 and the date are arguments.
pub mod Clients
pub mod Rooms
pub mod Runs
pub mod Delivery
use mevent.Common.{
  ℕ, Bool, true, false, Bytes, List, [], ◌∷◌, ◌++◌, Option, some, none, ltb, ◌==◌, if◌then◌else◌,
  codes, pos,
}
use mevent.Request.{RequestMethod, post_method, same_bytes, query_string_value, post_form_value}
use mevent.Request.Fields.{is_empty, parse_query_string, parse_post_form}
use mevent.Response.{Response, set_header, write, write_error_message}
use mevent.WebSocket.{text_frame}
use mevent.WebSocket.Frame.{make_frame}
use mevent.WebSocket.Send.{send_text, send_pong, write_raw_data_safe}
use mevent.WebSocket.Handshake.{
  upgrade, set_ping_handler, set_on_close_handler, set_on_message_handler, set_max_buffer_size,
}
use mevent.Connection.{WriteResult, Connection}
use mevent.Connection.Whole.{Conn}
use mevent.HttpServer.{
  HttpServer, http_server, set_handler, set_worker_threads, set_idle_timeout,
  set_max_worker_connections,
}

-- `frame` is the field `data`.
pub record Task : Type 0 where
  pub channel_name : Bytes
  pub frame : Bytes

-- The operations on `std::set<WebSocket *>`.
unfoldable pub set_insert : ℕ → List ℕ → List ℕ
set_insert ws [] = ws ∷ []
set_insert ws (x ∷ clients) =
    let rest = set_insert ws clients in
    if ltb ws x then ws ∷ x ∷ clients else if ws == x then x ∷ clients else x ∷ rest

unfoldable pub set_erase : ℕ → List ℕ → List ℕ
set_erase ws [] = []
set_erase ws (x ∷ clients) =
    let rest = set_erase ws clients in if ws == x then clients else x ∷ rest

pub record ChatRoom : Type 0 where
  pub task_que : List Task
  pub channel_index_map : ℕ → Option Bytes
  pub clients_map : Bytes → Option (List ℕ)

abbrev pub chat_room : ChatRoom
chat_room = record { task_que = []; channel_index_map = λ ws. none; clients_map = λ name. none }

-- A map after the assignment or the erasure at one key.
abbrev pub set_clients :
    (Bytes → Option (List ℕ)) → Bytes → Option (List ℕ) → Bytes → Option (List ℕ)
set_clients m name clients n = if same_bytes name n then clients else m n

abbrev pub set_channel : (ℕ → Option Bytes) → ℕ → Bytes → ℕ → Option Bytes
set_channel m ws name w = if ws == w then some name else m w

abbrev pub index : Bytes → Conn → Conn
index index_html conn = record conn {
  resp = write (set_header conn.resp (codes "Content-Type") (codes "text/html")) index_html;
}

-- A set of clients that may go with its last element.
abbrev pub unless_empty : List ℕ → Option (List ℕ)
unless_empty [] = none
unless_empty (x ∷ clients) = some (x ∷ clients)

unfoldable pub leave_room : ChatRoom → ℕ → Bytes → Option (List ℕ) → ChatRoom
leave_room chat ws name none = chat
leave_room chat ws name (some clients) = record chat {
  clients_map = set_clients chat.clients_map name (unless_empty (set_erase ws clients));
}

unfoldable pub leave_channel : ChatRoom → ℕ → Option Bytes → ChatRoom
leave_channel chat ws none = chat
leave_channel chat ws (some name) = leave_room chat ws name (chat.clients_map name)

unfoldable pub on_close : ChatRoom → ℕ → ChatRoom
unfolding leave_channel leave_room set_insert set_erase
on_close chat ws = leave_channel chat ws (chat.channel_index_map ws)

-- `task_que_.push` with a frame of the message, which both overloads of `TaskPush` end with.
abbrev pub task_push : ChatRoom → Bytes → Bytes → ChatRoom
task_push chat channel_name msg = record chat {
  task_que =
      chat.task_que
      ++ record { channel_name = channel_name; frame = make_frame [] msg text_frame } ∷ [];
}

abbrev pub task_push_to : ChatRoom → Option Bytes → Bytes → ChatRoom
task_push_to chat none msg = chat
task_push_to chat (some name) msg = task_push chat name msg

abbrev pub task_push_from : ChatRoom → ℕ → Bytes → ChatRoom
task_push_from chat ws msg = task_push_to chat (chat.channel_index_map ws) msg

unfoldable pub on_message : ChatRoom → ℕ → Connection → Bytes → ChatRoom × Connection
on_message chat ws conn [] = (chat, send_text conn [])
on_message chat ws conn (c ∷ msg) = (task_push_from chat ws (c ∷ msg), conn)

abbrev pub is_post : RequestMethod → Bool
is_post post_method = true
is_post other = false

unfoldable pub publish : ChatRoom → Conn → ChatRoom × Conn
publish chat conn =
    let req = parse_post_form conn.req in
    let nick = post_form_value req (codes "nick") in
    let msg = post_form_value req (codes "msg") in
    let room = post_form_value req (codes "room") in
    let str = nick ++ codes ":" ++ msg in
    let parsed = record conn { req = req; resp = write conn.resp (codes "ok") } in
    if is_post conn.req.method then (task_push chat room str, parsed) else (chat, conn)

abbrev pub chat_ping : Connection → Bytes → Connection
chat_ping conn msg = send_pong conn []

-- The three handlers of a websocket, by number.
abbrev pub ping_handler : ℕ
ping_handler = 0

abbrev pub close_handler : ℕ
close_handler = 1

abbrev pub message_handler : ℕ
message_handler = 2

abbrev pub channel_of : Bytes → Bytes
channel_of name = if is_empty name then codes "default" else name

-- The block of `Subscribe` under `clients_mtx_`.
abbrev pub joined : Option (List ℕ) → ℕ → List ℕ
joined none ws = set_insert ws []
joined (some clients) ws = set_insert ws clients

unfoldable pub join : ChatRoom → ℕ → Bytes → ChatRoom
unfolding set_insert
join chat ws name = record chat {
  channel_index_map = set_channel chat.channel_index_map ws name;
  clients_map = set_clients chat.clients_map name (some (joined (chat.clients_map name) ws));
}

abbrev pub subscribe_upgraded : ChatRoom → ℕ → Bytes → Bytes → Bool × Conn → ChatRoom × Conn
subscribe_upgraded chat ws name date (false, conn) =
    let (resp, io) = write_error_message conn.resp conn.io 500 date in
    (chat, record conn { resp = resp; io = io })
subscribe_upgraded chat ws name date (true, conn) =
    let pinged = set_ping_handler conn (some ping_handler) in
    let closed = set_on_close_handler pinged (some close_handler) in
    let ready = set_on_message_handler closed (some message_handler) in
    (join chat ws name, set_max_buffer_size ready 100000)

unfoldable pub subscribe : (Bytes → Bytes) → Bytes → ChatRoom → ℕ → Conn → ChatRoom × Conn
unfolding join
subscribe sha1 date chat ws conn =
    let parsed = record conn { req = parse_query_string conn.req } in
    let name = channel_of (query_string_value parsed.req (codes "room")) in
    subscribe_upgraded chat ws name date (upgrade sha1 date parsed)

-- The loop of `WriteRawDataSafe`; `results` has the results of `Writen` for each connection.
unfoldable pub broadcast :
    (ℕ → Connection) → List ℕ → Bytes → (ℕ → List WriteResult) → ℕ → Connection
broadcast conns [] frame results w = conns w
broadcast conns (ws ∷ clients) frame results w =
    let (done, conn, sent) = write_raw_data_safe (conns ws) frame (results ws) in
    broadcast (λ v. if ws == v then conn else conns v) clients frame results w

abbrev pub clients_of : Option (List ℕ) → List ℕ
clients_of none = []
clients_of (some clients) = clients

-- One round of `TaskThread`.
unfoldable pub task_round :
    ChatRoom → List Task → (ℕ → Connection) → (ℕ → List WriteResult) → ChatRoom × (ℕ → Connection)
task_round chat [] conns results = (chat, conns)
task_round chat (task ∷ rest) conns results = (
  record chat { task_que = rest },
  broadcast conns (clients_of (chat.clients_map task.channel_name)) task.frame results,
)

unfoldable pub task_thread :
    ChatRoom → (ℕ → Connection) → (ℕ → List WriteResult) → ChatRoom × (ℕ → Connection)
unfolding broadcast task_round
task_thread chat conns results = task_round chat chat.task_que conns results

-- `main`: the server, whose handlers are `Index`, `Subscribe` and `Publish`.
abbrev pub chat_server : HttpServer
chat_server =
    let routed =
      set_handler (set_handler (set_handler http_server (codes "/") 0) (codes "/ws") 1)
        (codes "/pub") 2 in
    set_max_worker_connections (set_idle_timeout (set_worker_threads routed (pos 4)) (pos 60))
      (pos 8192)
