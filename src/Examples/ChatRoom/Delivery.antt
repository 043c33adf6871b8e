-- ===== src/Examples/ChatRoom/Delivery.antt =====
-- Who gets what is sent to a room of examples/chat_room.cpp.
use mevent.Common.{
  ℕ, suc, ◌<◌, ◌≡◌, ◌^◌, refl, ap, ap₂, All, codes, ◌∙◌, Bool, true, ◌||◌, Bytes, List, [], ◌∷◌,
  ◌++◌, some, none, ◌==◌, if◌then◌else◌, length, arith,
}
use mevent.Request.{
  Request, Fields, post_method, same_bytes, assign, field_value, body, post_form_value,
}
use mevent.Request.Fields.{parse_post_form, parse_form_urlencoded}
use mevent.Request.Fields.Forms.{form_text, is_plain, IsPair, parse_form_urlencoded-form_text}
use mevent.Connection.Whole.{Conn}
use mevent.WebSocket.{text_frame}
use mevent.WebSocket.Frame.{make_frame}
use mevent.WebSocket.Send.{write_raw_data_safe}
use mevent.WebSocket.Wire.{plain, wire_frame}
use mevent.WebSocket.Wire.Frames.{make_frame-wire_frame}
use mevent.Connection.{WriteResult, Connection}
use mevent.Examples.ChatRoom.{
  Task, ChatRoom, chat_room, task_push, task_push_to, on_message, publish, is_post, clients_of,
  broadcast, task_round, task_thread,
}
use mevent.Examples.ChatRoom.Clients.{member, Above, member-Above, at_websocket}
use mevent.Examples.ChatRoom.Rooms.{Rooms, in_room, Agrees, queue-Agrees}
use mevent.Examples.ChatRoom.Runs.{Call, AreOrderly, rooms_after, run, run-Agrees}

-- The connection after `WriteRawDataSafe`.
abbrev pub written : Connection → Bytes → List WriteResult → Connection
written conn frame results = (write_raw_data_safe conn frame results).1

broadcast-member :
    (conns : ℕ → Connection) (low : ℕ) (clients : List ℕ) (frame : Bytes)
    (results : ℕ → List WriteResult) (w : ℕ)
    → Above low clients
    → broadcast conns clients frame results w
      ≡ (if member w clients then written (conns w) frame (results w) else conns w)
unfolding broadcast
broadcast-member conns low [] frame results w h = refl
broadcast-member conns low (ws ∷ clients) frame results w h =
    let conn = written (conns ws) frame (results ws) in
    let rest =
      broadcast-member (λ v. if ws == v then conn else conns v) (suc ws) clients frame results w
        h.1 in
    rest
    ∙ at_websocket ws w
        (λ v here back.
          (if member v clients
            then written (if here then conn else conns v) frame (results v)
            else if here
            then conn
            else conns v)
          ≡ (if back || member v clients then written (conns v) frame (results v) else conns v))
        (rw (member-Above clients (suc ws) ws (omega arith) h.1) refl) (λ other. refl)

-- One round of `TaskThread` writes the oldest frame of the queue once to each websocket in its room, and
-- changes no other connection.
pub task_thread-in_room :
    (chat : ChatRoom) (rooms : Rooms) (task : Task) (rest : List Task) (conns : ℕ → Connection)
    (results : ℕ → List WriteResult) (w : ℕ)
    → Agrees chat rooms
    → chat.task_que ≡ task ∷ rest
    → (task_thread chat conns results).1 w ≡ (
        if in_room (rooms w) task.channel_name
        then written (conns w) task.frame (results w)
        else conns w)
unfolding task_thread task_round
task_thread-in_room chat rooms task rest conns results w a e =
    rw (task_thread, e)
      (broadcast-member conns 0 (clients_of (chat.clients_map task.channel_name)) task.frame results
          w (a.ordered task.channel_name)
        ∙ ap (λ inside. if inside then written (conns w) task.frame (results w) else conns w)
            (a.clients task.channel_name w))

-- A message that is pushed to an empty queue is written by the next round.
task_push-delivers :
    (chat : ChatRoom) (rooms : Rooms) (name msg : Bytes) (conns : ℕ → Connection)
    (results : ℕ → List WriteResult) (w : ℕ)
    → Agrees chat rooms
    → chat.task_que ≡ []
    → length msg < 2 ^ 64
    → (task_thread (task_push chat name msg) conns results).1 w ≡ (
        if in_room (rooms w) name
        then written (conns w) (wire_frame true text_frame plain msg) (results w)
        else conns w)
task_push-delivers chat rooms name msg conns results w a idle small =
    let pushed = task_push chat name msg in
    let task : Task = record { channel_name = name; frame = make_frame [] msg text_frame } in
    task_thread-in_room pushed rooms task [] conns results w
      (queue-Agrees chat rooms pushed.task_que a) (ap (λ que. que ++ task ∷ []) idle)
    ∙ ap (λ f. if in_room (rooms w) name then written (conns w) f (results w) else conns w)
        (make_frame-wire_frame [] msg text_frame (omega arith) small)

-- After any sequence of calls in which a websocket subscribes only while it is in no room, and which
-- leaves no task, a message that is not empty, shorter than 2 ^ 64, from a websocket in a room, is
-- written by the next round of `TaskThread` as one text frame of RFC 6455, once to each websocket that is in
-- that room, and to no other.
pub on_message-delivers :
    (sha1 : Bytes → Bytes) (date : Bytes) (calls : List Call) (ws c : ℕ) (msg name : Bytes)
    (conn : Connection) (conns : ℕ → Connection) (results : ℕ → List WriteResult) (w : ℕ)
    → AreOrderly (λ ws. none) calls
    → (run sha1 date chat_room calls).task_que ≡ []
    → rooms_after (λ ws. none) calls ws ≡ some name
    → length (c ∷ msg) < 2 ^ 64
    → let (chat, conn') = on_message (run sha1 date chat_room calls) ws conn (c ∷ msg) in
      (task_thread chat conns results).1 w ≡ (
        if in_room (rooms_after (λ ws. none) calls w) name
        then written (conns w) (wire_frame true text_frame plain (c ∷ msg)) (results w)
        else conns w)
unfolding on_message
on_message-delivers sha1 date calls ws c msg name conn conns results w o idle inside small =
    let chat = run sha1 date chat_room calls in
    let rooms = rooms_after (λ ws. none) calls in
    let a = run-Agrees sha1 date calls o in
    ap (λ channel. (task_thread (task_push_to chat channel (c ∷ msg)) conns results).1 w)
      (a.indexed ws name inside)
    ∙ task_push-delivers chat rooms name (c ∷ msg) conns results w a idle small

-- The form of a message for a room.
abbrev pub message_form : Bytes → Bytes → Bytes → Fields
message_form nick msg room = (codes "nick", nick) ∷ (codes "msg", msg) ∷ (codes "room", room) ∷ []

-- The task of `Publish`, from the request with its form.
abbrev push_form : ChatRoom → Request → ChatRoom
push_form chat req =
    task_push chat (post_form_value req (codes "room"))
      (post_form_value req (codes "nick") ++ codes ":" ++ post_form_value req (codes "msg"))

publish_post :
    (chat : ChatRoom) (conn : Conn)
    → is_post conn.req.method ≡ true
    → (publish chat conn).0 ≡ push_form chat (parse_post_form conn.req)
unfolding publish
publish_post chat conn e = rw (publish, e) refl

parse_post_form_lem :
    (r : Request)
    → same_bytes r.content_type (codes "application/x-www-form-urlencoded") ≡ true
    → parse_post_form r
      ≡ record r { post_form_map = parse_form_urlencoded r.post_form_map (body r) }
parse_post_form_lem r e = simp e

-- After any sequence of calls in which a websocket subscribes only while it is in no room, and which
-- leaves no task, a new POST request whose body is a form with a nick, a message and a room, none
-- of them empty, has the nick, a colon and the message, if they are shorter than 2 ^ 64, written by the
-- next round of `TaskThread` as one text frame of RFC 6455, once to each websocket that is in the
-- room, and to no other.
pub publish-delivers :
    (encoder : ℕ → Bool)
    → ((c : ℕ) → encoder c ≡ true → is_plain c ≡ true)
    → (sha1 : Bytes → Bytes) (date : Bytes) (calls : List Call) (conn : Conn)
      (nick msg room : Bytes) (conns : ℕ → Connection) (results : ℕ → List WriteResult) (w : ℕ)
    → AreOrderly (λ ws. none) calls
    → (run sha1 date chat_room calls).task_que ≡ []
    → conn.req.method ≡ post_method
    → conn.req.content_type ≡ codes "application/x-www-form-urlencoded"
    → conn.req.post_form_map ≡ []
    → body conn.req ≡ form_text encoder (message_form nick msg room)
    → All IsPair (message_form nick msg room)
    → length (nick ++ codes ":" ++ msg) < 2 ^ 64
    → let (chat, conn') = publish (run sha1 date chat_room calls) conn in
      (task_thread chat conns results).1 w ≡ (
        if in_room (rooms_after (λ ws. none) calls w) room
        then written
            (conns w)
            (wire_frame true text_frame plain (nick ++ codes ":" ++ msg))
            (results w)
        else conns w)
unfolding publish field_value assign same_bytes
publish-delivers encoder keeps sha1 date calls conn nick msg room conns results w o idle post form
      new text pairs small =
    let chat = run sha1 date chat_room calls in
    let rooms = rooms_after (λ ws. none) calls in
    let a = run-Agrees sha1 date calls o in
    let read : parse_form_urlencoded conn.req.post_form_map (body conn.req)
        ≡ message_form nick msg room =
      ap₂ parse_form_urlencoded new text
      ∙ parse_form_urlencoded-form_text encoder keeps [] (message_form nick msg room) pairs in
    let parsed =
      parse_post_form_lem conn.req
        (ap (λ t. same_bytes t (codes "application/x-www-form-urlencoded")) form)
      ∙ ap (λ (m : Fields). record conn.req { post_form_map = m }) read in
    let pushed : (publish chat conn).0 ≡ task_push chat room (nick ++ codes ":" ++ msg) =
      publish_post chat conn (ap is_post post) ∙ ap (push_form chat) parsed in
    ap (λ c. (task_thread c conns results).1 w) pushed
    ∙ task_push-delivers chat rooms room (nick ++ codes ":" ++ msg) conns results w a idle small
