-- ===== src/Examples/ChatRoom/Runs.antt =====
-- Runs of examples/chat_room.cpp as sequences of calls.
use mevent.Common.{
  ℕ, ◌≡◌, Bool, not, Bytes, List, [], ◌∷◌, Option, some, none, if◌then◌else◌, codes, subst, inl,
  inr, Bool-cases,
}
use mevent.Request.{Request, query_string_value}
use mevent.Request.Fields.{is_empty, parse_query_string}
use mevent.WebSocket.Handshake.{upgrade, upgrade_with}
use mevent.Connection.{WriteResult, Connection}
use mevent.Connection.Whole.{Conn}
use mevent.Examples.ChatRoom.{
  Task, ChatRoom, chat_room, on_close, on_message, publish, subscribe, task_thread, channel_of,
  task_round, subscribe_upgraded, task_push, task_push_to, is_post,
}
use mevent.Examples.ChatRoom.Rooms.{
  Rooms, enter, exit, Agrees, start-Agrees, join-Agrees, on_close-Agrees, queue-Agrees,
}

-- The calls, with the connections as they are at that time.
pub data Call : Type 0 where
  subscribes : ℕ → Conn → Call
  sends : ℕ → Connection → Bytes → Call
  publishes : Conn → Call
  closes : ℕ → Call
  delivers : (ℕ → Connection) → (ℕ → List WriteResult) → Call

-- The room that a request names.
abbrev pub room_asked : Conn → Bytes
room_asked conn = channel_of (query_string_value (parse_query_string conn.req) (codes "room"))

abbrev pub has_key : Conn → Bool
has_key conn = not (is_empty conn.req.sec_websocket_key)

-- What a call does to the rooms: a request with a key enters, a websocket that closes leaves.
abbrev pub move : Rooms → Call → Rooms
move rooms (subscribes ws conn) = if has_key conn then enter rooms ws (room_asked conn) else rooms
move rooms (closes ws) = exit rooms ws
move rooms call = rooms

abbrev pub rooms_after : Rooms → List Call → Rooms
rooms_after rooms [] = rooms
rooms_after rooms (call ∷ calls) = rooms_after (move rooms call) calls

-- Only a websocket that is in no room subscribes.
abbrev pub AreOrderly : Rooms → List Call → Type 0
AreOrderly rooms [] = Unit
AreOrderly rooms (subscribes ws conn ∷ calls) =
    (rooms ws ≡ none) × AreOrderly (move rooms (subscribes ws conn)) calls
AreOrderly rooms (call ∷ calls) = AreOrderly (move rooms call) calls

parse_query_string-sec_websocket_key :
    (r : Request) → (parse_query_string r).sec_websocket_key ≡ r.sec_websocket_key
parse_query_string-sec_websocket_key r = elim (Bool-cases (is_empty r.query_string)) [
  | inl e ↦ simp e
  | inr e ↦ simp e
]

module _ (sha1 : Bytes → Bytes) (date : Bytes) where
  abbrev pub apply : ChatRoom → Call → ChatRoom
  apply chat (subscribes ws conn) = (subscribe sha1 date chat ws conn).0
  apply chat (sends ws conn msg) = (on_message chat ws conn msg).0
  apply chat (publishes conn) = (publish chat conn).0
  apply chat (closes ws) = on_close chat ws
  apply chat (delivers conns results) = (task_thread chat conns results).0

  abbrev pub run : ChatRoom → List Call → ChatRoom
  run chat [] = chat
  run chat (call ∷ calls) = run (apply chat call) calls

  upgraded-Agrees :
      (chat : ChatRoom) (rooms : Rooms) (ws : ℕ) (name : Bytes) (conn : Conn) (key : Bytes)
      → rooms ws ≡ none
      → Agrees chat rooms
      → Agrees
          (subscribe_upgraded chat ws name date (upgrade_with sha1 date conn key)).0
          (if not (is_empty key) then enter rooms ws name else rooms)
  upgraded-Agrees chat rooms ws name conn [] out a = a
  upgraded-Agrees chat rooms ws name conn (k ∷ key) out a = join-Agrees chat rooms ws a name out

  subscribe-Agrees :
      (chat : ChatRoom) (rooms : Rooms) (ws : ℕ) (conn : Conn)
      → rooms ws ≡ none
      → Agrees chat rooms
      → Agrees (subscribe sha1 date chat ws conn).0 (move rooms (subscribes ws conn))
  unfolding subscribe upgrade
  subscribe-Agrees chat rooms ws conn out a =
      subst
        (λ key.
          Agrees (subscribe sha1 date chat ws conn).0
            (if not (is_empty key) then enter rooms ws (room_asked conn) else rooms))
        (parse_query_string-sec_websocket_key conn.req)
        (upgraded-Agrees chat rooms ws (room_asked conn)
          (record conn { req = parse_query_string conn.req })
          (parse_query_string conn.req).sec_websocket_key out a)

  task_push_to-Agrees :
      (chat : ChatRoom) (rooms : Rooms) (channel : Option Bytes) (msg : Bytes)
      → Agrees chat rooms
      → Agrees (task_push_to chat channel msg) rooms
  task_push_to-Agrees chat rooms none msg a = a
  task_push_to-Agrees chat rooms (some name) msg a =
      queue-Agrees chat rooms (task_push chat name msg).task_que a

  on_message-Agrees :
      (chat : ChatRoom) (rooms : Rooms) (ws : ℕ) (conn : Connection) (msg : Bytes)
      → Agrees chat rooms
      → Agrees (on_message chat ws conn msg).0 rooms
  unfolding on_message
  on_message-Agrees chat rooms ws conn [] a = a
  on_message-Agrees chat rooms ws conn (c ∷ msg) a =
      task_push_to-Agrees chat rooms (chat.channel_index_map ws) (c ∷ msg) a

  publish-Agrees :
      (chat : ChatRoom) (rooms : Rooms) (conn : Conn)
      → Agrees chat rooms
      → Agrees (publish chat conn).0 rooms
  unfolding publish
  publish-Agrees chat rooms conn a = elim (Bool-cases (is_post conn.req.method)) [
    | inl e ↦ rw (publish, e) (queue-Agrees chat rooms _ a)
    | inr e ↦ rw (publish, e) a
  ]

  task_round-Agrees :
      (chat : ChatRoom) (rooms : Rooms) (que : List Task) (conns : ℕ → Connection)
      (results : ℕ → List WriteResult)
      → Agrees chat rooms
      → Agrees (task_round chat que conns results).0 rooms
  unfolding task_round
  task_round-Agrees chat rooms [] conns results a = a
  task_round-Agrees chat rooms (task ∷ rest) conns results a = queue-Agrees chat rooms rest a

  apply-Agrees :
      (chat : ChatRoom) (rooms : Rooms) (call : Call) (calls : List Call)
      → AreOrderly rooms (call ∷ calls)
      → Agrees chat rooms
      → Agrees (apply chat call) (move rooms call)
  unfolding task_thread
  apply-Agrees chat rooms (subscribes ws conn) calls o a = subscribe-Agrees chat rooms ws conn o.0 a
  apply-Agrees chat rooms (sends ws conn msg) calls o a = on_message-Agrees chat rooms ws conn msg a
  apply-Agrees chat rooms (publishes conn) calls o a = publish-Agrees chat rooms conn a
  apply-Agrees chat rooms (closes ws) calls o a = on_close-Agrees chat rooms ws a
  apply-Agrees chat rooms (delivers conns results) calls o a =
      task_round-Agrees chat rooms chat.task_que conns results a

  rest_orderly :
      (rooms : Rooms) (call : Call) (calls : List Call)
      → AreOrderly rooms (call ∷ calls)
      → AreOrderly (move rooms call) calls
  rest_orderly rooms (subscribes ws conn) calls o = o.1
  rest_orderly rooms (sends ws conn msg) calls o = o
  rest_orderly rooms (publishes conn) calls o = o
  rest_orderly rooms (closes ws) calls o = o
  rest_orderly rooms (delivers conns results) calls o = o

  run_from-Agrees :
      (chat : ChatRoom) (rooms : Rooms) (calls : List Call)
      → AreOrderly rooms calls
      → Agrees chat rooms
      → Agrees (run chat calls) (rooms_after rooms calls)
  run_from-Agrees chat rooms [] o a = a
  run_from-Agrees chat rooms (call ∷ calls) o a =
      run_from-Agrees (apply chat call) (move rooms call) calls (rest_orderly rooms call calls o)
        (apply-Agrees chat rooms call calls o a)

  -- After any sequence of calls in which a websocket subscribes only while it is in no room, the maps
  -- of the chat room hold the rooms: for each name the set of the websockets that are in that room, in
  -- order and dropped when it is empty, and for each websocket in a room its name.
  pub run-Agrees :
      (calls : List Call)
      → AreOrderly (λ ws. none) calls
      → Agrees (run chat_room calls) (rooms_after (λ ws. none) calls)
  run-Agrees calls o = run_from-Agrees chat_room (λ ws. none) calls o start-Agrees
