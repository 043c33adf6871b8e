-- ===== src/Tests/Chat.antt =====
-- The programs of examples/ on concrete calls.
use mevent.Common.{
  ℕ, ◌≡◌, refl, arith, Bool, true, false, [], ◌∷◌, ◌++◌, List, some, none, codes, Bytes,
  if◌then◌else◌,
}
use mevent.Request.{new_request, Fields, get_method, post_method, field_value, same_bytes}
use mevent.Request.Fields.{parse_form_urlencoded}
use mevent.Request.Fields.Forms.{form_text, assigned, parse_form_urlencoded-form_text}
use mevent.WebSocket.{text_frame}
use mevent.WebSocket.Wire.{plain, wire_frame}
use mevent.WebSocket.Handshake.{upgrade}
use mevent.Connection.{WriteResult, wrote, Connection}
use mevent.Connection.Whole.{Conn}
use mevent.EventLoop.Setup.{new_conn}
use mevent.Examples.ChatRoom.{chat_room, on_close, subscribe, on_message, publish, task_thread}
use mevent.Examples.ChatRoom.Rooms.{Agrees, in_room}
use mevent.Examples.ChatRoom.Runs.{Call, subscribes, closes, run, rooms_after, run-Agrees}
use mevent.Examples.ChatRoom.Delivery.{written, on_message-delivers, publish-delivers}
use mevent.Examples.FormAction.{action, name_lines, request_lines, action-names}

abbrev sha1 : Bytes → Bytes
sha1 s = codes "digest"

abbrev date : Bytes
date = codes "today"

abbrev asking : Conn
asking = record new_conn {
  io = record { fd = some 5; write_buffer_chain = []; upgraded = false; finish = false };
  req = record new_request { sec_websocket_key = codes "a2V5" };
}

-- Two websockets enter the default room, and the first of them leaves and enters again.
abbrev calls : List Call
calls = subscribes 1 asking ∷ subscribes 2 asking ∷ closes 1 ∷ subscribes 1 asking ∷ []

run-Agrees_example : Agrees (run sha1 date chat_room calls) (rooms_after (λ ws. none) calls)
run-Agrees_example = run-Agrees sha1 date calls (refl, (refl, (refl, tt)))

abbrev conns : ℕ → Connection
conns ws = asking.io

abbrev results : ℕ → List WriteResult
results ws = wrote 4 ∷ []

on_message-delivers_example :
    let (chat, conn') = on_message (run sha1 date chat_room calls) 1 asking.io (codes "hi") in
    (task_thread chat conns results).1 2 ≡ (
      if in_room (rooms_after (λ ws. none) calls 2) (codes "default")
      then written (conns 2) (wire_frame true text_frame plain (codes "hi")) (results 2)
      else conns 2)
unfolding field_value subscribe upgrade on_close
on_message-delivers_example =
    on_message-delivers sha1 date calls 1 104 (codes "i") (codes "default") asking.io conns results
      2 (refl, (refl, (refl, tt))) refl refl (omega arith)

abbrev no_characters : ℕ → Bool
no_characters c = false

abbrev form : Bytes
form =
    form_text no_characters (
      (codes "nick", codes "a") ∷ (codes "msg", codes "b&c") ∷ (codes "room", codes "default") ∷ [])

abbrev posting : Conn
posting = record new_conn {
  req = record new_request {
    method = post_method;
    content_type = codes "application/x-www-form-urlencoded";
    rbuf = form;
  };
}

publish-delivers_example :
    let (chat, conn') = publish (run sha1 date chat_room calls) posting in
    (task_thread chat conns results).1 2 ≡ (
      if in_room (rooms_after (λ ws. none) calls 2) (codes "default")
      then written
          (conns 2)
          (wire_frame true text_frame plain (codes "a" ++ codes ":" ++ codes "b&c"))
          (results 2)
      else conns 2)
unfolding subscribe upgrade on_close same_bytes field_value
publish-delivers_example =
    publish-delivers no_characters (λ c e. absurd (ground arith)) sha1 date calls posting
      (codes "a") (codes "b&c") (codes "default") conns results 2 (refl, (refl, (refl, tt))) refl
      refl refl refl refl
      (
        (ground arith, refl, omega arith, refl),
        ((ground arith, refl, omega arith, refl), ((ground arith, refl, omega arith, refl), tt)),
      )
      (omega arith)

abbrev pairs : Fields
pairs = (codes "q", codes "a=b") ∷ (codes "q", 200 ∷ []) ∷ []

parse_form_urlencoded-form_text_example :
    parse_form_urlencoded [] (form_text no_characters pairs) ≡ assigned [] pairs
parse_form_urlencoded-form_text_example =
    parse_form_urlencoded-form_text no_characters (λ c e. absurd (ground arith)) [] pairs
      ((ground arith, refl, omega arith, refl), ((ground arith, refl, omega arith, refl), tt))

abbrev named : Conn
named = record new_conn {
  req = record new_request {
    method = get_method;
    query_string =
        form_text no_characters ((codes "fname", codes "A") ∷ (codes "lname", codes "B") ∷ []);
  };
}

action-names_example :
    (action (λ addr. codes "1.2.3.4") named).resp.wbuf
    ≡ named.resp.wbuf
      ++ (name_lines (codes "GET:") named.req.query_string (codes "A") (codes "B")
          ++ request_lines
              (λ addr. codes "1.2.3.4")
              (record named.req {
                get_form_map = (codes "fname", codes "A") ∷ (codes "lname", codes "B") ∷ [];
              }))
action-names_example =
    action-names no_characters (λ c e. absurd (ground arith)) (λ addr. codes "1.2.3.4") named
      (codes "A") (codes "B") refl refl refl (omega arith) refl (omega arith) refl
