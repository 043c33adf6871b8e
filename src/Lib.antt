-- ===== src/Lib.antt =====
-- A model of mevent, an event-driven HTTP and WebSocket server library.
--
-- The program. An event loop accepts connections from a pool, reads from each into a request
-- or, after an upgrade, a websocket, hands complete requests and messages to workers, which
-- look the handler up by path, and writes out what the response or the websocket has queued.
--
-- The files. Base64 is base64.cpp. WebSocket is websocket.h and websocket.cpp: WebSocket/Frame
-- is `MakeFrame`, WebSocket/Parse is `Parse` in rounds of its loop, WebSocket/Send the
-- operations that send and `ReadData`; WebSocket/Wire is the framing of RFC 6455, written
-- independently of the code. TernarySearchTree is ternary_search_tree.cpp, with
-- TernarySearchTree/Erase for `Erase`, and HttpHandler the class `HTTPHandler` of
-- event_loop.cpp, which keeps its handlers in such a tree. ConnectionPool is
-- connection_pool.cpp, with the linked lists as maps from connections to pointers. Request is
-- request.cpp: Request/Chars its tables, Request/Parse the state machine, a function for each
-- state, with Request/Parse/WellFormed for the text of a request, Request/Fields the maps of
-- fields and Request/Fields/Forms the text of a form, Request/Read `ReadData`. Connection is
-- connection.cpp: `Readn`, `Writen`, the write queue and `Flush`, and Connection/Whole the
-- object with its request, response and websocket. Response is response.cpp. Util is util.cpp:
-- the URL coding, RC4 and the address masks. WebSocket/Handshake is the upgrade, and
-- WebSocket/Handshake/Opening takes it from the text of a request.
--
-- EventLoop is event_loop.cpp: the state of a loop, with every connection in it, and
-- `ResetConnection`; EventLoop/Events has `OnRead`, `OnWrite`, `Accept` and the events of
-- `Loop`, EventLoop/Workers a round of each of the two worker threads, EventLoop/Timeout a
-- pass of `CheckConnectionTimeout`, EventLoop/Setup the settings, EventLoop/Loop the events of
-- one `Poll`. EventLoopBase is the masks of event_loop_base_epoll.cpp. EventLoop/Steps makes
-- their serial runs one step relation; EventLoop/Consistency is the agreement of the pool's
-- lists with the sockets, and Frames, Sound, Handling, Serving and Admission carry it through
-- the operations. HttpServer is http_server.cpp: the settings and the loops, and in
-- HttpServer/Listening the start of the server with its error paths. Examples is examples/: in
-- Examples/ChatRoom the state of chat_room.cpp with its handlers and a round of its thread,
-- Examples/FormAction form_action.cpp, Examples/Pages the other two. Common has what the parts
-- share, and Tests runs them.
--
-- State is passed explicitly: an operation takes the record of its object and returns the new
-- one. Undefined behaviour, such as an index out of bounds, is a result of its own. What the
-- socket, the TLS library and the clock give is an argument, in general the sequence of
-- results of the calls. Integers are natural numbers, with the wrap-around of the machine
-- written out where a sum can pass its width. `WebSocket.Parse.parse` has one round for each
-- byte of the buffer and one more, and each round but the last takes two bytes off;
-- `Request.Parse.parse` has two rounds for each character left and two more, since no two
-- rounds in a row stay on one character. Both are proved to end within them.
-- `EventLoop.Timeout.walk` has one round for each connection it comes to; one more than there
-- are idle connections is enough.
--
-- The functions that a user registers are a parameter of the event loop, the record
-- `Handlers`, which takes the whole state: they can queue, upgrade and close. What is assumed
-- of them is a hypothesis of the theorem that needs it. SHA-1 is a parameter of the handshake.
--
-- Not modelled: the calls that set options or fill structures for sockets and TLS, the calls
-- of epoll and all of kqueue, logging and other system calls in util.cpp, the client around
-- libcurl, and what only frees memory. An operation is one step, as if no other thread came in
-- between; `Loop` does let others in, between `ActiveListUpdate` and the lock of the
-- connection, and the runs of several threads are not modelled. Waiting for a condition is no
-- step.
pub mod Common
pub mod Base64
pub mod WebSocket
pub mod TernarySearchTree
pub mod HttpHandler
pub mod ConnectionPool
pub mod Connection
pub mod Request
pub mod Response
pub mod Util
pub mod EventLoopBase
pub mod EventLoop
pub mod HttpServer
pub mod Examples
pub mod Tests
