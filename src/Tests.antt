-- ===== src/Tests.antt =====
-- Concrete runs of the modelled code, and the theorems at concrete inputs.
mod Base64
mod WebSocket
mod Request
mod Parsing
mod Response
mod Connection
mod Sending
mod Polling
mod Pool
mod Routing
mod Erasing
mod Chat
mod EventLoop
mod Serving
mod Starting
mod Util
