-- ===== src/Async.antt =====
-- The bridge from the Core to asyncio in sessions.py: the state of one request on the event loop, and
-- the reader that drains its body.
pub mod State
pub mod Reader
mod Tests
