-- ===== src/Primitives.antt =====
-- The primitives that the image calls, by the file of plugin/src that defines them, and what their
-- loops share. A primitive leaves by `check_failed` or `leave` where the code returns early.
pub mod Memory
pub mod Parameters
pub mod Functions
pub mod Types
pub mod Callbacks
pub mod Workers
pub mod Module
