-- ===== src/Tests.antt =====
-- The theorems at concrete inputs, over a small machine.
pub mod SmallVm
mod Queue
mod Semaphores
mod Threads
mod Worker
mod Reentry
mod OnWorker
mod Callbacks
pub mod Primitives
mod Functions
mod Library
mod Registration
