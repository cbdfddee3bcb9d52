-- ===== src/TestLibrary.antt =====
-- testLibrary: the C functions that the tests of the image call, and that call the image back.
pub mod Types
pub mod Sums
pub mod Memory
pub mod Buffers
pub mod Strings
pub mod Callbacks
pub mod Loops
pub mod Structures
pub mod Floats
