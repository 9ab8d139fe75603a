-- ===== src/Runtime.antt =====
-- How the asynchronous code of the SDK runs: the messages on the wire, `async` functions as trees
-- of atomic actions, and pools of workers.
pub mod Wire
pub mod Async
pub mod Bounds
pub mod Running
pub mod Calls
pub mod Pool
pub mod Session
