-- ===== src/Tests.antt =====
-- The theorems at concrete inputs, and runs of the definitions.
pub mod Queue
pub mod Opening
pub mod Lock
pub mod Semaphore
pub mod Samples
pub mod Items
pub mod Buffer
pub mod Pipes
pub mod Threads
pub mod Copying
pub mod Typed
pub mod Ring
pub mod Numbers
