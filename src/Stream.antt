-- ===== src/Stream.antt =====
-- internal/stream: how a file's bytes are read, and what limits the requests to the CDN.
pub mod Semaphore
pub mod Window
pub mod Session
pub mod Reading
pub mod Inflight
pub mod Handles
pub mod Cdn
