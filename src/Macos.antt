-- ===== src/Macos.antt =====
-- src/platform/macos and src/async_device/macos: the TAP device that is a pair of `feth` interfaces, and
-- the asynchronous device that waits on other threads.
pub mod Tap
pub mod Select
pub mod Open
mod Tests
mod OpenTests
