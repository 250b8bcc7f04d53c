-- ===== src/Uds.antt =====
-- The UDS layer (crate flxc1000-uds): sessions, security access and the request dispatcher of
-- ISO 14229. Times are nanoseconds on the monotonic clock, and each reading of it is an argument.
pub mod Nrc
pub mod Session
pub mod Security
pub mod Dispatcher
mod Tests
