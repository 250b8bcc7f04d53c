-- ===== src/Doip/Connection.antt =====
-- flxc1000-doip/src/connection.rs: one TCP connection of a tester.
pub mod Action
pub mod Process
pub mod Framing
pub mod Total
pub mod Loop
pub mod Runs
pub mod Activation
pub mod Dialogue
pub mod Exchange
pub mod Messages
pub mod Wire
