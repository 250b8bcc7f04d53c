-- ===== src/Doip/Message.antt =====
-- flxc1000-doip/src/message.rs, a module for each group of messages: the parsers of what a tester
-- sends, and the encoders of what the ECU answers, each a whole frame with its header.
pub mod Vehicle
pub mod Routing
pub mod Diagnostic
pub mod Alive
pub mod Laws
