-- ===== src/NetHandler.antt =====
-- 5_NetCalc/src/net_handler.c: the listener, and the exchange on one connection.
pub mod Packed
pub mod Messages
pub mod Stream
pub mod Layout
pub mod Loop
pub mod Exchange
pub mod Answers
pub mod Refusals
pub mod Connection
pub mod Listener
pub mod Served
pub mod Session
pub mod Sizes
pub mod Total
pub mod Samples
mod Tests
mod SessionTests
mod ListenerTests
