-- ===== src/Queue.antt =====
-- 4_ThreadCalc/src/queue.c: the bounded job queue over a circular array of node pointers.
pub mod Defs
pub mod Fifo
pub mod Span
pub mod Refine
pub mod Remove
pub mod Contract
pub mod Nodes
pub mod Frees
mod Tests
mod FreesTests
