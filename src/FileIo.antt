-- ===== src/FileIo.antt =====
-- 0_Common/src/file_io.c: reads and writes that are meant to move a whole buffer.
pub mod Stream
pub mod Safe
pub mod Read
pub mod Write
pub mod Total
mod Tests
