-- ===== src/Pipe.antt =====
-- Package pipe: the ring buffer and the blocking reader on top of it.
pub mod Copying
pub mod ReadWriter
pub mod PipeReader
