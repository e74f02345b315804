-- ===== src/BufferedStream.antt =====
-- src/bufferedstream.cc and include/ckcore/bufferedstream.hh.
pub mod In
pub mod Out
mod Tests
