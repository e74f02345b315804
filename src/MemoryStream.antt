-- ===== src/MemoryStream.antt =====
-- src/memorystream.cc and include/ckcore/memorystream.hh.
pub mod In
pub mod Out
mod Tests
