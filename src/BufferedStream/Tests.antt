-- ===== src/BufferedStream/Tests.antt =====
-- Runs of the buffered streams, and their theorems at concrete inputs.
mod In
mod Out
