-- ===== src/Stream/Null.antt =====
-- `NullStream` of src/nullstream.cc: it counts what it is given.
mod Tests
use ckcore.Base.{ℕ, Option, some, List, Outcome, returns, length, add64}
use ckcore.Stream.{OutStream}

pub record NullStream : Type 0 where
  pub total : ℕ

unfoldable pub create : NullStream
create = record { total = 0 }

-- `NullStream::written`.
unfoldable pub written : NullStream → ℕ
written s = s.total

unfoldable pub write : NullStream → List ℕ → Outcome (Option ℕ × NullStream)
write s bytes = returns (some (length bytes), record { total = add64 s.total (length bytes) })

-- The class as an output stream.
unfoldable pub null_stream : OutStream NullStream
null_stream = record { write = write }
