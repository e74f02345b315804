-- ===== src/MemoryStream/In.antt =====
-- `MemoryInStream`: an input stream over an array in memory.
pub mod Read
pub mod Contract
use ckcore.Base.{
  ℕ, Bool, true, Option, some, List, Outcome, returns, ◌>>=◌, load, ltb, leb, if◌then◌else◌, add32,
  sub32,
}
use ckcore.Stream.{InStream, Whence, current, begin}

-- The constructor asserts that the array is not null; `bytes` stands for `data_`.
pub record MemoryIn : Type 0 where
  pub bytes : List ℕ
  pub count : ℕ
  pub pos : ℕ

unfoldable pub create : List ℕ → ℕ → MemoryIn
create bytes count = record { bytes = bytes; count = count; pos = 0 }

unfoldable pub end : MemoryIn → Bool
end m = leb m.count m.pos

unfoldable pub seek : MemoryIn → ℕ → Whence → Outcome (Bool × MemoryIn)
seek m distance begin = returns (true, record m { pos = add32 0 distance })
seek m distance current = returns (true, record m { pos = add32 m.pos distance })

unfoldable pub read : MemoryIn → ℕ → Outcome (Option (List ℕ) × MemoryIn)
read m count = do
  let to_read = if ltb m.count (add32 m.pos count) then sub32 m.count m.pos else count
  out ← load m.bytes m.pos to_read
  returns (some out, record m { pos = add32 m.pos to_read })

unfoldable pub size : MemoryIn → Option ℕ
size m = some m.count

-- The class as an input stream.
unfoldable pub memory : InStream MemoryIn
memory = record { read = read; size = size; end = end; seek = seek }
