-- ===== src/BufferedStream/Out/Pending.antt =====
-- What a `BufferedOutStream` has taken, and when its fields are in order.
use ckcore.Base.{ℕ, ◌+◌, ◌-◌, ◌^◌, ◌≤◌, ◌<◌, ◌≡◌, ◌⊎◌, Option, none, some, List, ◌++◌, length, take}
use ckcore.Stream.{OutStream}
use ckcore.Stream.Contract.{Sink}
use ckcore.BufferedStream.Out.{BufferedOut}

module _ {S : Type 0} {s : OutStream S} (sink : Sink s) where
  open sink use {Ok, Failing, written, limit}

  -- The bytes that have been taken: those written to the stream below, then the buffered ones.
  abbrev pub accepted : BufferedOut S → List ℕ
  accepted b = written b.stream ++ take b.buffer_pos b.buffer

  -- The buffer was allocated, what it holds lies within it, and the stream takes all of it at once.
  pub record IsValid (b : BufferedOut S) : Type 0 where
    pub stream_ok : Ok b.stream
    pub allocated : 0 < b.buffer_size
    pub served : b.buffer_size ≤ limit
    pub word : b.buffer_size < 2 ^ 32
    pub storage : length b.buffer ≡ b.buffer_size
    pub within : b.buffer_pos ≤ b.buffer_size

  -- What a failed write reports, of which the first `kept` bytes after `pos` are not lost: a number of
  -- bytes that is too small, or 4294967295 where the buffer was full and nothing is taken. It is never
  -- -1.
  abbrev pub Reported : ℕ → ℕ → ℕ → Option ℕ → Type 0
  Reported pos kept total none = ⊥
  Reported pos kept total (some n) =
      (pos + kept ≤ n) × (n < pos + total) ⊎ (pos ≡ 0) × (kept ≡ 0) × (n ≡ 2 ^ 32 - 1)

  -- How a write of `bytes` ends when `before` had been taken, with `pos` bytes reported before: all
  -- of them are taken, or the stream below has failed and a first part of them is.
  abbrev pub Wrote : List ℕ → List ℕ → ℕ → Option ℕ → BufferedOut S → Type 0
  Wrote before bytes pos r b =
      IsValid b
      × ((r ≡ some (pos + length bytes)) × (accepted b ≡ before ++ bytes)
          ⊎ Failing b.stream
            × ((kept : ℕ) × (accepted b ≡ before ++ take kept bytes)
                × Reported pos kept (length bytes) r))
