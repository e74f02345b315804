-- ===== src/BufferedStream/In/Pending.antt =====
-- What is still to be read from a `BufferedInStream`, and when its fields are in order.
use ckcore.Base.{
  ℕ, ◌+◌, ◌^◌, ◌≤◌, ◌<◌, ◌≡◌, ◌⊎◌, List, [], ◌++◌, length, take, drop, length-take, length-drop,
  arith,
}
use ckcore.Stream.{InStream}
use ckcore.Stream.Contract.{Source}
use ckcore.BufferedStream.In.{BufferedIn, Result, failed, got, wrapped}

module _ {S : Type 0} where
  -- The bytes that the buffer holds.
  abbrev pub pending : BufferedIn S → List ℕ
  pending b = take b.buffer_data (drop b.buffer_pos b.buffer)

module _ {S : Type 0} {s : InStream S} (src : Source s) where
  open src use {Ok, Failing, rest, limit, end_lem, read_lem}

  -- The bytes that are still to be read: the buffered ones, then those of the stream.
  abbrev pub to_come : BufferedIn S → List ℕ
  to_come b = pending b ++ rest b.stream

  -- The buffer was allocated, what it holds lies within it, and the stream serves reads of its size.
  pub record IsValid (b : BufferedIn S) : Type 0 where
    pub stream_ok : Ok b.stream
    pub allocated : 0 < b.buffer_size
    pub served : b.buffer_size ≤ limit
    pub word : b.buffer_size < 2 ^ 32
    pub storage : length b.buffer ≡ b.buffer_size
    pub within : b.buffer_pos + b.buffer_data ≤ b.buffer_size

  pub length-pending : (b : BufferedIn S) → IsValid b → length (pending b) ≡ b.buffer_data
  length-pending b v = omega (
    arith,
    v,
    length-take b.buffer_data (drop b.buffer_pos b.buffer),
    length-drop b.buffer_pos b.buffer,
  )

  -- How `read` ends when `total` was to come at its start, of which `wanted` bytes were asked for.
  -- With fewer bytes than that, either no more are to come or the stream below has failed. It does
  -- not return -1.
  abbrev pub Ended : List ℕ → ℕ → Result → BufferedIn S → Type 0
  Ended total wanted failed b = ⊥
  Ended total wanted wrapped b = IsValid b × (total ≡ to_come b) × Failing b.stream
  Ended total wanted (got bytes) b =
      IsValid b
      × (total ≡ bytes ++ to_come b)
      × (length bytes ≤ wanted)
      × (length bytes < wanted
          → (to_come b ≡ []) ⊎ (0 < length bytes) × Failing b.stream × (b.buffer_data ≡ 0))
