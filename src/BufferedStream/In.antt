-- ===== src/BufferedStream/In.antt =====
-- `BufferedInStream`: reads from another stream through a buffer.
pub mod Pending
pub mod Refill
pub mod Read
pub mod Client
pub mod Seek
pub mod Contract
use ckcore.Base.{
  ℕ, zero, suc, ◌-◌, ◌%◌, ◌^◌, Bool, true, false, ◌&&◌, Option, none, some, List, [], ◌++◌, Outcome,
  returns, fault, stuck, ◌>>=◌, load, store, ltb, ◌==◌, if◌then◌else◌, length, replicate, add32,
  sub32, ◌+◌,
}
use ckcore.Stream.{InStream, Whence, current, begin}

-- The buffer's bytes before the first read are 0 here; none of them is ever handed out.
pub record BufferedIn (S : Type 0) : Type 0 where
  pub stream : S
  pub buffer : List ℕ
  pub buffer_size : ℕ
  pub buffer_pos : ℕ
  pub buffer_data : ℕ

-- What `read` returns: -1, a number of bytes, which are stored, or 4294967295 although nothing is
-- stored. That is what `pos == 0 ? -1 : pos` gives for a `pos` of 0, since `pos` is unsigned.
pub data Result : Type 0 where
  failed : Result
  got : List ℕ → Result
  wrapped : Result

-- How a round of the loop in `read` ends: `read` returns, or goes on from what is stored by then.
pub data Round (S : Type 0) : Type 0 where
  finished : Result → BufferedIn S → Round S
  again : List ℕ → BufferedIn S → Round S

abbrev pub default_size : ℕ
default_size = 8192

module _ {S : Type 0} where
  -- The constructors: 8192 serves for a size of 0, and for the constructor without one.
  -- `allocated` is whether the allocation gave memory.
  unfoldable pub create : S → ℕ → Bool → BufferedIn S
  create st buffer_size allocated =
      let asked = if buffer_size == 0 then default_size else buffer_size in
      record {
        stream = st;
        buffer = if allocated then replicate asked 0 else [];
        buffer_size = if allocated then asked else 0;
        buffer_pos = 0;
        buffer_data = 0;
      }

-- `read_bytes` of `seek`: what a round asks for.
unfoldable pub round_size : ℕ → ℕ → ℕ
round_size buffer_size distance = if ltb buffer_size distance then buffer_size else distance

-- What a read of the stream below returns, returned as it is.
unfoldable pub passed_on : Option (List ℕ) → Result
passed_on none = failed
passed_on (some bytes) = got bytes

module _ {S : Type 0} (s : InStream S) where
  unfoldable pub end : BufferedIn S → Bool
  end b = s.end b.stream && (b.buffer_data == 0)

  -- The body of the loop in `read`: what is buffered goes out, and the buffer is filled again.
  -- `out` is what has been stored so far, `pos` bytes.
  unfoldable pub refill : BufferedIn S → List ℕ → Outcome (Round S)
  refill b out = do
    bytes ← load b.buffer b.buffer_pos b.buffer_data
    let out' = out ++ bytes
    let emptied = record b { buffer_pos = 0; buffer_data = 0 }
    elim (s.end b.stream) [
      | true ↦ returns (finished (got out') emptied)
      | false ↦ do
        (result, st) ← s.read b.stream b.buffer_size
        elim result [
          | none ↦ returns (
              finished (if length out' == 0 then wrapped else got out')
                (record emptied { stream = st }))
          | some chunk ↦ do
            buffer ← store b.buffer 0 chunk
            returns (
                again out' (record emptied {
                  stream = st;
                  buffer = buffer;
                  buffer_data = length chunk % 2 ^ 32;
                }))
        ]
    ]

  -- The loop and the copy after it; `count` bytes are still wanted.
  unfoldable pub read_loop : ℕ → BufferedIn S → ℕ → List ℕ → Outcome (Result × BufferedIn S)
  read_loop zero b count out = stuck
  read_loop (suc fuel) b count out = elim (ltb b.buffer_data count) [
    | true ↦ do
      round ← refill b out
      elim round [
        | finished result b' ↦ returns (result, b')
        | again out' b' ↦ read_loop fuel b' (sub32 count b.buffer_data) out'
      ]
    | false ↦ do
      bytes ← load b.buffer b.buffer_pos count
      returns (
        got (out ++ bytes),
        record b { buffer_pos = add32 b.buffer_pos count; buffer_data = sub32 b.buffer_data count },
      )
  ]

  -- Each round but the first takes at least one of the `count` bytes, if the stream keeps its
  -- contract.
  unfoldable pub read : BufferedIn S → ℕ → Outcome (Result × BufferedIn S)
  read b count =
      if b.buffer_size == 0
      then (do
        (result, st) ← s.read b.stream count
        returns (passed_on result, record b { stream = st }))
      else read_loop (count + 2) b count []

  -- The loop of `seek`, which reads `distance` bytes and drops them. A 4294967295 is not -1, and the
  -- loop goes on.
  unfoldable pub skip_loop : ℕ → ℕ → BufferedIn S → ℕ → Outcome (Bool × BufferedIn S)
  skip_loop zero buffer_size b distance = stuck
  skip_loop (suc fuel) buffer_size b distance = elim (ltb 0 distance) [
    | false ↦ returns (true, b)
    | true ↦ do
      (result, b') ← read b (round_size buffer_size distance)
      elim result [
        | failed ↦ returns (false, b')
        | got bytes ↦ skip_loop fuel buffer_size b' (sub32 distance (length bytes))
        | wrapped ↦ skip_loop fuel buffer_size b' (sub32 distance (2 ^ 32 - 1))
      ]
  ]

  -- What `seek` does once it stands at the base: `fuel` bounds the rounds of the loop.
  unfoldable pub skip : ℕ → BufferedIn S → ℕ → Outcome (Bool × BufferedIn S)
  skip fuel b distance =
      if distance == 0
      then returns (true, b)
      else skip_loop fuel (if b.buffer_size == 0 then default_size else b.buffer_size) b distance

  unfoldable pub seek_on_fuel : ℕ → BufferedIn S → ℕ → Whence → Outcome (Bool × BufferedIn S)
  seek_on_fuel fuel b distance current = skip fuel b distance
  seek_on_fuel fuel b distance begin = do
    (done, st) ← s.seek b.stream 0 begin
    elim done [
      | true ↦ skip fuel (record b { stream = st; buffer_pos = 0; buffer_data = 0 }) distance
      | false ↦ returns (false, record b { stream = st })
    ]

  -- Each round takes at least one of the `distance` bytes, if the stream has them.
  unfoldable pub seek : BufferedIn S → ℕ → Whence → Outcome (Bool × BufferedIn S)
  seek b distance whence = seek_on_fuel (distance + 1) b distance whence

  unfoldable pub size : BufferedIn S → Option ℕ
  size b = s.size b.stream

  -- `read` called through `InStream`, by a client that uses as many bytes as it is told: where that is
  -- 4294967295 and nothing is stored, they are outside of its memory.
  unfoldable pub read_by_client : BufferedIn S → ℕ → Outcome (Option (List ℕ) × BufferedIn S)
  read_by_client b count = do
    (result, b') ← read b count
    elim result [
      | failed ↦ returns (none, b')
      | got bytes ↦ returns (some bytes, b')
      | wrapped ↦ fault
    ]

  -- The class as an input stream.
  unfoldable pub buffered : InStream (BufferedIn S)
  buffered = record { read = read_by_client; size = size; end = end; seek = seek }
