-- ===== src/BufferedStream/Out.antt =====
-- `BufferedOutStream`: writes to another stream through a buffer.
pub mod Pending
pub mod Round
pub mod Write
pub mod Flush
pub mod Failure
use ckcore.Base.{
  ℕ, zero, suc, Bool, true, false, Option, none, some, List, [], Outcome, returns, fault, stuck,
  ◌>>=◌, load, store, ltb, ◌==◌, if◌then◌else◌, length, drop, replicate, add32, sub32, ◌+◌, ◌-◌,
  ◌^◌,
}
use ckcore.Stream.{OutStream}

pub record BufferedOut (S : Type 0) : Type 0 where
  pub stream : S
  pub buffer : List ℕ
  pub buffer_size : ℕ
  pub buffer_pos : ℕ

module _ {S : Type 0} where
  -- The constructors: 8192 serves for a size of 0, and for the constructor without one.
  -- `allocated` is whether the allocation gave memory.
  unfoldable pub create : S → ℕ → Bool → BufferedOut S
  create st buffer_size allocated =
      let asked = if buffer_size == 0 then 8192 else buffer_size in
      record {
        stream = st;
        buffer = if allocated then replicate asked 0 else [];
        buffer_size = if allocated then asked else 0;
        buffer_pos = 0;
      }

-- `pos == 0 ? -1 : pos`: `pos` is unsigned, and so is the -1, which `write` returns as 4294967295.
unfoldable pub unsigned_or_failed : ℕ → ℕ
unsigned_or_failed pos = if pos == 0 then 2 ^ 32 - 1 else pos

module _ {S : Type 0} (s : OutStream S) where
  -- The loop and the copy after it: `bytes` are the `count` bytes still to be written, after `pos`.
  unfoldable pub write_loop : ℕ → BufferedOut S → List ℕ → ℕ → Outcome (Option ℕ × BufferedOut S)
  write_loop zero b bytes pos = stuck
  write_loop (suc fuel) b bytes pos = elim (ltb b.buffer_size (add32 b.buffer_pos (length bytes))) [
    | true ↦ do
      let remain = sub32 b.buffer_size b.buffer_pos
      head ← load bytes 0 remain
      buffer ← store b.buffer b.buffer_pos head
      let pos' = add32 pos remain
      full ← load buffer 0 b.buffer_size
      (result, st) ← s.write b.stream full
      elim result [
        | none ↦ returns (some (unsigned_or_failed pos'), record b { stream = st; buffer = buffer })
        | some _ ↦
            write_loop fuel (record b { stream = st; buffer = buffer; buffer_pos = 0 })
              (drop remain bytes) pos'
      ]
    | false ↦ do
      buffer ← store b.buffer b.buffer_pos bytes
      returns (
        some (add32 pos (length bytes)),
        record b { buffer = buffer; buffer_pos = add32 b.buffer_pos (length bytes) },
      )
  ]

  -- Each round but the first takes at least one byte.
  unfoldable pub write : BufferedOut S → List ℕ → Outcome (Option ℕ × BufferedOut S)
  write b bytes =
      if b.buffer_size == 0
      then (do (result, st) ← s.write b.stream bytes; returns (result, record b { stream = st }))
      else write_loop (length bytes + 2) b bytes 0

  unfoldable pub flush : BufferedOut S → Outcome (Option ℕ × BufferedOut S)
  flush b = if b.buffer_size == 0 then returns (some 0, b) else (do
    bytes ← load b.buffer 0 b.buffer_pos
    (result, st) ← s.write b.stream bytes
    elim result [
      | none ↦ returns (none, record b { stream = st })
      | some n ↦ returns (some n, record b { stream = st; buffer_pos = 0 })
    ])

  -- The destructor: what it leaves in the stream below, whatever `flush` returns.
  unfoldable pub destroy : BufferedOut S → Outcome S
  destroy b = do (_, b') ← flush b; returns b'.stream

  -- The class as an output stream.
  unfoldable pub buffered : OutStream (BufferedOut S)
  buffered = record { write = write }
