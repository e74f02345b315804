-- ===== src/MemoryStream/Out.antt =====
-- `MemoryOutStream`: an output stream into an array in memory that grows.
pub mod Grow
pub mod Write
use ckcore.Base.{
  ℕ, zero, suc, ◌+◌, ◌*◌, ◌%◌, ◌^◌, Bool, true, false, Option, none, some, List, [], Outcome,
  returns, fault, stuck, ◌>>=◌, load, store, ltb, ◌==◌, if◌then◌else◌, length, take, replicate,
  add32,
}
use ckcore.Stream.{OutStream}

-- `buffer` is `none` for the null pointer of an allocation that failed.
pub record MemoryOut : Type 0 where
  pub buffer : Option (List ℕ)
  pub buffer_size : ℕ
  pub buffer_pos : ℕ

-- `gives n` is whether an allocation of `n` bytes gives memory.
module _ (gives : ℕ → Bool) where
  -- Fresh bytes are 0 here; none of them is counted.
  unfoldable pub allocate : ℕ → Option (List ℕ)
  allocate n = if gives n then some (replicate n 0) else none

  -- The constructors: 1024 serves for a size of 0, and for the constructor without one.
  unfoldable pub create : ℕ → MemoryOut
  create buffer_size =
      let asked = if buffer_size == 0 then 1024 else buffer_size in
      elim (allocate asked) [
        | none ↦ record { buffer = none; buffer_size = 0; buffer_pos = 0 }
        | some buf ↦ record { buffer = some buf; buffer_size = asked; buffer_pos = 0 }
      ]

  -- The loop in `write`, which doubles the buffer until `count` more bytes fit; `false` is its
  -- return of -1.
  unfoldable pub grow : ℕ → List ℕ → ℕ → ℕ → ℕ → Outcome (Bool × List ℕ × ℕ)
  grow zero buf buffer_size buffer_pos count = stuck
  grow (suc fuel) buf buffer_size buffer_pos count =
      elim (ltb buffer_size (add32 buffer_pos count)) [
        | false ↦ returns (true, buf, buffer_size)
        | true ↦
            let new_size = (buffer_size * 2) % 2 ^ 32 in
            elim (allocate new_size) [
              | none ↦ returns (false, buf, buffer_size)
              | some fresh ↦ do
                old ← load buf 0 buffer_size
                new_buf ← store fresh 0 old
                grow fuel new_buf new_size buffer_pos count
            ]
      ]

  -- What `write` does once it has a buffer. 33 rounds of doubling reach every 32-bit size.
  unfoldable pub write_into : MemoryOut → List ℕ → List ℕ → Outcome (Option ℕ × MemoryOut)
  write_into m buf bytes = do
    (fits, buf', size') ← grow 33 buf m.buffer_size m.buffer_pos (length bytes)
    elim fits [
      | false ↦ returns (none, record m { buffer = some buf'; buffer_size = size' })
      | true ↦ do
        filled ← store buf' m.buffer_pos bytes
        returns (
          some (length bytes),
          record {
            buffer = some filled;
            buffer_size = size';
            buffer_pos = add32 m.buffer_pos (length bytes);
          },
        )
    ]

  unfoldable pub write : MemoryOut → List ℕ → Outcome (Option ℕ × MemoryOut)
  write m bytes = elim m.buffer [ none ↦ returns (none, m) | some buf ↦ write_into m buf bytes ]

  -- The class as an output stream.
  unfoldable pub memory : OutStream MemoryOut
  memory = record { write = write }

-- `data` and `count`: the array, and how many of its bytes were written.
unfoldable pub bytes : MemoryOut → Option (List ℕ)
bytes m = m.buffer

unfoldable pub count : MemoryOut → ℕ
count m = m.buffer_pos
