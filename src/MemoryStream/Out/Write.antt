-- ===== src/MemoryStream/Out/Write.antt =====
-- `MemoryOutStream::write` appends.
use ckcore.Base.{
  ℕ, ◌+◌, ◌*◌, ◌^◌, ◌≤◌, ◌<◌, ◌≡◌, refl, ap, ◌∙◌, ◌⊎◌, Bool, true, none, some, List, [], ◌++◌,
  returns, stored, store_in_range, take-stored, length-stored, length, take, arith, add32_small,
}
use ckcore.MemoryStream.Out.{MemoryOut, write_into, write}
use ckcore.MemoryStream.Out.Grow.{Grown, grow-Grown}

-- The bytes that were written.
abbrev pub contents : MemoryOut → List ℕ
contents m = elim m.buffer [ none ↦ [] | some buf ↦ take m.buffer_pos buf ]

-- The buffer was allocated, and the written bytes lie within it.
pub record IsValid (m : MemoryOut) : Type 0 where
  pub array : List ℕ
  pub allocated : m.buffer ≡ some array
  pub storage : length array ≡ m.buffer_size
  pub some_size : 0 < m.buffer_size
  pub word : m.buffer_size < 2 ^ 32
  pub within : m.buffer_pos ≤ m.buffer_size

module _ (gives : ℕ → Bool) where
  -- A write appends its bytes and returns their number, and the buffer grows to less than twice what
  -- is written, if at all. The fields are in order, and stay so. Every allocation gives memory, and no more than 2^31 bytes are written in
  -- all.
  pub write-contents :
      (m : MemoryOut) (bytes : List ℕ)
      → ((n : ℕ) → gives n ≡ true)
      → IsValid m
      → m.buffer_pos + length bytes ≤ 2 ^ 31
      → (m' : MemoryOut) × (write gives m bytes ≡ returns (some (length bytes), m'))
        × IsValid m'
        × (contents m' ≡ contents m ++ bytes)
        × ((m'.buffer_size ≡ m.buffer_size) ⊎ (m'.buffer_size < 2 * (m.buffer_pos + length bytes)))
  unfolding write write_into
  write-contents m bytes given v small = go (
      grow-Grown gives 32 v.array m.buffer_size m.buffer_pos (length bytes) given v.storage v.word
        v.within small (omega (arith, v)))
    where
      go :
          Grown gives 33 v.array m.buffer_size m.buffer_pos (length bytes)
          → (m' : MemoryOut) × (write gives m bytes ≡ returns (some (length bytes), m'))
            × IsValid m'
            × (contents m' ≡ contents m ++ bytes)
            × ((m'.buffer_size ≡ m.buffer_size)
                ⊎ (m'.buffer_size < 2 * (m.buffer_pos + length bytes)))
      go (buf, size, e, len, w, room, same, bound) = (
        record {
          buffer = some (stored buf m.buffer_pos bytes);
          buffer_size = size;
          buffer_pos = m.buffer_pos + length bytes;
        },
        rw (
          v.allocated,
          write,
          write_into,
          e,
          store_in_range buf m.buffer_pos bytes (omega arith),
          add32_small m.buffer_pos (length bytes) (omega arith),
        ),
        record {
          array = stored buf m.buffer_pos bytes;
          allocated = refl;
          storage = length-stored buf m.buffer_pos bytes (omega arith) ∙ len;
          some_size = omega (arith, v);
          word = w;
          within = room;
        },
        rw v.allocated
            (take-stored buf m.buffer_pos bytes _ (omega arith) refl ∙ ap (λ l. l ++ bytes) same),
        bound,
      )
