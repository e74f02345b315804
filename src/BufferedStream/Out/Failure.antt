-- ===== src/BufferedStream/Out/Failure.antt =====
-- Where `BufferedOutStream::write` does not keep what it reports.
use ckcore.Base.{
  ℕ, suc, ◌+◌, ◌-◌, ◌^◌, ◌≤◌, ◌<◌, ◌≡◌, true, none, some, List, ◌++◌, returns, fault, store, ltb,
  length, take, arith, lt→ltb, le→ltb, add32, pos→eq_zero,
}
use ckcore.Stream.{OutStream}
use ckcore.Stream.Contract.{Sink}
use ckcore.BufferedStream.Out.{BufferedOut, write_loop, write, unsigned_or_failed}
use ckcore.BufferedStream.Out.Pending.{accepted, IsValid}
use ckcore.BufferedStream.Out.Round.{remain, remain_lem, dropped, round_lem, accepted-dropped}

two_rounds : (n : ℕ) → n + 2 ≡ suc (suc n)
two_rounds n = omega arith

store_outside :
    (buf : List ℕ) (pos : ℕ) (src : List ℕ)
    → length buf < pos + length src
    → store buf pos src ≡ fault
unfolding store
store_outside buf pos src h = ground arith

module _ {S : Type 0} {s : OutStream S} (sink : Sink s) where
  open sink use {Ok, Failing, written, limit, write_lem}

  -- Where `buffer_pos_ + count` wraps to a number that is within the buffer, the write copies its
  -- bytes past the end of the buffer.
  pub write-overflow :
      (b : BufferedOut S) (bytes : List ℕ)
      → IsValid sink b
      → 2 ^ 32 ≤ b.buffer_pos + length bytes
      → b.buffer_pos + length bytes ≤ 2 ^ 32 + b.buffer_size
      → write s b bytes ≡ fault
  unfolding write write_loop
  write-overflow b bytes v wraps fits =
      rw (pos→eq_zero b.buffer_size v.allocated, write, two_rounds (length bytes))
        (rw (
          le→ltb b.buffer_size (add32 b.buffer_pos (length bytes)) (omega (arith, v)),
          write_loop,
          store_outside b.buffer b.buffer_pos bytes (omega (arith, v)),
        ))

  -- Where the buffer has room for some of the bytes but not for all, and the stream below fails, the
  -- write reports the bytes that it had room for. Yet nothing is kept of them: what has been taken,
  -- by the stream below and in the buffer, is what it was.
  pub write_loses_reported :
      (b : BufferedOut S) (bytes : List ℕ) (st : S)
      → (v : IsValid sink b) → b.buffer_pos < b.buffer_size
      → b.buffer_size < b.buffer_pos + length bytes
      → b.buffer_pos + length bytes < 2 ^ 32
      → s.write b.stream (take b.buffer_pos b.buffer ++ take (b.buffer_size - b.buffer_pos) bytes)
        ≡ returns (none, st)
      → written st ≡ written b.stream
      → (b' : BufferedOut S) × (write s b bytes ≡ returns (some (b.buffer_size - b.buffer_pos), b'))
        × (accepted sink b' ≡ accepted sink b)
  unfolding write
  write_loses_reported b bytes st v room over w e same =
      let overfull : ltb b.buffer_size (add32 b.buffer_pos (length bytes)) ≡ true =
        lt→ltb _ _ (omega arith) in
      let left : remain sink b bytes 0 v ≡ b.buffer_size - b.buffer_pos =
        remain_lem sink b bytes 0 v w (omega arith) overfull in
      (
        dropped sink b bytes 0 v w (omega arith) overfull st,
        rw
            (
              pos→eq_zero b.buffer_size v.allocated,
              write,
              two_rounds (length bytes),
              round_lem sink b bytes 0 v w (omega arith) overfull (suc (length bytes)) none st
                  (rw left e),
            )
            (unfold unsigned_or_failed in ground (arith, left)),
        accepted-dropped sink b bytes 0 v w (omega arith) overfull st same,
      )
