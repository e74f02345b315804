-- ===== src/BufferedStream/Out/Write.antt =====
-- `BufferedOutStream::write` passes its bytes on in order.
use ckcore.Base.{
  ℕ, zero, suc, ◌+◌, ◌-◌, ◌^◌, ◌<◌, ◌≡◌, inl, inr, Option, List, returns, ltb, length, drop,
  length-drop, Bool-cases, arith, add32, pos→eq_zero,
}
use ckcore.Stream.{OutStream}
use ckcore.Stream.Contract.{Sink}
use ckcore.BufferedStream.Out.{BufferedOut, write}
use ckcore.BufferedStream.Out.Pending.{accepted, IsValid, Wrote}
use ckcore.BufferedStream.Out.Round.{
  Writes, remain, full, flushed, loop-fits, more, remain_lem, length-full, flushed-IsValid,
  round-Writes,
}

module _ {S : Type 0} {s : OutStream S} (sink : Sink s) where
  open sink use {Ok, Failing, written, limit, write_lem}

  loop-Writes :
      (fuel : ℕ) (b : BufferedOut S) (bytes : List ℕ) (pos : ℕ)
      → IsValid sink b
      → b.buffer_pos + length bytes < 2 ^ 32
      → pos + length bytes < 2 ^ 32
      → length bytes + (1 - (b.buffer_size - b.buffer_pos)) < fuel
      → Writes sink fuel b bytes pos
  loop-Writes zero b bytes pos v w w' f = absurd (omega arith)
  loop-Writes (suc fuel) b bytes pos v w w' f =
      elim (Bool-cases (ltb b.buffer_size (add32 b.buffer_pos (length bytes)))) [
        | inl over ↦
            round-Writes sink b bytes pos v w w' over fuel
              (λ st ok.
                let rem = remain_lem sink b bytes pos v w w' over in
                let lens = length-drop (remain sink b bytes pos v) bytes in
                let big = more sink b bytes pos v w w' over in
                loop-Writes fuel (flushed sink b bytes pos v st)
                  (drop (remain sink b bytes pos v) bytes) (pos + remain sink b bytes pos v)
                  (flushed-IsValid sink b bytes pos v w w' over st ok) (omega arith) (omega arith)
                  (omega arith))
              (write_lem b.stream (full sink b bytes pos v) v.stream_ok
                (omega (arith, v, length-full sink b bytes pos v w w' over)))
        | inr fits ↦ loop-fits sink b bytes pos v w w' fuel fits
      ]

  -- Over a stream below each of whose writes takes all of its bytes or fails (stream.hh also allows
  -- short writes, which are excluded), a write returns. Either it takes all of its bytes, in order
  -- behind the earlier ones, and returns their number, or the stream below has failed: then a first
  -- part of them is kept, and it reports no fewer bytes than that and less than all of them, or
  -- 4294967295 (its -1, made unsigned) where the buffer was full and none of them is kept. The fields
  -- are in order, and stay so, and `buffer_pos_ + count` does not wrap.
  pub write-Wrote :
      (b : BufferedOut S) (bytes : List ℕ)
      → IsValid sink b
      → b.buffer_pos + length bytes < 2 ^ 32
      → (r : Option ℕ) × (b' : BufferedOut S) × (write s b bytes ≡ returns (r, b'))
        × Wrote sink (accepted sink b) bytes 0 r b'
  unfolding write
  write-Wrote b bytes v w =
      rw (pos→eq_zero b.buffer_size v.allocated, write)
        (loop-Writes (length bytes + 2) b bytes 0 v w (omega arith) (omega arith))
