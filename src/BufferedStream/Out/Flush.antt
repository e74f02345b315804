-- ===== src/BufferedStream/Out/Flush.antt =====
-- `BufferedOutStream` over a stream that takes every write: nothing is lost up to `flush`.
use Prim.Native.Nat.add
use ckcore.Base.{
  ℕ, ◌+◌, ◌^◌, ◌≤◌, ◌<◌, ◌≡◌, refl, ap, inl, inr, Option, none, some, List, ◌++◌, returns,
  load_in_range, length, take, length-take, arith, pos→eq_zero,
}
use ckcore.Stream.{OutStream}
use ckcore.Stream.Contract.{Sink, Accepts, TakesAll}
use ckcore.BufferedStream.Out.{BufferedOut, write, flush, destroy}
use ckcore.BufferedStream.Out.Pending.{accepted, IsValid, Wrote}
use ckcore.BufferedStream.Out.Write.{write-Wrote}

module _ {S : Type 0} {s : OutStream S} (sink : Sink s) where
  open sink use {Ok, Failing, written, limit, write_lem}

  -- Over a stream whose writes do not fail, a write returns the number of its bytes and keeps them, in
  -- order, behind the earlier ones. The fields are in order, and `buffer_pos_ + count` does not wrap.
  pub write-append :
      (b : BufferedOut S) (bytes : List ℕ)
      → TakesAll sink
      → IsValid sink b
      → b.buffer_pos + length bytes < 2 ^ 32
      → (b' : BufferedOut S) × (write s b bytes ≡ returns (some (length bytes), b'))
        × IsValid sink b'
        × (accepted sink b' ≡ accepted sink b ++ bytes)
  write-append b bytes all v w = go (write-Wrote sink b bytes v w)
    where
      go :
          (r : Option ℕ) × (b' : BufferedOut S) × (write s b bytes ≡ returns (r, b'))
            × Wrote sink (accepted sink b) bytes 0 r b'
          → (b' : BufferedOut S) × (write s b bytes ≡ returns (some (length bytes), b'))
            × IsValid sink b'
            × (accepted sink b' ≡ accepted sink b ++ bytes)
      go (r, b', e, (v', inl (n, acc))) = (b', rw (n, add.zero) at e, v', acc)
      go (r, b', e, (v', inr (failing, _))) = absurd (all b'.stream failing)

  -- What a flush of `b` that returns `r` leaves.
  abbrev pub Flushed : BufferedOut S → Option ℕ → BufferedOut S → Type 0
  Flushed b none b' =
      Failing b'.stream
      × (written b'.stream ≡ written b.stream)
      × (accepted sink b' ≡ accepted sink b)
  Flushed b (some n) b' =
      (n ≡ b.buffer_pos) × (written b'.stream ≡ accepted sink b) × (b'.buffer_pos ≡ 0)

  -- Over a stream below each of whose writes takes all of its bytes or fails (short writes are
  -- excluded), with the fields in order, a flush returns and keeps them in order. When it succeeds, it
  -- returns the number of bytes that were buffered, all that was taken is in the stream below, and the
  -- buffer is empty; when the stream below fails, it returns -1, and what that has and what is buffered
  -- are as they were.
  pub flush-Flushed :
      (b : BufferedOut S)
      → IsValid sink b
      → (r : Option ℕ) × (b' : BufferedOut S) × (flush s b ≡ returns (r, b'))
        × IsValid sink b'
        × Flushed b r b'
  unfolding flush
  flush-Flushed b v =
      go (
        write_lem b.stream pending v.stream_ok
          (omega (arith, v, length-take b.buffer_pos b.buffer)))
    where
      pending : List ℕ
      pending = take b.buffer_pos b.buffer

      in_range : 0 + b.buffer_pos ≤ length b.buffer
      in_range = omega (arith, v)

      valid :
          (st : S) (pos : ℕ)
          → Ok st
          → pos ≤ b.buffer_size
          → IsValid sink (record b { stream = st; buffer_pos = pos })
      valid st pos ok within = record {
        stream_ok = ok;
        allocated = v.allocated;
        served = v.served;
        word = v.word;
        storage = v.storage;
        within = within;
      }

      go :
          (r : Option ℕ) × (st : S) × (s.write b.stream pending ≡ returns (r, st))
            × Ok st
            × Accepts (Failing st) pending (written b.stream) r (written st)
          → (r : Option ℕ) × (b' : BufferedOut S) × (flush s b ≡ returns (r, b'))
            × IsValid sink b'
            × Flushed b r b'
      go (none, st, e, ok, (same, failing)) = (
        none,
        record b { stream = st },
        rw (
          pos→eq_zero b.buffer_size v.allocated,
          flush,
          load_in_range b.buffer 0 b.buffer_pos in_range,
          e,
        ),
        valid st b.buffer_pos ok v.within,
        (failing, same, ap (λ l. l ++ pending) same),
      )
      go (some n, st, e, ok, (all, more_written)) = (
        some n,
        record b { stream = st; buffer_pos = 0 },
        rw (
          pos→eq_zero b.buffer_size v.allocated,
          flush,
          load_in_range b.buffer 0 b.buffer_pos in_range,
          e,
        ),
        valid st 0 ok (omega arith),
        (omega (arith, v, length-take b.buffer_pos b.buffer), more_written, refl),
      )

  -- The destructor writes what is buffered: a stream below whose writes do not fail ends up with all
  -- that was taken. The fields are in order.
  pub destroy-written :
      (b : BufferedOut S)
      → TakesAll sink
      → IsValid sink b
      → (st : S) × (destroy s b ≡ returns st) × (written st ≡ accepted sink b)
  unfolding destroy
  destroy-written b all v = go (flush-Flushed b v)
    where
      go :
          (r : Option ℕ) × (b' : BufferedOut S) × (flush s b ≡ returns (r, b'))
            × IsValid sink b'
            × Flushed b r b'
          → (st : S) × (destroy s b ≡ returns st) × (written st ≡ accepted sink b)
      go (none, b', e, v', (failing, _, _)) = absurd (all b'.stream failing)
      go (some n, b', e, v', (_, more_written, _)) = (b'.stream, rw (e, destroy), more_written)
