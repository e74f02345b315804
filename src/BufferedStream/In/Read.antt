-- ===== src/BufferedStream/In/Read.antt =====
-- `BufferedInStream::read` hands out the bytes of the stream below, in order and without loss.
use Prim.Native.Nat.add
use ckcore.Base.{
  ℕ, zero, suc, ◌+◌, ◌-◌, ◌^◌, ◌≤◌, ◌<◌, ◌≡◌, inl, inr, true, false, List, [], ◌++◌, append_assoc,
  returns, load_in_range, ltb, length, take, drop, length-append, length-take, length-drop,
  take-split, drop-drop, Bool-cases, arith, ltb→lt, ltb→le, sub32, add32, ◌==◌,
}
use ckcore.Stream.{InStream}
use ckcore.Stream.Contract.{Source}
use ckcore.BufferedStream.In.{
  BufferedIn, Result, Round, got, finished, again, refill, read_loop, read,
}
use ckcore.BufferedStream.In.Pending.{pending, to_come, IsValid, Ended}
use ckcore.BufferedStream.In.Refill.{Refilled, refill-Refilled}

module _ {S : Type 0} {s : InStream S} (src : Source s) where
  open src use {Ok, Failing, rest, limit, end_lem, read_lem}

  -- The loop ends, with what it was asked for.
  abbrev Reads : ℕ → BufferedIn S → ℕ → List ℕ → Type 0
  Reads fuel b count out =
      (r : Result) × (b' : BufferedIn S) × (read_loop s fuel b count out ≡ returns (r, b'))
      × Ended src (out ++ to_come src b) (length out + count) r b'

  -- Enough fuel: each round takes a byte, but for one that finds the buffer empty.
  abbrev Enough : ℕ → Type 0
  Enough fuel =
      (b : BufferedIn S) (count : ℕ) (out : List ℕ)
      → IsValid src b
      → count < 2 ^ 32
      → count + (1 - b.buffer_data) < fuel
      → Reads fuel b count out

  loop-short :
      (fuel : ℕ) (b : BufferedIn S) (count : ℕ) (out : List ℕ)
      → Enough fuel
      → count < 2 ^ 32
      → count + (1 - b.buffer_data) < suc fuel
      → ltb b.buffer_data count ≡ true
      → (r : Round S) × (refill s b out ≡ returns r) × Refilled src b out (length out + count) r
      → Reads (suc fuel) b count out
  unfolding read_loop
  loop-short fuel b count out rec w f short (finished r b', e, d) =
      (r, b', rw (short, read_loop, e), d)
  loop-short fuel b count out rec w f short (again out' b', e, (v', total, stored, some_in)) =
      let lt : b.buffer_data < count = ltb→lt _ _ short in
      let (r, b'', e', d) =
        rec b' (sub32 count b.buffer_data) out' v' (omega arith) (omega arith) in
      let same : length out' + sub32 count b.buffer_data ≡ length out + count = omega arith in
      (r, b'', rw (short, read_loop, e) e', rw (total, ← same) d)

  -- The buffer after `count` bytes of it were handed out.
  abbrev consumed : BufferedIn S → ℕ → BufferedIn S
  consumed b count = record b {
    buffer_pos = add32 b.buffer_pos count;
    buffer_data = sub32 b.buffer_data count;
  }

  pending-consumed :
      (b : BufferedIn S) (count : ℕ)
      → IsValid src b
      → count ≤ b.buffer_data
      → pending b ≡ take count (drop b.buffer_pos b.buffer) ++ pending (consumed b count)
  pending-consumed b count v le =
      let pos : add32 b.buffer_pos count ≡ b.buffer_pos + count = omega (arith, v) in
      let left : sub32 b.buffer_data count ≡ b.buffer_data - count = omega (arith, v) in
      rw (pos, left, ← drop-drop b.buffer_pos count b.buffer)
        (take-split count b.buffer_data (drop b.buffer_pos b.buffer) le)

  loop-enough :
      (fuel : ℕ) (b : BufferedIn S) (count : ℕ) (out : List ℕ)
      → IsValid src b
      → ltb b.buffer_data count ≡ false
      → Reads (suc fuel) b count out
  unfolding read_loop
  loop-enough fuel b count out v enough =
      let le : count ≤ b.buffer_data = ltb→le _ _ enough in
      let bytes = take count (drop b.buffer_pos b.buffer) in
      let all : length (out ++ bytes) ≡ length out + count = omega (
        arith,
        v,
        length-append out bytes,
        length-take count (drop b.buffer_pos b.buffer),
        length-drop b.buffer_pos b.buffer,
      ) in
      (
        got (out ++ bytes),
        consumed b count,
        rw (enough, read_loop, load_in_range b.buffer b.buffer_pos count (omega (arith, v))),
        (
          record {
            stream_ok = v.stream_ok;
            allocated = v.allocated;
            served = v.served;
            word = v.word;
            storage = v.storage;
            within = omega (arith, v);
          },
          rw (pending-consumed b count v le)
              (regrouped bytes (pending (consumed b count)) (rest b.stream)),
          omega arith,
          λ h. absurd (omega arith),
        ),
      )
    where
      regrouped : (xs ys zs : List ℕ) → out ++ (xs ++ ys ++ zs) ≡ out ++ xs ++ (ys ++ zs)
      regrouped xs ys zs = simp append_assoc

  loop-Reads : (fuel : ℕ) → Enough fuel
  loop-Reads zero b count out v w f = absurd (omega arith)
  loop-Reads (suc fuel) b count out v w f = elim (Bool-cases (ltb b.buffer_data count)) [
    | inl short ↦
        loop-short fuel b count out (loop-Reads fuel) w f short
          (refill-Refilled src b out v (length out + count) (omega (arith, ltb→lt _ _ short)))
    | inr enough ↦ loop-enough fuel b count out v enough
  ]

  -- `read` returns, and the bytes that it hands out are the next of those to come. They are as many as
  -- were asked for, unless no more come or the stream below has failed. It returns its -1, made
  -- unsigned to 4294967295, only if that failed, and then every byte is still to come; it never returns
  -- -1 itself. The fields are in order, and stay so, the buffer was allocated, and the stream below
  -- keeps the contract of an input stream.
  pub read-Ended :
      (b : BufferedIn S) (count : ℕ)
      → IsValid src b
      → count < 2 ^ 32
      → (r : Result) × (b' : BufferedIn S) × (read s b count ≡ returns (r, b'))
        × Ended src (to_come src b) count r b'
  unfolding read
  read-Ended b count v w =
      let ne : (b.buffer_size == 0) ≡ false = ground (arith, v) in
      rw (ne, read) (rw add.zero at (loop-Reads (count + 2) b count [] v w (omega arith)))
