-- ===== src/BufferedStream/In/Client.antt =====
-- What a client sees of a `BufferedInStream` over a stream whose reads do not fail.
use ckcore.Base.{
  ℕ, ◌+◌, ◌^◌, ◌<◌, ◌≡◌, ◌↔◌, ap, nil_of_length, inl, inr, true, [], returns, length, take, drop,
  length-append, arith, cut_of_append,
}
use ckcore.Stream.{InStream}
use ckcore.Stream.Contract.{Source, IsReliable}
use ckcore.BufferedStream.In.{BufferedIn, Result, failed, got, wrapped, read, end}
use ckcore.BufferedStream.In.Pending.{pending, to_come, IsValid, Ended, length-pending}
use ckcore.BufferedStream.In.Read.{read-Ended}

module _ {S : Type 0} {s : InStream S} (src : Source s) where
  open src use {Ok, Failing, rest, limit, end_lem, read_lem}

  -- `end` is true exactly when no byte is to come, from the buffer or from the stream below. The fields
  -- are in order.
  pub end-to_come : (b : BufferedIn S) → IsValid src b → (end s b ≡ true) ↔ (to_come src b ≡ [])
  unfolding end
  end-to_come b v = (
    λ h.
        let (over, empty) : (s.end b.stream ≡ true) × (b.buffer_data ≡ 0) = ground arith in
        rw (empty, (end_lem b.stream v.stream_ok).0 over),
    λ h.
        let lens : length (pending b) + length (rest b.stream) ≡ 0 =
          omega (arith, length-append (pending b) (rest b.stream), ap length h) in
        let empty : b.buffer_data ≡ 0 = omega (arith, length-pending src b v) in
        let over : s.end b.stream ≡ true =
          (end_lem b.stream v.stream_ok).1 (nil_of_length (rest b.stream) (omega arith)) in
        rw (over, empty),
  )

  -- Over a stream whose reads do not fail, `read` returns the next `count` bytes, or all that are left,
  -- and leaves the others to come. The fields are in order, and stay so.
  pub read-take :
      (b : BufferedIn S) (count : ℕ)
      → IsReliable src
      → IsValid src b
      → count < 2 ^ 32
      → (b' : BufferedIn S) × (read s b count ≡ returns (got (take count (to_come src b)), b'))
        × IsValid src b'
        × (to_come src b' ≡ drop count (to_come src b))
  read-take b count reliable v w = go (read-Ended src b count v w)
    where
      go :
          (r : Result) × (b' : BufferedIn S) × (read s b count ≡ returns (r, b'))
            × Ended src (to_come src b) count r b'
          → (b' : BufferedIn S) × (read s b count ≡ returns (got (take count (to_come src b)), b'))
            × IsValid src b'
            × (to_come src b' ≡ drop count (to_come src b))
      go (failed, b', e, d) = elim d [ ]
      go (wrapped, b', e, (v', same, failing)) = absurd (reliable b'.stream failing)
      go (got bytes, b', e, (v', total, few, short)) =
          let (front, back) =
            cut_of_append count (to_come src b) bytes (to_come src b') total few (λ lt.
              elim (short lt) [
                | inl none_left ↦ none_left
                | inr (_, failing, _) ↦ absurd (reliable b'.stream failing)
              ]) in
          (b', rw (← front) e, v', back)
