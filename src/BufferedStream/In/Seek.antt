-- ===== src/BufferedStream/In/Seek.antt =====
-- `BufferedInStream::seek`, which reads and drops the bytes that it is to skip.
use ckcore.Base.{
  ℕ, zero, suc, ◌+◌, ◌-◌, ◌^◌, ◌≤◌, ◌<◌, ◌≡◌, refl, ap, ◌∙◌, true, returns, stuck, length, take,
  drop, length-take, length-drop, arith, sub32, ◌==◌, lt→ltb, pos→eq_zero, if◌then◌else◌, drop-drop,
}
use ckcore.Stream.{InStream, current}
use ckcore.Stream.Contract.{Source, IsReliable}
use ckcore.BufferedStream.In.{
  default_size, BufferedIn, got, read, round_size, skip_loop, skip, seek_on_fuel, seek,
}
use ckcore.BufferedStream.In.Pending.{to_come, IsValid}
use ckcore.BufferedStream.In.Client.{read-take}

-- A round of the loop in `seek` asks for something, and for no more than is to be skipped.
round_size_bounds :
    (size distance : ℕ)
    → 0 < size
    → 0 < distance
    → (0 < round_size size distance) × (round_size size distance ≤ distance)
unfolding round_size
round_size_bounds size distance h k = ground arith

module _ {S : Type 0} {s : InStream S} (src : Source s) where
  open src use {Ok, Failing, rest, limit, end_lem, read_lem}

  -- The loop has dropped the `distance` bytes that it is to skip.
  abbrev Skips : ℕ → ℕ → BufferedIn S → ℕ → Type 0
  Skips fuel size b distance =
      (b' : BufferedIn S) × (skip_loop s fuel size b distance ≡ returns (true, b'))
      × IsValid src b'
      × (to_come src b' ≡ drop distance (to_come src b))

  skip-round :
      (fuel size d n : ℕ) (b b1 : BufferedIn S)
      → round_size size (suc d) ≡ n
      → suc d < 2 ^ 32
      → n ≤ suc d
      → n ≤ length (to_come src b)
      → read s b n ≡ returns (got (take n (to_come src b)), b1)
      → to_come src b1 ≡ drop n (to_come src b)
      → Skips fuel size b1 (suc d - n)
      → Skips (suc fuel) size b (suc d)
  unfolding skip_loop
  skip-round fuel size d n b b1 asked w few le e left (b2, e2, v2, left2) =
      let rounds : sub32 (suc d) (length (take n (to_come src b))) ≡ suc d - n =
        omega (arith, length-take n (to_come src b)) in
      let whole : n + (suc d - n) ≡ suc d = omega arith in
      (
        b2,
        rw (lt→ltb 0 (suc d) (omega arith), skip_loop, asked, e, rounds) e2,
        v2,
        left2
            ∙ ap (drop (suc d - n)) left
            ∙ drop-drop n (suc d - n) (to_come src b)
            ∙ ap (λ k. drop k (to_come src b)) whole,
      )

  skip_loop-drop :
      (fuel size : ℕ) (b : BufferedIn S) (distance : ℕ)
      → IsReliable src
      → IsValid src b
      → 0 < size
      → distance < 2 ^ 32
      → distance ≤ length (to_come src b)
      → distance < fuel
      → Skips fuel size b distance
  skip_loop-drop zero size b distance reliable v pos w le f = absurd (omega arith)
  skip_loop-drop (suc fuel) size b zero reliable v pos w le f =
      (b, unfold skip_loop in refl, v, refl)
  skip_loop-drop (suc fuel) size b (suc d) reliable v pos w le f =
      let n = round_size size (suc d) in
      let (some_n, few) = round_size_bounds size (suc d) pos (omega arith) in
      let (b1, e, v1, left) = read-take src b n reliable v (omega arith) in
      skip-round fuel size d n b b1 refl w few (omega arith) e left (
        skip_loop-drop fuel size b1 (suc d - n) reliable v1 pos (omega arith)
          (omega (arith, ap length left, length-drop n (to_come src b))) (omega arith))

  skip_loop-stuck :
      (fuel size : ℕ) (b : BufferedIn S) (distance : ℕ)
      → IsReliable src
      → IsValid src b
      → 0 < size
      → distance < 2 ^ 32
      → length (to_come src b) < distance
      → skip_loop s fuel size b distance ≡ stuck
  unfolding skip_loop
  skip_loop-stuck zero size b distance reliable v pos w lt = refl
  skip_loop-stuck (suc fuel) size b zero reliable v pos w lt = absurd (omega arith)
  skip_loop-stuck (suc fuel) size b (suc d) reliable v pos w lt =
      let n = round_size size (suc d) in
      let (some_n, few) = round_size_bounds size (suc d) pos (omega arith) in
      let (b1, e, v1, left) = read-take src b n reliable v (omega arith) in
      let len : length (to_come src b1) ≡ length (to_come src b) - n =
        omega (arith, ap length left, length-drop n (to_come src b)) in
      rw (lt→ltb 0 (suc d) (omega arith), skip_loop, e)
        (skip_loop-stuck fuel size b1 (sub32 (suc d) (length (take n (to_come src b)))) reliable v1
          pos (omega arith) (omega (arith, length-take n (to_come src b))))

  abbrev buffer_or_default : BufferedIn S → ℕ
  buffer_or_default b = if b.buffer_size == 0 then default_size else b.buffer_size

  buffer_or_default-pos : (b : BufferedIn S) → 0 < buffer_or_default b
  buffer_or_default-pos b = ground arith

  -- A seek from the current position, by no more than what is left, succeeds and drops that many
  -- bytes. No read of the stream below fails, and the fields are in order.
  pub seek-drop :
      (b : BufferedIn S) (distance : ℕ)
      → IsReliable src
      → IsValid src b
      → distance < 2 ^ 32
      → distance ≤ length (to_come src b)
      → (b' : BufferedIn S) × (seek s b distance current ≡ returns (true, b'))
        × IsValid src b'
        × (to_come src b' ≡ drop distance (to_come src b))
  unfolding seek seek_on_fuel skip
  seek-drop b zero reliable v w le = (b, refl, v, refl)
  seek-drop b (suc d) reliable v w le =
      rw (pos→eq_zero (suc d) (omega arith), skip)
        (skip_loop-drop (suc d + 1) (buffer_or_default b) b (suc d) reliable v
          (buffer_or_default-pos b) w le (omega arith))

  -- A seek by more than what is left never returns, whatever the fuel: its loop goes on reading
  -- nothing. No read of the stream below fails, and the fields are in order.
  pub seek-stuck :
      (fuel : ℕ) (b : BufferedIn S) (distance : ℕ)
      → IsReliable src
      → IsValid src b
      → distance < 2 ^ 32
      → length (to_come src b) < distance
      → seek_on_fuel s fuel b distance current ≡ stuck
  unfolding seek_on_fuel skip
  seek-stuck fuel b zero reliable v w lt = absurd (omega arith)
  seek-stuck fuel b (suc d) reliable v w lt =
      rw (pos→eq_zero (suc d) (omega arith), skip)
        (skip_loop-stuck fuel (buffer_or_default b) b (suc d) reliable v (buffer_or_default-pos b) w
          lt)
