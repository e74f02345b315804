-- ===== src/Stream/Progress/Filled.antt =====
-- What the sized copies of src/stream.cc are to write: the first bytes of a text, and zeros behind
-- them where it is too short.
use ckcore.Base.{
  ℕ, zero, suc, ◌+◌, ◌-◌, ◌≤◌, ◌<◌, ◌≡◌, refl, ap, List, [], ◌∷◌, ◌++◌, length, length-append,
  length-replicate, length-take, replicate, take, arith, take-nil,
}
use ckcore.Stream.Copy.{buffer_size}
use ckcore.Stream.Progress.{chunk_of}

-- The first `size` bytes, or all and zeros behind them.
abbrev pub filled : ℕ → List ℕ → List ℕ
filled size l = take size l ++ replicate (size - length l) 0

pub filled-append :
    (bytes l : List ℕ) (size : ℕ)
    → length bytes ≤ size
    → filled size (bytes ++ l) ≡ bytes ++ filled (size - length bytes) l
filled-append [] l size h = ap (λ n. filled n l) (omega arith)
filled-append (x ∷ b) l zero h = absurd (omega arith)
filled-append (x ∷ b) l (suc size) h =
    let outer : suc size - suc (length (b ++ l)) ≡ size - length (b ++ l) = omega arith in
    let inner : suc size - suc (length b) ≡ size - length b = omega arith in
    rw (outer, inner) (ap (λ r. x ∷ r) (filled-append b l size (omega arith)))

pub filled-nil : (size : ℕ) → filled size [] ≡ replicate size 0
filled-nil size = let all : size - 0 ≡ size = omega arith in rw (take-nil size, all) refl

pub filled-zero : (l : List ℕ) → filled 0 l ≡ []
filled-zero l = let none_left : 0 - length l ≡ 0 = omega arith in rw none_left refl

pub length-filled : (size : ℕ) (l : List ℕ) → length (filled size l) ≡ size
length-filled size l =
    let cut = length-take size l in
    let pad = length-replicate {A = ℕ} (size - length l) 0 in
    omega (arith, length-append (take size l) (replicate (size - length l) 0), cut, pad)

pub replicate-add : (n m : ℕ) → replicate {A = ℕ} n 0 ++ replicate m 0 ≡ replicate (n + m) 0
replicate-add zero m = ap (λ k. replicate k 0) (omega arith)
replicate-add (suc n) m =
    let e : suc n + m ≡ suc (n + m) = omega arith in rw e (ap (λ l. 0 ∷ l) (replicate-add n m))

pub chunk-bounds :
    (size : ℕ)
    → 0 < size
    → (chunk_of size ≤ size) × (0 < chunk_of size) × (chunk_of size ≤ buffer_size)
chunk-bounds size h = ground arith
