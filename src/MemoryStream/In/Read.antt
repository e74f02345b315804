-- ===== src/MemoryStream/In/Read.antt =====
-- `MemoryInStream::read` and `seek`: what they deliver, and when they leave the array.
use ckcore.Base.{
  ℕ, ◌+◌, ◌-◌, ◌^◌, ◌≤◌, ◌<◌, ◌≡◌, refl, sym, ap, ◌∙◌, ◌⊎◌, inl, ◌↔◌, true, false, some, List, [],
  returns, fault, load, load_in_range, ltb, length, take, drop, length-drop, take-all, drop-all,
  drop-drop, arith, sub32, add32, add32_small, lt→ltb, le→ltb, dec_lt,
}
use ckcore.Stream.{current, begin}
use ckcore.MemoryStream.In.{MemoryIn, end, seek, read}

-- The array has `count` bytes, and the position lies within it.
pub record IsValid (m : MemoryIn) : Type 0 where
  pub storage : length m.bytes ≡ m.count
  pub word : m.count < 2 ^ 32
  pub within : m.pos ≤ m.count

-- The bytes that are still to be read.
abbrev pub rest : MemoryIn → List ℕ
rest m = drop m.pos m.bytes

load_outside : (buf : List ℕ) (pos n : ℕ) → length buf < pos + n → load buf pos n ≡ fault
unfolding load
load_outside buf pos n h = ground arith

-- A read of `n` bytes gives the next ones, or all that are left, and moves past them. The position
-- lies within the array, and stays there, and the end of the read does not wrap.
pub read-rest :
    (m : MemoryIn) (n : ℕ)
    → IsValid m
    → m.pos + n < 2 ^ 32
    → (m' : MemoryIn) × (read m n ≡ returns (some (take n (rest m)), m'))
      × IsValid m'
      × (rest m' ≡ drop n (rest m))
      × (m'.count ≡ m.count)
unfolding read
read-rest m n v w = elim (dec_lt m.count (m.pos + n)) [
  | yes past ↦
      let test : ltb m.count (add32 m.pos n) ≡ true = lt→ltb _ _ (omega arith) in
      let left : sub32 m.count m.pos ≡ m.count - m.pos = omega (arith, v) in
      let few : length (rest m) ≤ m.count - m.pos = omega (arith, v, length-drop m.pos m.bytes) in
      let stop : add32 m.pos (m.count - m.pos) ≡ m.count = omega (arith, v) in
      (
        record m { pos = m.count },
        rw (
          test,
          left,
          load_in_range m.bytes m.pos (m.count - m.pos) (omega (arith, v)),
          stop,
          take-all (m.count - m.pos) (rest m) few,
          take-all n (rest m) (omega arith),
        ),
        record { storage = v.storage; word = v.word; within = omega arith },
        drop-all m.count m.bytes (omega (arith, v)) ∙ sym (drop-all n (rest m) (omega arith)),
        refl,
      )
  | no fits ↦
      let test : ltb m.count (add32 m.pos n) ≡ false = le→ltb _ _ (omega arith) in
      (
        record m { pos = m.pos + n },
        rw (test, load_in_range m.bytes m.pos n (omega (arith, v)), add32_small m.pos n w),
        record { storage = v.storage; word = v.word; within = omega arith },
        sym (drop-drop m.pos n m.bytes),
        refl,
      )
]

-- A read leaves the array exactly when the position lies past its end or the end of the read wraps.
-- The array has `count` bytes, and the three numbers are below 2^32; the position may be any.
pub read-fault_iff :
    (m : MemoryIn) (n : ℕ)
    → length m.bytes ≡ m.count
    → m.count < 2 ^ 32
    → m.pos < 2 ^ 32
    → n < 2 ^ 32
    → (read m n ≡ fault) ↔ (m.count < m.pos) ⊎ (2 ^ 32 ≤ m.pos + n)
unfolding read load
read-fault_iff m n storage word word' word'' = (λ h. ground arith, λ h. ground arith)

-- `end` is true exactly when no byte is left. The position lies within the array.
pub end-rest : (m : MemoryIn) → IsValid m → (end m ≡ true) ↔ (rest m ≡ [])
unfolding end
end-rest m v = (
  λ h. let le : m.count ≤ m.pos = ground arith in drop-all m.pos m.bytes (omega (arith, v)),
  λ h.
      let le : m.count ≤ m.pos = omega (arith, v, ap length h, length-drop m.pos m.bytes) in
      ground arith,
)

-- A seek that stays within the array succeeds: from the beginning it leaves what follows the first
-- `distance` bytes, and from the current position it drops `distance` of the bytes to come.
pub seek_lem :
    (m : MemoryIn) (distance : ℕ)
    → IsValid m
    → (distance ≤ m.count
        → (m' : MemoryIn) × (seek m distance begin ≡ returns (true, m'))
          × IsValid m'
          × (rest m' ≡ drop distance m.bytes))
      × (m.pos + distance ≤ m.count
          → (m' : MemoryIn) × (seek m distance current ≡ returns (true, m'))
            × IsValid m'
            × (rest m' ≡ drop distance (rest m)))
unfolding seek
seek_lem m distance v = (
  λ h. (
    record m { pos = distance },
    ground (arith, v),
    record { storage = v.storage; word = v.word; within = h },
    refl,
  ),
  λ h. (
    record m { pos = m.pos + distance },
    ground (arith, v),
    record { storage = v.storage; word = v.word; within = h },
    sym (drop-drop m.pos distance m.bytes),
  ),
)

-- A seek past the end whose sum does not wrap succeeds, and every read after it leaves the array.
pub seek_past_end-read :
    (m : MemoryIn) (distance n : ℕ)
    → IsValid m
    → m.count < m.pos + distance
    → m.pos + distance < 2 ^ 32
    → n < 2 ^ 32
    → (m' : MemoryIn) × (seek m distance current ≡ returns (true, m')) × (read m' n ≡ fault)
unfolding seek
seek_past_end-read m distance n v past w w' = (
  record m { pos = m.pos + distance },
  ground (arith, v),
  (read-fault_iff (record m { pos = m.pos + distance }) n v.storage v.word w w').1 (inl past),
)
