-- ===== src/Crc/Rounds.antt =====
-- The division of a polynomial over two elements by another, one bit at a time: a description of
-- checksums that needs no table. It describes `CrcStream` of src/crcstream.cc.
use Prim.Native.Nat.{bit_xor}
use ckcore.Base.{
  ℕ, zero, suc, ◌+◌, ◌*◌, ◌/◌, ◌%◌, ◌<◌, ◌≡◌, refl, ap, sym, ◌∙◌, ◌==◌, if◌then◌else◌, arith,
}
use mathlib.Core.Path.{◌≡⟨◌⟩◌, ◌∎}
use ckcore.Base.Digits.{
  bit_xor-half, bit_xor-parity, bit_xor_self, bit_xor-zero, zero-bit_xor, bit_xor_swap,
  bit_xor-double, above-bit_xor, below-bit_xor, above_fifteen, below_sixteen, span, span_pos,
}

-- One round where the lowest bit has the highest power.
abbrev pub low_round : ℕ → ℕ → ℕ
low_round poly crc = if crc % 2 == 1 then bit_xor (crc / 2) poly else crc / 2

-- One round in 16 bits where the highest bit has the highest power.
abbrev pub high_round : ℕ → ℕ → ℕ
high_round poly crc =
    if crc / 0x8000 % 2 == 1 then bit_xor (crc * 2 % 0x1_0000) poly else crc * 2 % 0x1_0000

abbrev pub rounds : ℕ → (ℕ → ℕ) → ℕ → ℕ
rounds zero f crc = crc
rounds (suc n) f crc = rounds n f (f crc)

-- What a round takes off, by the bit that it tests.
abbrev taken : ℕ → ℕ → ℕ
taken poly bit = if bit % 2 == 1 then poly else 0

taken-add : (poly m n : ℕ) → taken poly (m + n) ≡ bit_xor (taken poly m) (taken poly n)
taken-add poly m n =
    ground (arith, bit_xor_self poly, bit_xor-zero poly, zero-bit_xor poly, zero-bit_xor 0)

low_round_lem : (poly crc : ℕ) → low_round poly crc ≡ bit_xor (crc / 2) (taken poly crc)
low_round_lem poly crc = ground (arith, bit_xor-zero (crc / 2))

high_round_lem :
    (poly crc : ℕ) → high_round poly crc ≡ bit_xor (crc * 2 % 0x1_0000) (taken poly (crc / 0x8000))
high_round_lem poly crc = ground (arith, bit_xor-zero (crc * 2 % 0x1_0000))

taken_parity : (poly m n : ℕ) → m % 2 ≡ n % 2 → taken poly m ≡ taken poly n
taken_parity poly m n same = rw same refl

-- A round of `^` is the `^` of two rounds.
pub low_round-bit_xor :
    (poly a b : ℕ) → low_round poly (bit_xor a b) ≡ bit_xor (low_round poly a) (low_round poly b)
low_round-bit_xor poly a b =
    low_round poly (bit_xor a b)
    ≡⟨ low_round_lem poly (bit_xor a b) ⟩ bit_xor (bit_xor a b / 2) (taken poly (bit_xor a b))
    ≡⟨ ap (bit_xor (bit_xor a b / 2))
        (taken_parity poly (bit_xor a b) (a + b) (bit_xor-parity a b) ∙ taken-add poly a b) ⟩
      bit_xor (bit_xor a b / 2) (bit_xor (taken poly a) (taken poly b))
    ≡⟨ (rw (bit_xor-half a b) (bit_xor_swap (a / 2) (b / 2) (taken poly a) (taken poly b))) ⟩
      bit_xor (bit_xor (a / 2) (taken poly a)) (bit_xor (b / 2) (taken poly b))
    ≡⟨ (rw (low_round_lem poly a, low_round_lem poly b) refl) ⟩
      bit_xor (low_round poly a) (low_round poly b) ∎

high_shift : (a b : ℕ) → bit_xor a b * 2 % 0x1_0000 ≡ bit_xor (a * 2 % 0x1_0000) (b * 2 % 0x1_0000)
high_shift a b =
    rw
      (
        sym (bit_xor-double a b),
        sym (below_sixteen (bit_xor (a * 2) (b * 2))),
        sym (below_sixteen (a * 2)),
        sym (below_sixteen (b * 2)),
      )
      (below-bit_xor 16 (a * 2) (b * 2))

high_bit : (a b : ℕ) → bit_xor a b / 0x8000 ≡ bit_xor (a / 0x8000) (b / 0x8000)
high_bit a b =
    rw (sym (above_fifteen (bit_xor a b)), sym (above_fifteen a), sym (above_fifteen b))
      (above-bit_xor 15 a b)

pub high_round-bit_xor :
    (poly a b : ℕ) → high_round poly (bit_xor a b) ≡ bit_xor (high_round poly a) (high_round poly b)
high_round-bit_xor poly a b =
    let m : ℕ = a / 0x8000 in
    let n : ℕ = b / 0x8000 in
    let x : ℕ = a * 2 % 0x1_0000 in
    let y : ℕ = b * 2 % 0x1_0000 in
    high_round poly (bit_xor a b)
    ≡⟨ high_round_lem poly (bit_xor a b) ⟩
      bit_xor (bit_xor a b * 2 % 0x1_0000) (taken poly (bit_xor a b / 0x8000))
    ≡⟨ (rw (high_shift a b, high_bit a b) refl) ⟩ bit_xor (bit_xor x y) (taken poly (bit_xor m n))
    ≡⟨ ap (bit_xor (bit_xor x y))
        (taken_parity poly (bit_xor m n) (m + n) (bit_xor-parity m n) ∙ taken-add poly m n) ⟩
      bit_xor (bit_xor x y) (bit_xor (taken poly m) (taken poly n))
    ≡⟨ bit_xor_swap x y (taken poly m) (taken poly n) ⟩
      bit_xor (bit_xor x (taken poly m)) (bit_xor y (taken poly n))
    ≡⟨ (rw (high_round_lem poly a, high_round_lem poly b) refl) ⟩
      bit_xor (high_round poly a) (high_round poly b) ∎

-- So it is for any number of rounds.
pub rounds-bit_xor :
    (f : ℕ → ℕ)
    → ((a b : ℕ) → f (bit_xor a b) ≡ bit_xor (f a) (f b))
    → (n a b : ℕ) → rounds n f (bit_xor a b) ≡ bit_xor (rounds n f a) (rounds n f b)
rounds-bit_xor f linear zero a b = refl
rounds-bit_xor f linear (suc n) a b = rw (linear a b) (rounds-bit_xor f linear n (f a) (f b))

-- Rounds that meet no bit only shift.
pub low_rounds-shift : (poly n c : ℕ) → rounds n (low_round poly) (c * span n) ≡ c
low_rounds-shift poly zero c = omega arith
low_rounds-shift poly (suc n) c =
    let even : c * span (suc n) % 2 ≡ 0 = grind arith in
    let half : c * span (suc n) / 2 ≡ c * span n = grind arith in
    rw (even, half) (low_rounds-shift poly n c)

fits_high : (k c : ℕ) → c * (span k + span k) < 0x1_0000 → c * 2 * span k < 0x1_0000
fits_high k c h = grind arith

fits_low : (k c : ℕ) → c * (span k + span k) < 0x1_0000 → c * 2 < 0x1_0000
fits_low k c h = grind (arith, span_pos k)

pub high_rounds-shift :
    (poly n c : ℕ) → c * span n < 0x1_0000 → rounds n (high_round poly) c ≡ c * span n
high_rounds-shift poly zero c fits = omega arith
high_rounds-shift poly (suc n) c fits =
    let low = fits_low n c fits in
    let none : c / 0x8000 % 2 ≡ 0 = omega (arith, low) in
    let same : c * 2 % 0x1_0000 ≡ c * 2 = omega (arith, low) in
    let twice : c * 2 * span n ≡ c * (span n + span n) = grind arith in
    rw (none, same) (high_rounds-shift poly n (c * 2) (fits_high n c fits) ∙ twice)
