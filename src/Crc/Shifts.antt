-- ===== src/Crc/Shifts.antt =====
-- A byte at a time: the table serves the byte that leaves a checksum of `CrcStream` of
-- src/crcstream.cc, and the rest of the checksum moves by eight places.
use Prim.Native.Nat.{bit_and, bit_xor}
use ckcore.Base.{ℕ, zero, suc, ◌*◌, ◌/◌, ◌%◌, ◌<◌, ◌≡◌, refl, ap, sym, ◌∙◌, arith}
use mathlib.Core.Path.{◌≡⟨◌⟩◌, ◌∎}
use ckcore.Base.Digits.{
  bit_xor_comm, bit_xor_assoc, below-bit_xor, below_sixteen, bit_xor-parts, bit_xor-shift,
  bit_xor_lt, bit_and-ones, below,
}
use ckcore.Crc.Rounds.{
  low_round, high_round, rounds, rounds-bit_xor, low_round-bit_xor, high_round-bit_xor,
  low_rounds-shift, high_rounds-shift,
}
use ckcore.Crc.{shift_left}

-- A number of bytes, by its lowest byte and the rest.
parts : (c : ℕ) → c ≡ bit_xor (c / 256 * 256) (c % 256)
parts c = omega (arith, bit_xor-parts 8 (c / 256) (c % 256) (omega arith))

pub low_byte : (c : ℕ) → bit_and c 0xff ≡ c % 256
low_byte c = bit_and-ones 8 c ∙ omega arith

pub low_next :
    (poly crc byte : ℕ)
    → bit_xor (crc / 256) (rounds 8 (low_round poly) (bit_xor (crc % 256) byte))
      ≡ rounds 8 (low_round poly) (bit_xor crc byte)
low_next poly crc byte =
    let f : ℕ → ℕ = low_round poly in
    let h : ℕ = crc / 256 in
    let l : ℕ = crc % 256 in
    bit_xor h (rounds 8 f (bit_xor l byte))
    ≡⟨ ap (λ (x : ℕ). bit_xor x (rounds 8 f (bit_xor l byte))) (sym (low_rounds-shift poly 8 h)) ⟩
      bit_xor (rounds 8 f (h * 256)) (rounds 8 f (bit_xor l byte))
    ≡⟨ sym (rounds-bit_xor f (low_round-bit_xor poly) 8 (h * 256) (bit_xor l byte)) ⟩
      rounds 8 f (bit_xor (h * 256) (bit_xor l byte))
    ≡⟨ ap (rounds 8 f)
        (sym (bit_xor_assoc (h * 256) l byte) ∙ ap (λ (x : ℕ). bit_xor x byte) (sym (parts crc))) ⟩
      rounds 8 f (bit_xor crc byte) ∎

high_round_lt : (poly c : ℕ) → poly < 0x1_0000 → high_round poly c < 0x1_0000
high_round_lt poly c h =
    ground (arith, bit_xor_lt 16 (c * 2 % 0x1_0000) poly (omega arith) (omega arith))

pub high_rounds_lt :
    (poly n c : ℕ) → poly < 0x1_0000 → c < 0x1_0000 → rounds n (high_round poly) c < 0x1_0000
high_rounds_lt poly zero c h fits = fits
high_rounds_lt poly (suc n) c h fits =
    high_rounds_lt poly n (high_round poly c) h (high_round_lt poly c h)

-- The part of a checksum that the table does not serve moves up, and the rest is cut off.
low_part :
    (crc t : ℕ)
    → t < 0x1_0000
    → bit_and (bit_xor (shift_left crc 8) t) 0xffff ≡ bit_xor (crc % 256 * 256) t
low_part crc t fits =
    let moved : below 16 (shift_left crc 8) ≡ crc % 256 * 256 =
      below_sixteen (shift_left crc 8) ∙ omega arith in
    let whole : below 16 t ≡ t = below_sixteen t ∙ omega arith in
    bit_and-ones 16 (bit_xor (shift_left crc 8) t)
    ∙ below-bit_xor 16 (shift_left crc 8) t
    ∙ rw (moved, whole) refl

pub high_next :
    (poly crc byte : ℕ)
    → poly < 0x1_0000
    → crc < 0x1_0000
    → byte < 256
    → bit_and
        (bit_xor (shift_left crc 8) (rounds 8 (high_round poly) (bit_xor (crc / 256) byte * 256)))
        0xffff
      ≡ rounds 8 (high_round poly) (bit_xor crc (byte * 256))
high_next poly crc byte hp hc hb =
    let f : ℕ → ℕ = high_round poly in
    let h : ℕ = crc / 256 in
    let l : ℕ = crc % 256 in
    let x : ℕ = bit_xor h byte * 256 in
    let small : x < 0x1_0000 = omega (arith, bit_xor_lt 8 h byte (omega arith) hb) in
    let joined : bit_xor l x ≡ bit_xor crc (byte * 256) =
      ap (bit_xor l) (sym (bit_xor-shift 8 h byte))
      ∙ sym (bit_xor_assoc l (h * 256) (byte * 256))
      ∙ ap (λ (y : ℕ). bit_xor y (byte * 256)) (bit_xor_comm l (h * 256) ∙ sym (parts crc)) in
    bit_and (bit_xor (shift_left crc 8) (rounds 8 f x)) 0xffff
    ≡⟨ low_part crc (rounds 8 f x) (high_rounds_lt poly 8 x hp small) ⟩
      bit_xor (l * 256) (rounds 8 f x)
    ≡⟨ ap (λ (y : ℕ). bit_xor y (rounds 8 f x)) (sym (high_rounds-shift poly 8 l (omega arith))) ⟩
      bit_xor (rounds 8 f l) (rounds 8 f x)
    ≡⟨ sym (rounds-bit_xor f (high_round-bit_xor poly) 8 l x) ⟩ rounds 8 f (bit_xor l x)
    ≡⟨ ap (rounds 8 f) joined ⟩ rounds 8 f (bit_xor crc (byte * 256)) ∎
