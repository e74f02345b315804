-- ===== src/Crc/Division.antt =====
-- `CrcStream` of src/crcstream.cc computes what the division of polynomials leaves: its table, and
-- the loop of `write` over it, agree with the description of Crc/Rounds.
use Prim.Native.Nat.{bit_and, bit_xor}
use ckcore.Base.{
  ℕ, zero, suc, ◌+◌, ◌*◌, ◌/◌, ◌%◌, ◌^◌, ◌<◌, ◌≡◌, refl, ap, ◌∙◌, true, false, some, List, [], ◌∷◌,
  returns, length, arith,
}
use ckcore.Base.Digits.{bit_xor_lt}
use ckcore.Crc.Bounds.{are_bytes}
use ckcore.Crc.Rounds.{low_round, high_round, rounds}
use ckcore.Crc.Shifts.{low_byte, low_next, high_next, high_rounds_lt}
use ckcore.Crc.{
  CrcType, crc_16, crc_32, crc_ccitt, CrcStream, fill_table, build, create, table_at, entry, divide,
  reflect, reflect_loop, next_checksum, write_bytes, write,
}

-- The checksum behind one byte.
abbrev pub divided : CrcType → ℕ → ℕ → ℕ
divided crc_16 crc byte = rounds 8 (low_round 0xa001) (bit_xor crc byte)
divided crc_32 crc byte = rounds 8 (low_round 0xedb8_8320) (bit_xor crc byte)
divided crc_ccitt crc byte = rounds 8 (high_round 0x1021) (bit_xor crc (byte * 256))

abbrev pub divided_all : CrcType → ℕ → List ℕ → ℕ
divided_all t crc [] = crc
divided_all t crc (byte ∷ bytes) = divided_all t (divided t crc byte) bytes

table_16 : (create crc_16).table ≡ fill_table 256 0 (rounds 8 (low_round 0xa001))
unfolding create build fill_table entry divide reflect reflect_loop
table_16 = refl

table_32 : (create crc_32).table ≡ fill_table 256 0 (rounds 8 (low_round 0xedb8_8320))
unfolding create build fill_table entry divide reflect reflect_loop
table_32 = refl

table_ccitt :
    (create crc_ccitt).table ≡ fill_table 256 0 (λ i. rounds 8 (high_round 0x1021) (i * 256))
unfolding create build fill_table entry divide reflect reflect_loop
table_ccitt = refl

table_at-fill_table :
    (n i : ℕ) (f : ℕ → ℕ) (j : ℕ) → j < n → table_at (fill_table n i f) j ≡ returns (f (i + j))
unfolding fill_table table_at
table_at-fill_table zero i f j h = absurd (omega arith)
table_at-fill_table (suc n) i f zero h = let same : i + 0 ≡ i = omega arith in rw same refl
table_at-fill_table (suc n) i f (suc j) h =
    let same : i + suc j ≡ i + 1 + j = omega arith in
    rw same (table_at-fill_table n (i + 1) f j (omega arith))

-- The entry at `j` of a table of 256 entries.
entry_at : (f : ℕ → ℕ) (j : ℕ) → j < 256 → table_at (fill_table 256 0 f) j ≡ returns (f j)
entry_at f j h =
    let same : 0 + j ≡ j = omega arith in
    table_at-fill_table 256 0 f j h ∙ ap (λ (k : ℕ). returns (f k)) same

-- The stream of a type while its checksum is `crc`.
abbrev pub at_checksum : CrcType → ℕ → CrcStream
at_checksum t crc = record (create t) { checksum = crc }

module _ (s : CrcStream) (byte poly : ℕ) (small : byte < 256) where
  reflected-next :
      s.is_reflected ≡ true
      → s.table ≡ fill_table 256 0 (rounds 8 (low_round poly))
      → next_checksum s byte ≡ returns (rounds 8 (low_round poly) (bit_xor s.checksum byte))
  unfolding next_checksum
  reflected-next flag filled =
      let place : ℕ = bit_xor (s.checksum % 256) byte in
      let found =
        entry_at (rounds 8 (low_round poly)) place
          (bit_xor_lt 8 (s.checksum % 256) byte (omega arith) small) in
      simp (flag, filled, low_byte s.checksum, found) (ap returns (low_next poly s.checksum byte))

  plain-next :
      s.is_reflected ≡ false
      → s.order ≡ 16
      → s.mask ≡ 0xffff
      → s.table ≡ fill_table 256 0 (λ i. rounds 8 (high_round poly) (i * 256))
      → poly < 0x1_0000
      → s.checksum < 0x1_0000
      → next_checksum s byte
        ≡ returns (rounds 8 (high_round poly) (bit_xor s.checksum (byte * 256)))
  unfolding next_checksum
  plain-next flag order mask filled hp fits =
      let top : bit_and (s.checksum / 256) 0xff ≡ s.checksum / 256 =
        low_byte (s.checksum / 256) ∙ omega arith in
      let place : ℕ = bit_xor (s.checksum / 256) byte in
      let found =
        entry_at (λ i. rounds 8 (high_round poly) (i * 256)) place
          (bit_xor_lt 8 (s.checksum / 256) byte (omega arith) small) in
      simp (flag, order, mask, filled, top, found)
        (ap returns (high_next poly s.checksum byte hp fits small))

-- What a checksum of 16 bits needs, to be moved up in 32.
abbrev pub Fits : CrcType → ℕ → Type 0
Fits crc_16 crc = Unit
Fits crc_32 crc = Unit
Fits crc_ccitt crc = crc < 0x1_0000

pub divided-Fits :
    (t : CrcType) (crc byte : ℕ) → byte < 256 → Fits t crc → Fits t (divided t crc byte)
divided-Fits crc_16 crc byte small h = tt
divided-Fits crc_32 crc byte small h = tt
divided-Fits crc_ccitt crc byte small h =
    high_rounds_lt 0x1021 8 (bit_xor crc (byte * 256)) (omega arith)
      (bit_xor_lt 16 crc (byte * 256) h (omega arith))

next_checksum-divided :
    (t : CrcType) (crc byte : ℕ)
    → byte < 256
    → Fits t crc
    → next_checksum (at_checksum t crc) byte ≡ returns (divided t crc byte)
unfolding create build
next_checksum-divided crc_16 crc byte small h =
    reflected-next (at_checksum crc_16 crc) byte 0xa001 small refl table_16
next_checksum-divided crc_32 crc byte small h =
    reflected-next (at_checksum crc_32 crc) byte 0xedb8_8320 small refl table_32
next_checksum-divided crc_ccitt crc byte small h =
    plain-next (at_checksum crc_ccitt crc) byte 0x1021 small refl refl refl table_ccitt
      (omega arith) h

pub write_bytes-divided :
    (t : CrcType) (crc : ℕ) (bytes : List ℕ)
    → are_bytes bytes ≡ true
    → Fits t crc
    → write_bytes (at_checksum t crc) bytes ≡ returns (at_checksum t (divided_all t crc bytes))
unfolding write_bytes
write_bytes-divided t crc [] all h = refl
write_bytes-divided t crc (b ∷ bytes) all h =
    let small : b < 256 = ground (arith, all) in
    let rest : are_bytes bytes ≡ true = ground (arith, all) in
    rw (next_checksum-divided t crc b small h)
      (write_bytes-divided t (divided t crc b) bytes rest (divided-Fits t crc b small h))

pub in_order-Fits : (t : CrcType) (crc : ℕ) → crc < 2 ^ (create t).order → Fits t crc
unfolding create build
in_order-Fits crc_16 crc h = tt
in_order-Fits crc_32 crc h = tt
in_order-Fits crc_ccitt crc h = h

-- Of a stream as the constructor makes it, but for a checksum of any value that the width of its
-- type holds, a write of bytes below 256 returns their number, and leaves the checksum that division
-- by the polynomial of the type gives, one bit at a time and without a table, and all else as it was.
pub write-divided :
    (t : CrcType) (crc : ℕ) (bytes : List ℕ)
    → crc < 2 ^ (create t).order
    → are_bytes bytes ≡ true
    → write (at_checksum t crc) bytes
      ≡ returns (some (length bytes), at_checksum t (divided_all t crc bytes))
unfolding write
write-divided t crc bytes h all =
    rw (write_bytes-divided t crc bytes all (in_order-Fits t crc h)) refl
