-- ===== src/Crc/Bounds.antt =====
-- `CrcStream::write` stays within its table.
use Prim.Native.Nat.{digits, bit_and, bit_xor, bit_and-bitwise}
use ckcore.Base.{
  ℕ, zero, suc, ◌+◌, ◌-◌, ◌/◌, ◌^◌, ◌≤◌, ◌<◌, ◌≡◌, refl, ap, min, Bool, true, ◌&&◌, some, List, [],
  ◌∷◌, returns, ltb, length, arith, Bool-cases, inl, inr,
}
use ckcore.Base.Digits.{bit_xor_lt}
use ckcore.Crc.{
  CrcType, crc_16, crc_32, crc_ccitt, CrcStream, shift_left, fill_table, build, create, table_at,
  next_checksum, write_bytes, write,
}

and_fits : (n a b : ℕ) → digits (λ y. 0) min n a b ≤ b
and_fits zero a b = omega arith
and_fits (suc n) zero b = omega arith
and_fits (suc n) (suc a) b = omega (arith, and_fits n (suc a / 2) (b / 2))

bit_and_le : (a b : ℕ) → bit_and a b ≤ b
bit_and_le a b = simp bit_and-bitwise (and_fits a a b)

-- The place in the table that a byte leads to.
place_lt : (crc byte : ℕ) → byte < 256 → bit_xor (bit_and crc 0xff) byte < 256
place_lt crc byte h = bit_xor_lt 8 (bit_and crc 0xff) byte (omega (arith, bit_and_le crc 0xff)) h

table_at-returns :
    (table : List ℕ) (i : ℕ) → i < length table → (t : ℕ) × (table_at table i ≡ returns t)
unfolding table_at
table_at-returns [] i h = absurd (omega arith)
table_at-returns (x ∷ xs) zero h = (x, refl)
table_at-returns (x ∷ xs) (suc i) h = table_at-returns xs i (omega arith)

next_checksum-returns :
    (s : CrcStream) (byte : ℕ)
    → length s.table ≡ 256
    → byte < 256
    → (crc : ℕ) × (next_checksum s byte ≡ returns crc)
unfolding next_checksum
next_checksum-returns s byte size small = elim (Bool-cases s.is_reflected) [
  | inl e ↦
      let low = place_lt s.checksum byte small in
      let (t, found) =
        table_at-returns s.table (bit_xor (bit_and s.checksum 0xff) byte)
          (omega (arith, low, size)) in
      (bit_xor (s.checksum / 2 ^ 8) t, simp (e, found) refl)
  | inr e ↦
      let top : ℕ = s.checksum / 2 ^ (s.order - 8) in
      let low = place_lt top byte small in
      let (t, found) =
        table_at-returns s.table (bit_xor (bit_and top 0xff) byte) (omega (arith, low, size)) in
      (bit_and (bit_xor (shift_left s.checksum 8) t) s.mask, simp (e, found) refl)
]

length-fill_table : (n i : ℕ) (f : ℕ → ℕ) → length (fill_table n i f) ≡ n
unfolding fill_table
length-fill_table zero i f = refl
length-fill_table (suc n) i f = ap suc (length-fill_table n (i + 1) f)

-- Every element is a byte.
abbrev pub are_bytes : List ℕ → Bool
are_bytes [] = true
are_bytes (b ∷ bytes) = ltb b 256 && are_bytes bytes

write_bytes-returns :
    (s : CrcStream) (bytes : List ℕ)
    → length s.table ≡ 256
    → are_bytes bytes ≡ true
    → (s' : CrcStream) × (write_bytes s bytes ≡ returns s') × (s'.table ≡ s.table)
unfolding write_bytes
write_bytes-returns s [] size all = (s, refl, refl)
write_bytes-returns s (b ∷ bytes) size all =
    let (crc, next) = next_checksum-returns s b size (ground (arith, all)) in
    let (s', run, same) =
      write_bytes-returns (record s { checksum = crc }) bytes size (ground (arith, all)) in
    (s', rw next run, same)

create-length : (t : CrcType) → length (create t).table ≡ 256
unfolding create build
create-length crc_16 = length-fill_table 256 0 _
create-length crc_32 = length-fill_table 256 0 _
create-length crc_ccitt = length-fill_table 256 0 _

-- A stream with a table of 256 entries takes every write of bytes below 256: it stays within the
-- table, returns the number of bytes and keeps the table. The constructor makes such a table for
-- every type of checksum.
pub write-returns :
    (s : CrcStream) (bytes : List ℕ)
    → length s.table ≡ 256
    → are_bytes bytes ≡ true
    → (s' : CrcStream) × (write s bytes ≡ returns (some (length bytes), s'))
      × (s'.table ≡ s.table)
      × ((t : CrcType) → length (create t).table ≡ 256)
unfolding write
write-returns s bytes size all =
    let (s', run, same) = write_bytes-returns s bytes size all in
    (s', rw run refl, same, create-length)
