-- ===== src/Crc.antt =====
-- `CrcStream` of src/crcstream.cc: a checksum by a table of 256 entries.
mod Rounds
mod Shifts
pub mod Division
pub mod Copied
pub mod Incremental
pub mod Bounds
mod Tests
use Prim.Native.Nat.{bit_and, bit_or, bit_xor}
use ckcore.Base.{
  ℕ, zero, suc, ◌+◌, ◌-◌, ◌*◌, ◌/◌, ◌%◌, ◌^◌, Bool, true, false, Option, none, some, List, [], ◌∷◌,
  Outcome, returns, fault, ◌>>=◌, ◌==◌, if◌then◌else◌, length,
}
use ckcore.Stream.{OutStream}

-- `CrcStream::CrcType`.
pub data CrcType : Type 0 where
  crc_16 crc_32 crc_ccitt : CrcType

pub record CrcStream : Type 0 where
  pub is_reflected : Bool
  pub order : ℕ
  pub mask : ℕ
  pub initial : ℕ
  pub final : ℕ
  pub checksum : ℕ
  pub table : List ℕ

-- `crc << n` and `crc & bit`, of a `tuint32`.
abbrev pub shift_left : ℕ → ℕ → ℕ
shift_left crc n = (crc * 2 ^ n) % 2 ^ 32

abbrev pub is_set : ℕ → ℕ → Bool
is_set crc bit = if bit_and crc bit == 0 then false else true

-- The loop of `reflect`, whose bit `i` moves down while `j` moves up: one round for each of the bits.
unfoldable pub reflect_loop : ℕ → ℕ → ℕ → ℕ → ℕ → ℕ
reflect_loop zero crc i j result = result
reflect_loop (suc rounds) crc i j result =
    reflect_loop rounds crc (i / 2) (shift_left j 1)
      (if is_set crc i then bit_or result j else result)

unfoldable pub reflect : ℕ → ℕ → ℕ
reflect crc bits = reflect_loop bits crc (2 ^ (bits - 1)) 1 0

-- The inner loop of the constructor.
unfoldable pub divide : ℕ → ℕ → ℕ → ℕ → ℕ
divide zero high poly crc = crc
divide (suc rounds) high poly crc =
    divide rounds high poly
      (if is_set crc high then bit_xor (shift_left crc 1) poly else shift_left crc 1)

-- `high`, `poly` and the fields as the constructor has them when it fills the table.
unfoldable pub entry : Bool → ℕ → ℕ → ℕ → ℕ → ℕ → ℕ
entry is_reflected order mask high poly i =
    let crc =
      divide 8 high poly (shift_left (if is_reflected then reflect i 8 else i) (order - 8)) in
    bit_and (if is_reflected then reflect crc order else crc) mask

unfoldable pub fill_table : ℕ → ℕ → (ℕ → ℕ) → List ℕ
fill_table zero i f = []
fill_table (suc left) i f = f i ∷ fill_table left (i + 1) f

unfoldable pub build : Bool → ℕ → ℕ → ℕ → ℕ → CrcStream
build is_reflected order poly initial final =
    let high : ℕ = 2 ^ (order - 1) in
    let mask : ℕ = bit_or (shift_left (high - 1) 1) 1 in
    record {
      is_reflected = is_reflected;
      order = order;
      mask = mask;
      initial = initial;
      final = final;
      checksum = initial;
      table = fill_table 256 0 (entry is_reflected order mask high poly);
    }

unfoldable pub create : CrcType → CrcStream
create crc_16 = build true 16 0x8005 0xffff 0xffff
create crc_32 = build true 32 0x04c1_1db7 0xffff_ffff 0xffff_ffff
create crc_ccitt = build false 16 0x1021 0x0000 0x0000

unfoldable pub reset : CrcStream → CrcStream
reset s = record s { checksum = s.initial }

unfoldable pub checksum : CrcStream → ℕ
checksum s = bit_xor s.checksum s.final

-- `table_[i]`.
unfoldable pub table_at : List ℕ → ℕ → Outcome ℕ
table_at [] i = fault
table_at (x ∷ xs) zero = returns x
table_at (x ∷ xs) (suc i) = table_at xs i

-- The checksum after one byte.
unfoldable pub next_checksum : CrcStream → ℕ → Outcome ℕ
next_checksum s byte =
    if s.is_reflected
    then (do
      t ← table_at s.table (bit_xor (bit_and s.checksum 0xff) byte)
      returns (bit_xor (s.checksum / 2 ^ 8) t))
    else (do
      t ← table_at s.table (bit_xor (bit_and (s.checksum / 2 ^ (s.order - 8)) 0xff) byte)
      returns (bit_and (bit_xor (shift_left s.checksum 8) t) s.mask))

-- The loop of `write`.
unfoldable pub write_bytes : CrcStream → List ℕ → Outcome CrcStream
write_bytes s [] = returns s
write_bytes s (byte ∷ bytes) = do
  crc ← next_checksum s byte
  write_bytes (record s { checksum = crc }) bytes

unfoldable pub write : CrcStream → List ℕ → Outcome (Option ℕ × CrcStream)
write s bytes = do s' ← write_bytes s bytes; returns (some (length bytes), s')

-- The class as an output stream.
unfoldable pub crc_stream : OutStream CrcStream
crc_stream = record { write = write }
