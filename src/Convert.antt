-- ===== src/Convert.antt =====
-- src/convert.cc and include/ckcore/convert.hh: numbers as text, byte order, and DOS times.
pub mod Decimal
pub mod Bytes
mod Tests
use ckcore.Base.{
  ℕ, zero, suc, ◌+◌, ◌*◌, ◌/◌, ◌%◌, Bool, true, false, List, [], ◌∷◌, ◌++◌, Outcome, returns, stuck,
  ◌>>=◌, ◌-◌, ◌^◌, ltb, ◌==◌, if◌then◌else◌,
}
use mathlib.Core.List.{reverse}
use Prim.Native.Nat.{bit_or}

-- `b_to_str2`, up to the terminating 0.
unfoldable pub b_to_str2 : Bool → List ℕ
b_to_str2 value = if value then b'1' ∷ [] else b'0' ∷ []

-- The loop of `ui64_to_str2`, which stores the lowest digit first.
unfoldable pub digits_loop : ℕ → ℕ → List ℕ → Outcome (List ℕ)
digits_loop zero value out = stuck
digits_loop (suc fuel) value out =
    let out' = out ++ (b'0' + value % 10) ∷ [] in
    elim (value / 10 == 0) [ true ↦ returns out' | false ↦ digits_loop fuel (value / 10) out' ]

-- `ui64_to_str2`, up to the terminating 0. 20 rounds reach every 64-bit value.
unfoldable pub ui64_to_str2 : ℕ → Outcome (List ℕ)
ui64_to_str2 value =
    if value == 0
    then returns (b'0' ∷ [])
    else (do digits ← digits_loop 20 value []; returns (reverse digits))

-- `i64_to_str2`, of a number in two's complement, and `i32_to_str2`, which widens its number.
unfoldable pub i64_to_str2 : ℕ → Outcome (List ℕ)
i64_to_str2 value =
    if ltb value (2 ^ 63)
    then ui64_to_str2 value
    else (do digits ← ui64_to_str2 (2 ^ 64 - value); returns (b'-' ∷ digits))

unfoldable pub i32_to_str2 : ℕ → Outcome (List ℕ)
i32_to_str2 value = i64_to_str2 (if ltb value (2 ^ 31) then value else value + (2 ^ 64 - 2 ^ 32))

-- The byte at a place of a number, as a little-endian machine stores it.
abbrev pub byte : ℕ → ℕ → ℕ
byte place value = (value / 2 ^ (8 * place)) % 2 ^ 8

unfoldable pub be_to_le32 : ℕ → ℕ
be_to_le32 value =
    bit_or (bit_or (bit_or (byte 0 value * 2 ^ 24) (byte 1 value * 2 ^ 16)) (byte 2 value * 2 ^ 8))
      (byte 3 value)

unfoldable pub be_to_le16 : ℕ → ℕ
be_to_le16 value = bit_or (byte 0 value * 2 ^ 8) (byte 1 value)

-- `struct tm`, without the fields that are not read.
pub record Tm : Type 0 where
  pub tm_sec : ℕ
  pub tm_min : ℕ
  pub tm_hour : ℕ
  pub tm_mday : ℕ
  pub tm_mon : ℕ
  pub tm_year : ℕ

-- `tm_to_dostime`: the date and the time. Each `|=` leaves 16 bits.
unfoldable pub tm_to_dostime : Tm → ℕ × ℕ
tm_to_dostime t =
    let day = t.tm_mday % 2 ^ 16 in
    let month = bit_or day ((t.tm_mon + 1) % 2 ^ 16 * 2 ^ 5) % 2 ^ 16 in
    let seconds = t.tm_sec / 2 % 2 ^ 16 in
    let minutes = bit_or seconds (t.tm_min % 2 ^ 16 * 2 ^ 5) % 2 ^ 16 in
    (
      bit_or month ((t.tm_year + 2 ^ 16 - 80) % 2 ^ 16 * 2 ^ 9) % 2 ^ 16,
      bit_or minutes (t.tm_hour % 2 ^ 16 * 2 ^ 11) % 2 ^ 16,
    )
