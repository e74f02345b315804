-- ===== src/Convert/Tests.antt =====
-- Runs of the conversions, and their theorems at concrete inputs.
use ckcore.Base.{
  All, ℕ, ◌+◌, ◌/◌, ◌%◌, ◌^◌, ◌≤◌, ◌<◌, ◌≡◌, refl, List, [], ◌∷◌, returns, length, arith,
}
use ckcore.Convert.{digits_loop, ui64_to_str2, byte, be_to_le32, be_to_le16, Tm, tm_to_dostime}
use ckcore.Convert.Bytes.{be_to_le-twice, tm_to_dostime-fields}
use ckcore.Convert.Decimal.{IsDigit, read_decimal, ui64_to_str2-read_decimal}

prints_4096 : ui64_to_str2 4096 ≡ returns (b'4' ∷ b'0' ∷ b'9' ∷ b'6' ∷ [])
unfolding ui64_to_str2 digits_loop
prints_4096 = refl

ui64_to_str2-read_decimal_example :
    (text : List ℕ) × (ui64_to_str2 4096 ≡ returns text)
    × All IsDigit text
    × (read_decimal 0 text ≡ 4096)
    × (length text ≤ 20)
    × (0 < length text)
ui64_to_str2-read_decimal_example = ui64_to_str2-read_decimal 4096 (omega arith)

swaps : be_to_le32 0x01020304 ≡ 0x04030201
unfolding be_to_le32
swaps = refl

be_to_le-twice_run :
    (byte 0 (be_to_le32 0x01020304) ≡ byte 3 0x01020304)
    × (byte 1 (be_to_le32 0x01020304) ≡ byte 2 0x01020304)
    × (be_to_le32 (be_to_le32 0x01020304) ≡ 0x01020304)
    × (be_to_le16 (be_to_le16 0x0102) ≡ 0x0102)
be_to_le-twice_run = be_to_le-twice 0x01020304 0x0102 (omega arith) (omega arith)

-- 1999-12-31, 23:59:58.
abbrev eve : Tm
eve = record { tm_sec = 58; tm_min = 59; tm_hour = 23; tm_mday = 31; tm_mon = 11; tm_year = 99 }

tm_to_dostime-fields_example :
    ((tm_to_dostime eve).0 % 2 ^ 5 ≡ 31)
    × ((tm_to_dostime eve).0 / 2 ^ 5 % 2 ^ 4 ≡ 12)
    × ((tm_to_dostime eve).0 / 2 ^ 9 + 80 ≡ 99)
    × ((tm_to_dostime eve).1 % 2 ^ 5 ≡ 29)
    × ((tm_to_dostime eve).1 / 2 ^ 5 % 2 ^ 6 ≡ 59)
    × ((tm_to_dostime eve).1 / 2 ^ 11 ≡ 23)
tm_to_dostime-fields_example =
    tm_to_dostime-fields eve (omega arith) (omega arith) (omega arith) (omega arith) (omega arith)
      (omega arith) (omega arith)
