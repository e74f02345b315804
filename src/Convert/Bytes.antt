-- ===== src/Convert/Bytes.antt =====
-- The byte order and the DOS times of src/convert.cc.
use Prim.Native.Nat.{bit_or}
use ckcore.Base.{ℕ, ◌+◌, ◌-◌, ◌*◌, ◌/◌, ◌%◌, ◌^◌, ◌≤◌, ◌<◌, ◌≡◌, ◌∙◌, arith}
use ckcore.Base.Bits.{bit_or-above, bit_or-below}
use ckcore.Convert.{byte, be_to_le32, be_to_le16, Tm, tm_to_dostime}

be_to_le16_sum : (v : ℕ) → be_to_le16 v ≡ byte 1 v + byte 0 v * 2 ^ 8
unfolding be_to_le16
be_to_le16_sum v = bit_or-below 8 (byte 1 v) (byte 0 v) (omega arith)

or_bytes :
    (a b c d : ℕ)
    → b < 2 ^ 8
    → c < 2 ^ 8
    → d < 2 ^ 8
    → bit_or (bit_or (bit_or (a * 2 ^ 24) (b * 2 ^ 16)) (c * 2 ^ 8)) d
      ≡ a * 2 ^ 24 + b * 2 ^ 16 + c * 2 ^ 8 + d
or_bytes a b c d hb hc hd =
    let two = bit_or-below 24 (b * 2 ^ 16) a (omega arith) in
    let join : b * 2 ^ 16 + a * 2 ^ 24 ≡ (b + a * 2 ^ 8) * 2 ^ 16 = omega arith in
    let three = bit_or-below 16 (c * 2 ^ 8) (b + a * 2 ^ 8) (omega arith) in
    let join' : c * 2 ^ 8 + (b + a * 2 ^ 8) * 2 ^ 16 ≡ (c + (b + a * 2 ^ 8) * 2 ^ 8) * 2 ^ 8 =
      omega arith in
    let four = bit_or-below 8 d (c + (b + a * 2 ^ 8) * 2 ^ 8) hd in
    rw (two, join, three, join', four) (omega arith)

be_to_le32_sum :
    (v : ℕ) → be_to_le32 v ≡ byte 0 v * 2 ^ 24 + byte 1 v * 2 ^ 16 + byte 2 v * 2 ^ 8 + byte 3 v
unfolding be_to_le32
be_to_le32_sum v =
    or_bytes (byte 0 v) (byte 1 v) (byte 2 v) (byte 3 v) (omega arith) (omega arith) (omega arith)

-- `be_to_le32` reverses the four bytes of a number of 32 bits, and `be_to_le16` the two of one of 16
-- bits. Done twice, each gives the number back.
pub be_to_le-twice :
    (v w : ℕ)
    → v < 2 ^ 32
    → w < 2 ^ 16
    → (byte 0 (be_to_le32 v) ≡ byte 3 v)
      × (byte 1 (be_to_le32 v) ≡ byte 2 v)
      × (be_to_le32 (be_to_le32 v) ≡ v)
      × (be_to_le16 (be_to_le16 w) ≡ w)
be_to_le-twice v w hv hw = rw (be_to_le32_sum v) (
  omega arith,
  omega arith,
  be_to_le32_sum _ ∙ omega arith,
  rw (be_to_le16_sum w) (be_to_le16_sum _ ∙ omega arith),
)

-- Three numbers that fill a word of 16 bits from below, with `k` bits for the first two.
packed :
    (k x y z a b c : ℕ)
    → x % 2 ^ 16 ≡ a
    → y % 2 ^ 16 ≡ b
    → z % 2 ^ 16 ≡ c
    → a < 2 ^ 5
    → a + b * 2 ^ 5 < 2 ^ 16
    → a + b * 2 ^ 5 < 2 ^ k
    → a + b * 2 ^ 5 + c * 2 ^ k < 2 ^ 16
    → bit_or (bit_or (x % 2 ^ 16) (y % 2 ^ 16 * 2 ^ 5) % 2 ^ 16) (z % 2 ^ 16 * 2 ^ k) % 2 ^ 16
      ≡ a + b * 2 ^ 5 + c * 2 ^ k
packed k x y z a b c ex ey ez few word below all =
    let same : (a + b * 2 ^ 5) % 2 ^ 16 ≡ a + b * 2 ^ 5 = omega arith in
    rw (ex, ey, ez, bit_or-above 5 a b few, same, bit_or-above k (a + b * 2 ^ 5) c below)
      (omega arith)

-- A time from 1980 to 2107 whose fields are in range can be read back from its DOS date and time, but
-- for the last bit of its seconds.
pub tm_to_dostime-fields :
    (t : Tm)
    → t.tm_sec < 64
    → t.tm_min < 60
    → t.tm_hour < 24
    → t.tm_mday < 32
    → t.tm_mon < 12
    → 80 ≤ t.tm_year
    → t.tm_year < 208
    → ((tm_to_dostime t).0 % 2 ^ 5 ≡ t.tm_mday)
      × ((tm_to_dostime t).0 / 2 ^ 5 % 2 ^ 4 ≡ t.tm_mon + 1)
      × ((tm_to_dostime t).0 / 2 ^ 9 + 80 ≡ t.tm_year)
      × ((tm_to_dostime t).1 % 2 ^ 5 ≡ t.tm_sec / 2)
      × ((tm_to_dostime t).1 / 2 ^ 5 % 2 ^ 6 ≡ t.tm_min)
      × ((tm_to_dostime t).1 / 2 ^ 11 ≡ t.tm_hour)
unfolding tm_to_dostime
tm_to_dostime-fields t sec min hour mday mon year last =
    let date =
      packed 9 t.tm_mday (t.tm_mon + 1) (t.tm_year + 2 ^ 16 - 80) t.tm_mday (t.tm_mon + 1)
        (t.tm_year - 80) (omega arith) (omega arith) (omega arith) mday (omega arith) (omega arith)
        (omega arith) in
    let time =
      packed 11 (t.tm_sec / 2) t.tm_min t.tm_hour (t.tm_sec / 2) t.tm_min t.tm_hour (omega arith)
        (omega arith) (omega arith) (omega arith) (omega arith) (omega arith) (omega arith) in
    rw (date, time) (omega arith, omega arith, omega arith, omega arith, omega arith, omega arith)
