-- ===== src/Base/Digits.antt =====
-- The laws of `^` on binary digits, at every width, and of `&` with a mask.
use Prim.Native.Nat.{
  ℕ, zero, suc, ◌+◌, ◌-◌, ◌*◌, ◌/◌, ◌%◌, ◌≤◌, ◌<◌, min, differ, digits, bit_and, bit_xor,
  bit_and-bitwise, bit_xor-bitwise,
}
use mathlib.Core.Path.{◌≡◌, refl, sym, ◌∙◌, ◌≡⟨◌⟩◌, ◌∎}
use native.Mathlib.Omega.{arith}

-- `k` more than `n`.
abbrev more : ℕ → ℕ → ℕ
more zero n = n
more (suc k) n = suc (more k n)

more_lem : (k n : ℕ) → more k n ≡ k + n
more_lem zero n = omega arith
more_lem (suc k) n = omega (arith, more_lem k n)

-- A count of digits that is larger than it needs to be changes nothing.
module _ (past : ℕ → ℕ) (pair : ℕ → ℕ → ℕ) where
  one_spare : (n x y : ℕ) → x ≤ n → digits past pair (suc n) x y ≡ digits past pair n x y
  one_spare zero x y short = let none : x ≡ 0 = omega arith in rw none refl
  one_spare (suc n) zero y short = refl
  one_spare (suc n) (suc x) y short =
      let rest = one_spare n (suc x / 2) (y / 2) (omega arith) in rw rest refl

  spare : (k n x y : ℕ) → x ≤ n → digits past pair (more k n) x y ≡ digits past pair n x y
  spare zero n x y short = refl
  spare (suc k) n x y short =
      one_spare (more k n) x y (omega (arith, more_lem k n)) ∙ spare k n x y short

  -- The lowest digit, and the others with a count of their own.
  lowest :
      (x y : ℕ)
      → digits past pair (suc x) (suc x) y
        ≡ digits past pair (suc x / 2) (suc x / 2) (y / 2) * 2 + pair (suc x % 2) (y % 2)
  lowest x y =
      let half : ℕ = suc x / 2 in
      let all : more (x - half) half ≡ x = more_lem (x - half) half ∙ omega arith in
      let fewer : digits past pair x half (y / 2) ≡ digits past pair half half (y / 2) =
        rw all at (spare (x - half) half half (y / 2) (omega arith)) in
      omega (arith, fewer)

differ_lem : (x y : ℕ) → x < 2 → y < 2 → differ x y ≡ (x + y) % 2
differ_lem zero y p q = omega arith
differ_lem (suc zero) zero p q = omega arith
differ_lem (suc zero) (suc zero) p q = omega arith
differ_lem (suc zero) (suc (suc y)) p q = absurd (omega arith)
differ_lem (suc (suc x)) y p q = absurd (omega arith)

pub zero-bit_xor : (b : ℕ) → bit_xor 0 b ≡ b
zero-bit_xor b = bit_xor-bitwise 0 b

-- `a ^ b` by its lowest digit and the rest.
pub bit_xor_step : (a b : ℕ) → bit_xor a b ≡ bit_xor (a / 2) (b / 2) * 2 + (a + b) % 2
bit_xor_step zero b = omega (arith, zero-bit_xor b, zero-bit_xor (b / 2))
bit_xor_step (suc a) b =
    let digit = differ_lem (suc a % 2) (b % 2) (omega arith) (omega arith) in
    let same = bit_xor-bitwise (suc a / 2) (b / 2) in
    bit_xor-bitwise (suc a) b ∙ lowest (λ y. y) differ a b ∙ omega (arith, digit, same)

pub bit_xor-half : (a b : ℕ) → bit_xor a b / 2 ≡ bit_xor (a / 2) (b / 2)
bit_xor-half a b = omega (arith, bit_xor_step a b)

pub bit_xor-parity : (a b : ℕ) → bit_xor a b % 2 ≡ (a + b) % 2
bit_xor-parity a b = omega (arith, bit_xor_step a b)

-- The laws below go by induction on a bound of the numbers.
comm_below : (n a b : ℕ) → a ≤ n → b ≤ n → bit_xor a b ≡ bit_xor b a
comm_below zero a b p q =
    let a_zero : a ≡ 0 = omega arith in let b_zero : b ≡ 0 = omega arith in rw (a_zero, b_zero) refl
comm_below (suc n) a b p q = omega (
  arith,
  bit_xor_step a b,
  bit_xor_step b a,
  comm_below n (a / 2) (b / 2) (omega arith) (omega arith),
)

pub bit_xor_comm : (a b : ℕ) → bit_xor a b ≡ bit_xor b a
bit_xor_comm a b = comm_below (a + b) a b (omega arith) (omega arith)

assoc_below :
    (n a b c : ℕ) → a ≤ n → b ≤ n → c ≤ n → bit_xor (bit_xor a b) c ≡ bit_xor a (bit_xor b c)
assoc_below zero a b c p q r =
    let a_zero : a ≡ 0 = omega arith in
    rw (a_zero, zero-bit_xor b) (sym (zero-bit_xor (bit_xor b c)))
assoc_below (suc n) a b c p q r =
    let ih = assoc_below n (a / 2) (b / 2) (c / 2) (omega arith) (omega arith) (omega arith) in
    let left : bit_xor (bit_xor a b) c
        ≡ bit_xor (bit_xor (a / 2) (b / 2)) (c / 2) * 2 + (bit_xor a b + c) % 2 =
      rw (← bit_xor-half a b) (bit_xor_step (bit_xor a b) c) in
    let right : bit_xor a (bit_xor b c)
        ≡ bit_xor (a / 2) (bit_xor (b / 2) (c / 2)) * 2 + (a + bit_xor b c) % 2 =
      rw (← bit_xor-half b c) (bit_xor_step a (bit_xor b c)) in
    omega (arith, ih, left, right, bit_xor-parity a b, bit_xor-parity b c)

pub bit_xor_assoc : (a b c : ℕ) → bit_xor (bit_xor a b) c ≡ bit_xor a (bit_xor b c)
bit_xor_assoc a b c = assoc_below (a + b + c) a b c (omega arith) (omega arith) (omega arith)

self_below : (n a : ℕ) → a ≤ n → bit_xor a a ≡ 0
self_below zero a p = let a_zero : a ≡ 0 = omega arith in rw a_zero refl
self_below (suc n) a p = omega (arith, bit_xor_step a a, self_below n (a / 2) (omega arith))

pub bit_xor_self : (a : ℕ) → bit_xor a a ≡ 0
bit_xor_self a = self_below a a (omega arith)

pub bit_xor-zero : (a : ℕ) → bit_xor a 0 ≡ a
bit_xor-zero a = bit_xor_comm a 0 ∙ zero-bit_xor a

-- The middle two of four change places.
pub bit_xor_swap :
    (a b c d : ℕ) → bit_xor (bit_xor a b) (bit_xor c d) ≡ bit_xor (bit_xor a c) (bit_xor b d)
bit_xor_swap a b c d =
    bit_xor (bit_xor a b) (bit_xor c d)
    ≡⟨ bit_xor_assoc a b (bit_xor c d) ⟩ bit_xor a (bit_xor b (bit_xor c d))
    ≡⟨ (rw (sym (bit_xor_assoc b c d), bit_xor_comm b c, bit_xor_assoc c b d)) ⟩
      bit_xor a (bit_xor c (bit_xor b d))
    ≡⟨ sym (bit_xor_assoc a c (bit_xor b d)) ⟩ bit_xor (bit_xor a c) (bit_xor b d) ∎

-- A shift to the left keeps `^`.
pub bit_xor-double : (a b : ℕ) → bit_xor (a * 2) (b * 2) ≡ bit_xor a b * 2
bit_xor-double a b =
    let half : a * 2 / 2 ≡ a = omega arith in
    let half' : b * 2 / 2 ≡ b = omega arith in
    rw (bit_xor_step (a * 2) (b * 2), half, half') (omega arith)

-- 2 to the power `k`, by doubling.
abbrev pub span : ℕ → ℕ
span zero = 1
span (suc k) = span k + span k

pub span_pos : (k : ℕ) → 1 ≤ span k
span_pos zero = omega arith
span_pos (suc k) = omega (arith, span_pos k)

pub bit_xor_lt : (k a b : ℕ) → a < span k → b < span k → bit_xor a b < span k
bit_xor_lt zero a b ha hb = let a_zero : a ≡ 0 = omega arith in rw (a_zero, zero-bit_xor b) hb
bit_xor_lt (suc k) a b ha hb =
    omega (arith, bit_xor_step a b, bit_xor_lt k (a / 2) (b / 2) (omega arith) (omega arith))

-- The digits from the place `k` on, and those below it.
abbrev pub above : ℕ → ℕ → ℕ
above zero n = n
above (suc k) n = above k (n / 2)

abbrev pub below : ℕ → ℕ → ℕ
below zero n = 0
below (suc k) n = below k (n / 2) * 2 + n % 2

pub above-bit_xor : (k a b : ℕ) → above k (bit_xor a b) ≡ bit_xor (above k a) (above k b)
above-bit_xor zero a b = refl
above-bit_xor (suc k) a b = rw (bit_xor-half a b) (above-bit_xor k (a / 2) (b / 2))

pub below-bit_xor : (k a b : ℕ) → below k (bit_xor a b) ≡ bit_xor (below k a) (below k b)
below-bit_xor zero a b = refl
below-bit_xor (suc k) a b =
    let half : (below k (a / 2) * 2 + a % 2) / 2 ≡ below k (a / 2) = omega arith in
    let half' : (below k (b / 2) * 2 + b % 2) / 2 ≡ below k (b / 2) = omega arith in
    let next = below-bit_xor k (a / 2) (b / 2) in
    rw
      (
        bit_xor-half a b,
        next,
        bit_xor-parity a b,
        bit_xor_step (below k (a / 2) * 2 + a % 2) (below k (b / 2) * 2 + b % 2),
        half,
        half',
      )
      (omega arith)

-- Digits above and below a place do not meet.
pub bit_xor-parts : (k q r : ℕ) → r < span k → bit_xor (q * span k) r ≡ q * span k + r
bit_xor-parts zero q r fits =
    let none : r ≡ 0 = omega arith in rw none (bit_xor-zero (q * 1) ∙ omega arith)
bit_xor-parts (suc k) q r fits =
    let twice : q * (span k + span k) ≡ q * span k * 2 = grind arith in
    let half : q * span k * 2 / 2 ≡ q * span k = omega arith in
    rw (twice, bit_xor_step (q * span k * 2) r, half, bit_xor-parts k q (r / 2) (omega arith))
      (omega arith)

pub bit_xor-shift : (k a b : ℕ) → bit_xor (a * span k) (b * span k) ≡ bit_xor a b * span k
bit_xor-shift zero a b =
    let one : (n : ℕ) → n * 1 ≡ n = λ n. omega arith in rw (one a, one b, one (bit_xor a b)) refl
bit_xor-shift (suc k) a b =
    let twice : (n : ℕ) → n * (span k + span k) ≡ n * span k * 2 = λ n. grind arith in
    rw
      (
        twice a,
        twice b,
        twice (bit_xor a b),
        bit_xor-double (a * span k) (b * span k),
        bit_xor-shift k a b,
      )
      refl

-- `a & b` by its lowest digit and the rest.
and_lowest : (a b : ℕ) → bit_and a b ≡ min (a % 2) (b % 2) + 2 * bit_and (a / 2) (b / 2)
and_lowest zero b =
    let none = bit_and-bitwise 0 (b / 2) in bit_and-bitwise 0 b ∙ omega (arith, none)
and_lowest (suc a) b =
    let same = bit_and-bitwise (suc a / 2) (b / 2) in
    bit_and-bitwise (suc a) b ∙ lowest (λ y. 0) min a b ∙ omega (arith, same)

-- `k` ones.
abbrev pub ones : ℕ → ℕ
ones zero = 0
ones (suc k) = ones k * 2 + 1

and_none : (n a : ℕ) → a ≤ n → bit_and a 0 ≡ 0
and_none zero a p = let a_zero : a ≡ 0 = omega arith in rw a_zero (bit_and-bitwise 0 0)
and_none (suc n) a p = omega (arith, and_lowest a 0, and_none n (a / 2) (omega arith))

pub bit_and-ones : (k a : ℕ) → bit_and a (ones k) ≡ below k a
bit_and-ones zero a = and_none a a (omega arith)
bit_and-ones (suc k) a =
    let half : (ones k * 2 + 1) / 2 ≡ ones k = omega arith in
    rw (and_lowest a (ones k * 2 + 1), half, bit_and-ones k (a / 2)) (omega arith)

pub above_eight : (n : ℕ) → above 8 n ≡ n / 256
above_eight n = omega arith

pub below_eight : (n : ℕ) → below 8 n ≡ n % 256
below_eight n = omega arith

pub above_fifteen : (n : ℕ) → above 15 n ≡ n / 0x8000
above_fifteen n = omega arith

pub below_sixteen : (n : ℕ) → below 16 n ≡ n % 0x1_0000
below_sixteen n = omega arith
