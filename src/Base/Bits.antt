-- ===== src/Base/Bits.antt =====
-- The bits of a number below and above a place do not meet in `|`.
use Prim.Native.Nat.{
  ℕ, zero, suc, ◌+◌, ◌*◌, ◌^◌, ◌/◌, ◌%◌, ◌≤◌, ◌<◌, max, digits, bit_or, bit_or-bitwise,
}
use mathlib.Core.Path.{◌≡◌, refl, sym}
use native.Mathlib.Nat.{pow-suc, mul_assoc}
use native.Mathlib.Omega.{arith}
use ckcore.Base.Digits.{span}

-- `n` shifted to the left by `k` places, by doubling.
abbrev shifted : ℕ → ℕ → ℕ
shifted zero n = n
shifted (suc k) n = shifted k n + shifted k n

max_zero : (n : ℕ) → max n 0 ≡ n
max_zero n = omega arith

or_above :
    (n k a b : ℕ) → a ≤ n → a < span k → digits (λ y. y) max n a (shifted k b) ≡ a + shifted k b
or_above zero k a b f h = omega arith
or_above (suc n) k zero b f h = omega arith
or_above (suc n) zero (suc a) b f h = absurd (omega arith)
or_above (suc n) (suc k) (suc a) b f h =
    let half : (shifted k b + shifted k b) / 2 ≡ shifted k b = omega arith in
    let even : (shifted k b + shifted k b) % 2 ≡ 0 = omega arith in
    rw (half, even) (omega (arith, or_above n k (suc a / 2) b (omega arith) (omega arith)))

or_below :
    (n k x a b : ℕ) → x ≤ n → x ≡ shifted k b → a < span k → digits (λ y. y) max n x a ≡ a + x
or_below zero k x a b f e h = omega arith
or_below (suc n) k zero a b f e h = omega arith
or_below (suc n) zero (suc x) a b f e h =
    let none : a ≡ 0 = omega arith in
    rw none
      (omega (arith, or_below n zero (suc x / 2) 0 (suc x / 2) (omega arith) refl (omega arith)))
or_below (suc n) (suc k) (suc x) a b f e h =
    omega
      (arith, e, or_below n k (suc x / 2) (a / 2) b (omega arith) (omega (arith, e)) (omega arith))

span_lem : (k : ℕ) → span k ≡ 2 ^ k
span_lem zero = refl
span_lem (suc k) = rw (pow-suc 2 k, span_lem k) (omega arith)

shifted_lem : (k b : ℕ) → shifted k b ≡ b * 2 ^ k
shifted_lem zero b = omega arith
shifted_lem (suc k) b = rw (pow-suc 2 k, shifted_lem k b, sym (mul_assoc b (2 ^ k) 2)) (omega arith)

-- `a | (b << k)` for an `a` of at most `k` bits, and the same the other way round.
pub bit_or-above : (k a b : ℕ) → a < 2 ^ k → bit_or a (b * 2 ^ k) ≡ a + b * 2 ^ k
bit_or-above k a b h =
    let fits : a < span k = rw (span_lem k) h in
    rw (sym (shifted_lem k b)) (simp bit_or-bitwise (or_above a k a b (omega arith) fits))

pub bit_or-below : (k a b : ℕ) → a < 2 ^ k → bit_or (b * 2 ^ k) a ≡ a + b * 2 ^ k
bit_or-below k a b h =
    let fits : a < span k = rw (span_lem k) h in
    rw (sym (shifted_lem k b))
      (simp bit_or-bitwise (or_below (shifted k b) k (shifted k b) a b (omega arith) refl fits))
