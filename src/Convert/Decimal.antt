-- ===== src/Convert/Decimal.antt =====
-- `ui64_to_str2` prints a number in decimal: reading the text gives the number back.
use mathlib.Core.List.{reverse, reverse-cons}
use native.Mathlib.Nat.{pow-suc}
use ckcore.Base.{
  ℕ, zero, suc, ◌+◌, ◌-◌, ◌*◌, ◌/◌, ◌%◌, ◌^◌, ◌≤◌, ◌<◌, ◌≡◌, refl, ap, ◌∙◌, inl, inr, true, false,
  List, [], ◌∷◌, ◌++◌, append_assoc, returns, length, length-append, ◌==◌, Bool-cases, arith,
  eq_iff, pos→eq_zero, All, All-append,
}
use ckcore.Convert.{digits_loop, ui64_to_str2}

abbrev pub IsDigit : ℕ → Type 0
IsDigit c = (b'0' ≤ c) × (c ≤ b'9')

reverse-IsDigit : (cs : List ℕ) → All IsDigit cs → All IsDigit (reverse cs)
reverse-IsDigit [] d = tt
reverse-IsDigit (c ∷ cs) (d, ds) =
    rw (reverse-cons c cs)
      (All-append IsDigit (reverse cs) (c ∷ []) (reverse-IsDigit cs ds) (d, tt))

-- The number that a decimal text stands for, read from its highest digit on, behind `acc`.
abbrev pub read_decimal : ℕ → List ℕ → ℕ
read_decimal acc [] = acc
read_decimal acc (c ∷ cs) = read_decimal (acc * 10 + (c - b'0')) cs

-- The same number, of the digits from the lowest on.
abbrev low_first : List ℕ → ℕ
low_first [] = 0
low_first (c ∷ cs) = c - b'0' + 10 * low_first cs

read_decimal-snoc :
    (acc : ℕ) (cs : List ℕ) (c : ℕ)
    → read_decimal acc (cs ++ c ∷ []) ≡ read_decimal acc cs * 10 + (c - b'0')
read_decimal-snoc acc [] c = refl
read_decimal-snoc acc (d ∷ cs) c = read_decimal-snoc (acc * 10 + (d - b'0')) cs c

read_decimal-reverse : (cs : List ℕ) → read_decimal 0 (reverse cs) ≡ low_first cs
read_decimal-reverse [] = refl
read_decimal-reverse (c ∷ cs) =
    ap (read_decimal 0) (reverse-cons c cs)
    ∙ read_decimal-snoc 0 (reverse cs) c
    ∙ omega (arith, read_decimal-reverse cs)

length-reverse : (cs : List ℕ) → length (reverse cs) ≡ length cs
length-reverse [] = refl
length-reverse (c ∷ cs) =
    omega
      (arith, ap length (reverse-cons c cs), length-append (reverse cs) (c ∷ []), length-reverse cs)

-- What the loop stores behind `out`.
abbrev Prints : ℕ → ℕ → List ℕ → Type 0
Prints fuel value out =
    (ds : List ℕ) × (digits_loop fuel value out ≡ returns (out ++ ds))
    × All IsDigit ds
    × (low_first ds ≡ value)
    × (length ds ≤ fuel)
    × (0 < length ds)

digits-last :
    (fuel value : ℕ) (out : List ℕ) → (value / 10 == 0) ≡ true → Prints (suc fuel) value out
unfolding digits_loop
digits-last fuel value out e = (
  (b'0' + value % 10) ∷ [],
  rw (e, digits_loop),
  ((omega arith, omega arith), tt),
  omega (arith, (eq_iff (value / 10) 0).0 e),
  omega arith,
  omega arith,
)

digits-more :
    (fuel value : ℕ) (out : List ℕ)
    → (value / 10 == 0) ≡ false
    → Prints fuel (value / 10) (out ++ (b'0' + value % 10) ∷ [])
    → Prints (suc fuel) value out
unfolding digits_loop
digits-more fuel value out e (ds, run, digits, low, few, some_digit) = (
  (b'0' + value % 10) ∷ ds,
  rw (e, digits_loop) (run ∙ ap returns (append_assoc out ((b'0' + value % 10) ∷ []) ds)),
  ((omega arith, omega arith), digits),
  omega (arith, low),
  omega arith,
  omega arith,
)

digits-Prints :
    (fuel value : ℕ) (out : List ℕ) → value < 10 ^ suc fuel → Prints (suc fuel) value out
digits-Prints zero value out h =
    let small : value / 10 ≡ 0 = omega arith in
    digits-last zero value out ((eq_iff (value / 10) 0).1 small)
digits-Prints (suc fuel) value out h = elim (Bool-cases (value / 10 == 0)) [
  | inl last ↦ digits-last (suc fuel) value out last
  | inr more ↦ digits-more (suc fuel) value out more (
      digits-Prints fuel (value / 10) (out ++ (b'0' + value % 10) ∷ [])
        (omega (arith, pow-suc 10 (suc fuel))))
]

-- Every 64-bit number is printed, in at most 20 characters and at least one, as a text of decimal digits
-- only that reads back as the number.
pub ui64_to_str2-read_decimal :
    (value : ℕ)
    → value < 2 ^ 64
    → (text : List ℕ) × (ui64_to_str2 value ≡ returns text)
      × All IsDigit text
      × (read_decimal 0 text ≡ value)
      × (length text ≤ 20)
      × (0 < length text)
unfolding ui64_to_str2
ui64_to_str2-read_decimal zero h =
    (b'0' ∷ [], refl, ((omega arith, omega arith), tt), refl, omega arith, omega arith)
ui64_to_str2-read_decimal (suc v) h =
    let (ds, run, digits, low, few, some_digit) = digits-Prints 19 (suc v) [] (omega arith) in
    (
      reverse ds,
      rw (pos→eq_zero (suc v) (omega arith), run),
      reverse-IsDigit ds digits,
      read_decimal-reverse ds ∙ low,
      omega (arith, length-reverse ds),
      omega (arith, length-reverse ds),
    )
