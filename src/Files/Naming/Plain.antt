-- ===== src/Files/Naming/Plain.antt =====
-- Names without a delimiter: those that `File::temp` of src/unix/file.cc puts together.
use mathlib.Core.List.{reverse, reverse-cons}
use ckcore.Base.{
  ℕ, zero, suc, ◌+◌, ◌/◌, ◌%◌, ◌<◌, ◌≡◌, refl, sym, false, none, List, [], ◌∷◌, ◌++◌, Outcome,
  returns, fault, stuck, ◌>>=◌, ◌==◌, length, arith, Bool-cases, pos→eq_zero, Option-cases, inl,
  inr,
}
use ckcore.Convert.{ui64_to_str2, digits_loop}
use ckcore.PathName.{delim}
use ckcore.PathName.Str.{index_of, last_index_of}
use ckcore.PathName.Components.{components, pieces-none}

-- A name without a delimiter.
abbrev pub IsPlain : List ℕ → Type 0
IsPlain s = index_of delim s ≡ none

pub append-IsPlain : (xs ys : List ℕ) → IsPlain xs → IsPlain ys → IsPlain (xs ++ ys)
unfolding index_of
append-IsPlain [] ys p q = q
append-IsPlain (x ∷ xs) ys p q = elim (Bool-cases (x == delim)) [
  | inl e ↦ absurd (ground (arith, e))
  | inr e ↦ elim (Option-cases (index_of delim xs)) [
    | inl n ↦ rw (e, append-IsPlain xs ys n q) refl
    | inr (i, n) ↦ absurd (ground (arith, e, n))
  ]
]

pub last-IsPlain : (s : List ℕ) → last_index_of delim s ≡ none → IsPlain s
unfolding index_of last_index_of
last-IsPlain [] h = refl
last-IsPlain (x ∷ s) h = elim (Option-cases (last_index_of delim s)) [
  | inl n ↦ elim (Bool-cases (x == delim)) [
    | inl e ↦ absurd (ground (arith, e, n))
    | inr e ↦ rw (e, last-IsPlain s n) refl
  ]
  | inr (i, n) ↦ absurd (ground (arith, n))
]

reverse-IsPlain : (s : List ℕ) → IsPlain s → IsPlain (reverse s)
unfolding index_of
reverse-IsPlain [] h = refl
reverse-IsPlain (x ∷ s) h = elim (Bool-cases (x == delim)) [
  | inl e ↦ absurd (ground (arith, e))
  | inr e ↦ elim (Option-cases (index_of delim s)) [
    | inl n ↦
        rw (reverse-cons x s)
          (append-IsPlain (reverse s) (x ∷ []) (reverse-IsPlain s n) (rw e refl))
    | inr (i, n) ↦ absurd (ground (arith, e, n))
  ]
]

nil-IsPlain : IsPlain []
unfolding index_of
nil-IsPlain = refl

digit-IsPlain : (n : ℕ) → IsPlain ((b'0' + n) ∷ [])
unfolding index_of
digit-IsPlain n = let e : (b'0' + n == delim) ≡ false = ground arith in rw e refl

digits_loop-IsPlain :
    (fuel value : ℕ) (out ds : List ℕ)
    → IsPlain out
    → digits_loop fuel value out ≡ returns ds
    → IsPlain ds
unfolding digits_loop
digits_loop-IsPlain zero value out ds p h = cc
digits_loop-IsPlain (suc fuel) value out ds p h =
    let more = append-IsPlain out ((b'0' + value % 10) ∷ []) p (digit-IsPlain (value % 10)) in
    elim (Bool-cases (value / 10 == 0)) [
      | inl e ↦
          let same : out ++ (b'0' + value % 10) ∷ [] ≡ ds = ground (arith, e, h) in
          rw (sym same) more
      | inr e ↦
          digits_loop-IsPlain fuel (value / 10) (out ++ (b'0' + value % 10) ∷ []) ds more
            (rw (e, digits_loop) at h)
    ]

pub ui64_to_str2-IsPlain :
    (value : ℕ) (text : List ℕ) → ui64_to_str2 value ≡ returns text → IsPlain text
unfolding ui64_to_str2
ui64_to_str2-IsPlain zero text h =
    let same : b'0' ∷ [] ≡ text = cc in rw (sym same) (digit-IsPlain 0)
ui64_to_str2-IsPlain (suc v) text h =
    go (digits_loop 20 (suc v) []) refl (rw (pos→eq_zero (suc v) (omega arith)) at h)
  where
    go :
        (r : Outcome (List ℕ))
        → digits_loop 20 (suc v) [] ≡ r
        → (r >>= λ digits. returns (reverse digits)) ≡ returns text
        → IsPlain text
    go (returns ds) e h =
        let same : reverse ds ≡ text = cc in
        rw (sym same) (reverse-IsPlain ds (digits_loop-IsPlain 20 (suc v) [] ds nil-IsPlain e))
    go fault e h = cc
    go stuck e h = cc

-- A name that is not empty and has no delimiter is its own only part.
pub components-plain : (s : List ℕ) → 0 < length s → IsPlain s → components s ≡ s ∷ []
unfolding components index_of
components-plain [] l p = absurd (omega arith)
components-plain (x ∷ s) l p = elim (Bool-cases (x == delim)) [
  | inl e ↦ absurd (ground (arith, e))
  | inr e ↦ rw e (pieces-none (x ∷ s) p l)
]
