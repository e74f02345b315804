-- ===== src/PathName/Components.antt =====
-- The parts of a path between its delimiters, described apart from the iterator.
use ckcore.Base.{
  ℕ, suc, ◌<◌, ◌≡◌, refl, none, some, List, [], ◌∷◌, ◌==◌, if◌then◌else◌, length, take, drop, arith,
  Option-cases, Bool-cases, inl, inr,
}
use ckcore.PathName.{delim}
use ckcore.PathName.Str.{index_of}

-- `x` put in front of the first of the parts.
abbrev pub prepend : ℕ → List (List ℕ) → List (List ℕ)
prepend x [] = (x ∷ []) ∷ []
prepend x (p ∷ ps) = (x ∷ p) ∷ ps

-- The parts: each delimiter ends one, and the end of the name ends a last one that is not empty.
unfoldable pub pieces : List ℕ → List (List ℕ)
pieces [] = []
pieces (x ∷ xs) = let rest = pieces xs in if x == delim then [] ∷ rest else prepend x rest

-- The parts of a path, from which a delimiter in front is dropped.
unfoldable pub components : List ℕ → List (List ℕ)
components [] = []
components (x ∷ xs) = if x == delim then pieces xs else pieces (x ∷ xs)

pub pieces-none : (s : List ℕ) → index_of delim s ≡ none → 0 < length s → pieces s ≡ s ∷ []
unfolding index_of pieces
pieces-none [] h l = absurd (omega arith)
pieces-none (x ∷ []) h l = ground arith
pieces-none (x ∷ y ∷ s) h l = elim (Bool-cases (x == delim)) [
  | inl e ↦ absurd (ground (arith, e))
  | inr e ↦ elim (Option-cases (index_of delim (y ∷ s))) [
    | inl n ↦ rw (e, pieces-none (y ∷ s) n (omega arith)) refl
    | inr (i, n) ↦ absurd (ground (arith, e, n))
  ]
]

pub index_of-bound : (c : ℕ) (s : List ℕ) (i : ℕ) → index_of c s ≡ some i → i < length s
unfolding index_of
index_of-bound c [] i h = ground arith
index_of-bound c (x ∷ s) i h = elim (Option-cases (index_of c s)) [
  | inl n ↦ ground (arith, n)
  | inr (j, n) ↦ ground (arith, n, index_of-bound c s j n)
]

pub pieces-some :
    (s : List ℕ) (i : ℕ) → index_of delim s ≡ some i → pieces s ≡ take i s ∷ pieces (drop (suc i) s)
unfolding index_of pieces
pieces-some [] i h = ground arith
pieces-some (x ∷ s) i h = elim (Bool-cases (x == delim)) [
  | inl e ↦ let zero : i ≡ 0 = ground (arith, e) in rw (e, zero) refl
  | inr e ↦ elim (Option-cases (index_of delim s)) [
    | inl n ↦ absurd (ground (arith, e, n))
    | inr (j, n) ↦
        let next : i ≡ suc j = ground (arith, e, n) in rw (e, next, pieces-some s j n) refl
  ]
]
