-- ===== src/PathName/Delims.antt =====
-- The parts of names that are put together.
use ckcore.Base.{
  ℕ, zero, suc, ◌<◌, ◌≡◌, refl, ap, ◌∙◌, sym, false, List, [], ◌∷◌, ◌++◌, ◌==◌, append_assoc,
  returns, length, take, arith, Bool-cases, inl, inr,
}
use ckcore.PathName.{delim}
use ckcore.PathName.Str.{at}
use ckcore.PathName.Components.{pieces, components, prepend}

prepend-append :
    (x : ℕ) (ps qs : List (List ℕ)) → 0 < length ps → prepend x (ps ++ qs) ≡ prepend x ps ++ qs
prepend-append x [] qs h = absurd (omega arith)
prepend-append x (p ∷ ps) qs h = refl

prepend-pos : (x : ℕ) (ps : List (List ℕ)) → 0 < length (prepend x ps)
prepend-pos x [] = omega arith
prepend-pos x (p ∷ ps) = omega arith

pieces-pos : (x : ℕ) (s : List ℕ) → 0 < length (pieces (x ∷ s))
unfolding pieces
pieces-pos x s = ground (arith, prepend-pos x (pieces s))

delimited-pos : (a : List ℕ) → 0 < length (pieces (a ++ (delim ∷ [])))
delimited-pos [] = pieces-pos delim []
delimited-pos (x ∷ a) = pieces-pos x (a ++ (delim ∷ []))

-- A delimiter parts a name in two.
pieces-delim : (a b : List ℕ) → pieces (a ++ (delim ∷ b)) ≡ pieces (a ++ (delim ∷ [])) ++ pieces b
unfolding pieces
pieces-delim [] b = refl
pieces-delim (x ∷ a) b =
    let ih = pieces-delim a b in
    elim (Bool-cases (x == delim)) [
      | inl e ↦ rw (e, ih) refl
      | inr e ↦
          rw (e, ih) (prepend-append x (pieces (a ++ (delim ∷ []))) (pieces b) (delimited-pos a))
    ]

-- A delimiter behind another character adds no part.
pieces-close :
    (a : List ℕ) (n c : ℕ)
    → suc n ≡ length a
    → at a n ≡ returns c
    → (c == delim) ≡ false
    → pieces (a ++ (delim ∷ [])) ≡ pieces a
unfolding pieces at
pieces-close [] n c l h e = absurd (omega arith)
pieces-close (x ∷ []) zero c l h e = ground arith
pieces-close (x ∷ []) (suc n) c l h e = absurd (omega arith)
pieces-close (x ∷ y ∷ s) zero c l h e = absurd (omega arith)
pieces-close (x ∷ y ∷ s) (suc n) c l h e =
    let ih = pieces-close (y ∷ s) n c (omega arith) h e in
    elim (Bool-cases (x == delim)) [
      | inl d ↦ rw d (ap (λ l. [] ∷ l) ih)
      | inr d ↦ rw d (ap (prepend x) ih)
    ]

last-split :
    (a : List ℕ) (n c : ℕ) → suc n ≡ length a → at a n ≡ returns c → a ≡ take n a ++ (c ∷ [])
unfolding at
last-split [] n c l h = absurd (omega arith)
last-split (x ∷ []) zero c l h = ground arith
last-split (x ∷ y ∷ s) zero c l h = absurd (omega arith)
last-split (x ∷ s) (suc n) c l h = ap (λ l. x ∷ l) (last-split s n c (omega arith) h)

pub at-last : (a : List ℕ) (n : ℕ) → suc n ≡ length a → (c : ℕ) × (at a n ≡ returns c)
unfolding at
at-last [] n l = absurd (omega arith)
at-last (x ∷ s) zero l = (x, refl)
at-last (x ∷ s) (suc n) l = at-last s n (omega arith)

components-delim :
    (t r : List ℕ) → components (t ++ (delim ∷ r)) ≡ components (t ++ (delim ∷ [])) ++ pieces r
unfolding components
components-delim [] r = unfold pieces in refl
components-delim (x ∷ t) r = elim (Bool-cases (x == delim)) [
  | inl e ↦ rw e (pieces-delim t r)
  | inr e ↦ rw e (pieces-delim (x ∷ t) r)
]

pub components-close :
    (a : List ℕ) (n c : ℕ)
    → suc n ≡ length a
    → at a n ≡ returns c
    → (c == delim) ≡ false
    → components (a ++ (delim ∷ [])) ≡ components a
unfolding components at
components-close [] n c l h e = absurd (omega arith)
components-close (x ∷ []) n c l h e = elim (Bool-cases (x == delim)) [
  | inl d ↦ let first : n ≡ 0 = omega arith in absurd (ground (arith, rw first at h))
  | inr d ↦ rw d (pieces-close (x ∷ []) n c l h e)
]
components-close (x ∷ y ∷ s) zero c l h e = absurd (omega arith)
components-close (x ∷ y ∷ s) (suc n) c l h e = elim (Bool-cases (x == delim)) [
  | inl d ↦ rw d (pieces-close (y ∷ s) n c (omega arith) h e)
  | inr d ↦ rw d (pieces-close (x ∷ y ∷ s) (suc n) c l h e)
]

-- The parts of a name with its last delimiter, if it ends in one, behind it.
pub ends_in_delim :
    (a r : List ℕ) (n : ℕ)
    → suc n ≡ length a
    → at a n ≡ returns delim
    → components (a ++ r) ≡ components a ++ pieces r
ends_in_delim a r n l h =
    let e = last-split a n delim l h in
    let t = take n a in
    let step : components (t ++ (delim ∷ [])) ≡ components a = ap components (sym e) in
    ap (λ b. components (b ++ r)) e
    ∙ ap components (append_assoc t (delim ∷ []) r)
    ∙ components-delim t r
    ∙ ap (λ b. b ++ pieces r) step

pub ends_elsewhere :
    (a r : List ℕ) (n c : ℕ)
    → suc n ≡ length a
    → at a n ≡ returns c
    → (c == delim) ≡ false
    → components (a ++ (delim ∷ r)) ≡ components a ++ pieces r
ends_elsewhere a r n c l h e =
    components-delim a r ∙ ap (λ b. b ++ pieces r) (components-close a n c l h e)

-- Of two delimiters that meet, one is dropped.
pub drops_one :
    (a r : List ℕ) (n : ℕ)
    → suc n ≡ length a
    → at a n ≡ returns delim
    → components (take n a ++ (delim ∷ r)) ≡ components a ++ pieces r
drops_one a r n l h =
    components-delim (take n a) r
    ∙ ap (λ b. components b ++ pieces r) (sym (last-split a n delim l h))

pub at-first : (y : ℕ) (p : List ℕ) → at (y ∷ p) 0 ≡ returns y
unfolding at
at-first y p = refl

pub components-first : (p : List ℕ) → components (delim ∷ p) ≡ pieces p
unfolding components
components-first p = refl

pub components-plain :
    (y : ℕ) (p : List ℕ) → (y == delim) ≡ false → components (y ∷ p) ≡ pieces (y ∷ p)
unfolding components
components-plain y p e = rw e refl
