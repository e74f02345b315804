-- ===== src/PathName/Join.antt =====
-- `Path::operator+` and `operator+=` put the parts of two paths behind each other.
use ckcore.Base.{
  ℕ, suc, ◌-◌, ◌<◌, ◌≡◌, refl, ap, ◌∙◌, false, List, [], ◌∷◌, ◌++◌, ◌==◌, append-nil, append_assoc,
  returns, length, take, arith, Bool-cases, inl, inr, sub64, le→ltb, ltb,
}
use ckcore.PathName.{delim, append_name, concat}
use ckcore.PathName.Str.{at, npos}
use ckcore.PathName.Components.{components}
use ckcore.PathName.Delims.{
  components-close, ends_in_delim, ends_elsewhere, drops_one, at-first, at-last, components-first,
  components-plain,
}

abbrev Joins : List ℕ → List ℕ → Type 0
Joins name p =
    (r : List ℕ) × (append_name name p ≡ returns r)
    × (components r ≡ components name ++ components p)

append_name-Joins :
    (name : List ℕ) (y : ℕ) (p : List ℕ) → length name < npos → 0 < length name → Joins name (y ∷ p)
unfolding append_name
append_name-Joins name y p w l =
    let n : ℕ = length name - 1 in
    let last : sub64 (length name) 1 ≡ n = omega arith in
    let size : suc n ≡ length name = omega arith in go n last size (at-last name n size)
  where
    go :
        (n : ℕ)
        → sub64 (length name) 1 ≡ n
        → suc n ≡ length name
        → (c : ℕ) × (at name n ≡ returns c)
        → Joins name (y ∷ p)
    go n last size (c, h) = elim (Bool-cases (c == delim)) [
      | inl e ↦
          let is : c ≡ delim = ground arith in
          let h' : at name n ≡ returns delim = rw is at h in
          elim (Bool-cases (y == delim)) [
            | inl d ↦
                let first : y ≡ delim = ground (arith, d) in
                (
                  take n name ++ (y ∷ p),
                  rw (last, h, at-first y p, e, d) refl,
                  rw (first, components-first p) (drops_one name p n size h'),
                )
            | inr d ↦ (
              name ++ (y ∷ p),
              rw (last, h, at-first y p, e, d) refl,
              rw (components-plain y p d) (ends_in_delim name (y ∷ p) n size h'),
            )
          ]
      | inr e ↦ elim (Bool-cases (y == delim)) [
        | inl d ↦
            let first : y ≡ delim = ground (arith, d) in
            (
              name ++ (y ∷ p),
              rw (last, h, at-first y p, e, d) refl,
              rw (first, components-first p) (ends_elsewhere name p n c size h e),
            )
        | inr d ↦ (
          (name ++ (delim ∷ [])) ++ (y ∷ p),
          rw (last, h, at-first y p, e, d) refl,
          rw (append_assoc name (delim ∷ []) (y ∷ p), components-plain y p d)
              (ends_elsewhere name (y ∷ p) n c size h e),
        )
      ]
    ]

-- Of two names that are not empty, the first with fewer than 2^64 - 1 characters, `operator+` and
-- `operator+=` make the same name, and its parts are the parts of the first and then of the second.
pub concat-components :
    (name p : List ℕ)
    → length name < npos
    → 0 < length name
    → 0 < length p
    → (r : List ℕ) × (concat name p ≡ returns r)
      × (append_name name p ≡ returns r)
      × (components r ≡ components name ++ components p)
unfolding concat
concat-components name [] w l m = absurd (omega arith)
concat-components name (y ∷ p) w l m =
    let j = append_name-Joins name y p w l in
    let full : ltb (length name) 1 ≡ false = le→ltb (length name) 1 l in
    let full' : ltb (length (y ∷ p)) 1 ≡ false = le→ltb (length (y ∷ p)) 1 m in
    (j.0, rw (full, full', j.1) refl, j.1, j.2)

at-nil : at [] 0 ≡ returns 0
unfolding at
at-nil = refl

-- To a name that is not empty, and has fewer than 2^64 - 1 characters, `operator+` of the empty name
-- gives the empty name, where `operator+=` gives a name with the same parts.
pub concat_loses :
    (name : List ℕ)
    → length name < npos
    → 0 < length name
    → (concat name [] ≡ returns [])
      × (r : List ℕ) × (append_name name [] ≡ returns r)
      × (components r ≡ components name)
unfolding concat append_name
concat_loses name w l =
    let n : ℕ = length name - 1 in
    let last : sub64 (length name) 1 ≡ n = omega arith in
    let size : suc n ≡ length name = omega arith in
    let full : ltb (length name) 1 ≡ false = le→ltb (length name) 1 l in
    let j = go n last size (at-last name n size) in (rw full refl, j.0, j.1, j.2)
  where
    go :
        (n : ℕ)
        → sub64 (length name) 1 ≡ n
        → suc n ≡ length name
        → (c : ℕ) × (at name n ≡ returns c)
        → (r : List ℕ) × (append_name name [] ≡ returns r) × (components r ≡ components name)
    go n last size (c, h) = elim (Bool-cases (c == delim)) [
      | inl e ↦ (name ++ [], rw (last, h, at-nil, e) refl, ap components (append-nil name))
      | inr e ↦ (
        (name ++ (delim ∷ [])) ++ [],
        rw (last, h, at-nil, e) refl,
        ap components (append-nil (name ++ (delim ∷ []))) ∙ components-close name n c size h e,
      )
    ]
