-- ===== src/PathName/Equal.antt =====
-- `Path::operator==` compares the parts of two paths.
use ckcore.Base.{
  ℕ, zero, suc, ◌+◌, ◌<◌, ◌≤◌, ◌≡◌, ◌≢◌, ◌↔◌, refl, Bool, true, false, not, ◌&&◌, List, [], ◌∷◌,
  returns, length, arith, Bool-cases, inl, inr, eq_iff,
}
use ckcore.PathName.{
  Iterator, begin, end, next, advance, deref, same, iter_eq, iter_neq, eq_loop, path_eq,
}
use ckcore.PathName.Str.{npos}
use ckcore.PathName.Components.{pieces, components, prepend}
use ckcore.PathName.Walk.{Shows, begin-Shows}

-- What the iterator shows at its end.
abbrev pub null_name : List ℕ
null_name = b'N' ∷ b'U' ∷ b'L' ∷ b'L' ∷ []

-- No part is spelled like the end.
abbrev pub is_plain : List (List ℕ) → Bool
is_plain [] = true
is_plain (p ∷ ps) = not (same p null_name) && is_plain ps

abbrev same_parts : List (List ℕ) → List (List ℕ) → Bool
same_parts [] [] = true
same_parts [] (q ∷ qs) = false
same_parts (p ∷ ps) [] = false
same_parts (p ∷ ps) (q ∷ qs) = same p q && same_parts ps qs

same_refl : (a : List ℕ) → same a a ≡ true
unfolding same
same_refl [] = refl
same_refl (x ∷ xs) = ground (arith, same_refl xs)

same-≡ : (a b : List ℕ) → same a b ≡ true → a ≡ b
unfolding same
same-≡ [] [] h = refl
same-≡ [] (y ∷ ys) h = cc
same-≡ (x ∷ xs) [] h = cc
same-≡ (x ∷ xs) (y ∷ ys) h = ground (arith, same-≡ xs ys, eq_iff x y)

parts_refl : (a : List (List ℕ)) → same_parts a a ≡ true
parts_refl [] = refl
parts_refl (x ∷ xs) = ground (arith, same_refl x, parts_refl xs)

parts-≡ : (a b : List (List ℕ)) → same_parts a b ≡ true → a ≡ b
parts-≡ [] [] h = refl
parts-≡ [] (y ∷ ys) h = cc
parts-≡ (x ∷ xs) [] h = cc
parts-≡ (x ∷ xs) (y ∷ ys) h = ground (arith, parts-≡ xs ys, same-≡ x y)

parts_iff : (a b : List (List ℕ)) → (same_parts a b ≡ true) ↔ (a ≡ b)
parts_iff a b = (parts-≡ a b, λ e. rw e (parts_refl b))

deref-end : deref end ≡ returns null_name
unfolding deref end
deref-end = refl

pub more-end :
    (a : Iterator) (p : List ℕ)
    → a.at_end ≡ false
    → deref a ≡ returns p
    → same p null_name ≡ false
    → (iter_neq a end ≡ returns true) × (iter_eq a end ≡ returns false)
unfolding iter_neq iter_eq
more-end a p e d n = rw (d, deref-end, n, e) (refl, refl)

pub done-end :
    (a : Iterator)
    → a.at_end ≡ true
    → (iter_neq a end ≡ returns false) × (iter_eq a end ≡ returns true)
unfolding iter_neq iter_eq end
done-end a e = rw e (refl, refl)

both :
    (a b : Iterator) (p q : List ℕ)
    → a.at_end ≡ false
    → deref a ≡ returns p
    → deref b ≡ returns q
    → iter_neq a b ≡ returns (not (same p q))
unfolding iter_neq
both a b p q e d d' = rw (d, d', e) refl

-- The loop, on iterators that show `ps` and `qs`.
eq_loop-same :
    (fuel : ℕ) (a b : Iterator) (ps qs : List (List ℕ))
    → length ps < fuel
    → Shows a ps
    → Shows b qs
    → is_plain ps ≡ true
    → is_plain qs ≡ true
    → eq_loop fuel a b ≡ returns (same_parts ps qs)
unfolding eq_loop
eq_loop-same zero a b ps qs f sa sb na nb = absurd (omega arith)
eq_loop-same (suc fuel) a b [] [] f sa sb na nb =
    let ea = done-end a sa in let eb = done-end b sb in rw (eq_loop, ea.0, ea.1, eb.1) refl
eq_loop-same (suc fuel) a b [] (q ∷ qs) f sa (eb, db, sb) na nb =
    let ea = done-end a sa in
    let mb = more-end b q eb db (ground arith) in rw (eq_loop, ea.0, ea.1, mb.1) refl
eq_loop-same (suc fuel) a b (p ∷ ps) [] f (ea, da, sa) sb na nb =
    let ma = more-end a p ea da (ground arith) in
    let eb = done-end b sb in rw (eq_loop, ma.0, eb.0, ma.1) refl
eq_loop-same (suc fuel) a b (p ∷ ps) (q ∷ qs) f (ea, da, sa) (eb, db, sb) na nb =
    let ma = more-end a p ea da (ground arith) in
    let mb = more-end b q eb db (ground arith) in
    let ab = both a b p q ea da db in
    let ih =
      eq_loop-same fuel (advance a) (advance b) ps qs (omega arith) sa sb (ground arith)
        (ground arith) in
    elim (Bool-cases (same p q)) [
      | inl e ↦ rw (eq_loop, ma.0, mb.0, ab, e, ih) refl
      | inr e ↦ rw (eq_loop, ma.0, mb.0, ab, e) refl
    ]

length-prepend : (x : ℕ) (ps : List (List ℕ)) → length (prepend x ps) ≤ suc (length ps)
length-prepend x [] = omega arith
length-prepend x (p ∷ ps) = omega arith

length-pieces : (s : List ℕ) → length (pieces s) ≤ length s
unfolding pieces
length-pieces [] = omega arith
length-pieces (x ∷ xs) = ground (arith, length-pieces xs, length-prepend x (pieces xs))

pub length-components : (s : List ℕ) → length (components s) ≤ length s
unfolding components
length-components [] = omega arith
length-components (x ∷ xs) = ground (arith, length-pieces xs, length-pieces (x ∷ xs))

-- For names that have neither a single character nor 2^64 - 1 and more, and no part spelled "NULL",
-- `operator==` ends, and gives true exactly when the two paths have the same parts.
pub path_eq-components :
    (p q : List ℕ)
    → (length p ≢ 1) × (length p < npos)
    → (length q ≢ 1) × (length q < npos)
    → is_plain (components p) ≡ true
    → is_plain (components q) ≡ true
    → (b : Bool) × (path_eq p q ≡ returns b) × ((b ≡ true) ↔ (components p ≡ components q))
unfolding path_eq
path_eq-components p q (lp, wp) (lq, wq) np nq = (
  same_parts (components p) (components q),
  eq_loop-same (length p + 2) (begin p) (begin q) (components p) (components q)
      (omega (arith, length-components p)) (begin-Shows p lp wp) (begin-Shows q lq wq) np nq,
  parts_iff (components p) (components q),
)

begin-short : (p : List ℕ) → length p ≤ 1 → (begin p).at_end ≡ true
unfolding begin next
begin-short [] h = refl
begin-short (x ∷ []) h = refl
begin-short (x ∷ y ∷ s) h = absurd (omega arith)

-- Any two names of at most one character are equal for `operator==`.
pub path_eq-short : (p q : List ℕ) → length p ≤ 1 → length q ≤ 1 → path_eq p q ≡ returns true
unfolding path_eq
path_eq-short p q hp hq =
    let fuel : length p + 2 ≡ suc (length p + 1) = omega arith in
    rw fuel (
      eq_loop-same (suc (length p + 1)) (begin p) (begin q) [] [] (omega arith) (begin-short p hp)
        (begin-short q hq) refl refl)
