-- ===== src/PathName/Walk.antt =====
-- The iterator shows the parts of its path, in order, and then stands at the end.
use ckcore.Base.{
  ℕ, zero, suc, ◌+◌, ◌<◌, ◌≤◌, ◌≡◌, ◌≢◌, refl, true, false, Option, none, some, List, [], ◌∷◌, ◌==◌,
  returns, length, take, drop, arith, Option-cases, Bool-cases, inl, inr, take-all, length-drop,
  drop-drop, ◌⊎◌, dec_lt, add64, sub64, leb, if◌then◌else◌,
}
use ckcore.PathName.{delim, Iterator, next, search_delim, begin, advance, deref}
use ckcore.PathName.Str.{npos, index_of, find, substr, or_npos}
use ckcore.PathName.Components.{pieces, components, pieces-none, pieces-some, index_of-bound}

-- The iterator at the part of `d` characters from `k` on.
abbrev standing : List ℕ → ℕ → ℕ → Iterator
standing name k d = record { at_end = false; pos_start = sub64 k 1; pos_end = k + d; name = name }

abbrev or_length : List ℕ → Option ℕ → ℕ
or_length s none = length s
or_length s (some i) = i

-- The iterator at the part that begins at `k`.
abbrev at_part : List ℕ → ℕ → Iterator
at_part name k = standing name k (or_length (drop k name) (index_of delim (drop k name)))

-- An iterator that gives the parts `ps`, one after the other, and is then at the end.
abbrev pub Shows : Iterator → List (List ℕ) → Type 0
Shows it [] = it.at_end ≡ true
Shows it (p ∷ ps) = (it.at_end ≡ false) × (deref it ≡ returns p) × Shows (advance it) ps

deref-standing :
    (name : List ℕ) (k d : ℕ)
    → length name < npos
    → k + d ≤ length name
    → deref (standing name k d) ≡ returns (take d (drop k name))
unfolding deref substr
deref-standing name k d w h =
    let start : add64 (sub64 k 1) 1 ≡ k = omega arith in
    let count : sub64 (sub64 (k + d) (sub64 k 1)) 1 ≡ d = omega arith in
    let within : leb k (length name) ≡ true = ground arith in rw (start, count, within) refl

found-at :
    (s : List ℕ) (k total : ℕ) (o : Option ℕ)
    → k + length s ≡ total
    → total < npos
    → index_of delim s ≡ o
    → (if or_npos k o == npos then total else or_npos k o) ≡ k + or_length s o
found-at s k total none e w h = ground arith
found-at s k total (some i) e w h = ground (arith, index_of-bound delim s i h)

found-pos : (k : ℕ) (o : Option ℕ) → (or_npos (suc k) o == 0) ≡ false
found-pos k none = refl
found-pos k (some i) = ground arith

-- From a delimiter at `e`, the iterator goes on to the part behind it.
advance-delim :
    (name : List ℕ) (k d : ℕ)
    → length name < npos
    → suc (k + d) < length name
    → advance (standing name k d) ≡ at_part name (suc (k + d))
unfolding advance next search_delim find
advance-delim name k d w h =
    let e : ℕ = k + d in
    let o = index_of delim (drop (suc e) name) in
    let not_end : (e == length name) ≡ false = ground arith in
    let not_last : (e == sub64 (length name) 1) ≡ false = ground arith in
    let start : add64 e 1 ≡ suc e = omega arith in
    let before : sub64 (suc e) 1 ≡ e = omega arith in
    rw
      (
        not_end,
        not_last,
        start,
        before,
        found-pos e o,
        found-at (drop (suc e) name) (suc e) (length name) o
            (omega (arith, length-drop (suc e) name)) w refl,
      )
      refl

advance-end :
    (name : List ℕ) (k d : ℕ)
    → length name < npos
    → (k + d ≡ length name) ⊎ (suc (k + d) ≡ length name)
    → (advance (standing name k d)).at_end ≡ true
unfolding advance next search_delim find
advance-end name k d w (inl h) = let e : (k + d == length name) ≡ true = ground arith in rw e refl
advance-end name k d w (inr h) =
    let e : (k + d == length name) ≡ false = ground arith in
    let l : (k + d == sub64 (length name) 1) ≡ true = ground arith in rw (e, l) refl

shown_part :
    (name : List ℕ) (k d : ℕ) (ps : List (List ℕ))
    → length name < npos
    → k + d ≤ length name
    → Shows (advance (standing name k d)) ps
    → Shows (standing name k d) (take d (drop k name) ∷ ps)
shown_part name k d ps w h rest = (refl, deref-standing name k d w h, rest)

-- At its end, the iterator shows nothing more.
ended : (it : Iterator) (s : List ℕ) → length s ≡ 0 → it.at_end ≡ true → Shows it (pieces s)
unfolding pieces
ended it [] l h = h
ended it (x ∷ s) l h = absurd (omega arith)

at_part-Shows :
    (fuel : ℕ) (name : List ℕ) (k : ℕ)
    → length name < npos
    → k < length name
    → length name ≤ k + fuel
    → Shows (at_part name k) (pieces (drop k name))
at_part-Shows zero name k w h f = absurd (omega arith)
at_part-Shows (suc fuel) name k w h f = elim (Option-cases (index_of delim (drop k name))) [
  | inl n ↦
      let rest : ℕ = length (drop k name) in
      let full : k + rest ≡ length name = omega (arith, length-drop k name) in
      let one = pieces-none (drop k name) n (omega (arith, length-drop k name)) in
      let all = take-all rest (drop k name) (omega arith) in
      let shown =
        shown_part name k rest [] w (omega arith) (advance-end name k rest w (inl full)) in
      rw (n, one) (rw all at shown)
  | inr (d, n) ↦
      let few = index_of-bound delim (drop k name) d n in
      let len = length-drop k name in
      let more = drop-drop k (suc d) name in
      let place : k + suc d ≡ suc (k + d) = omega arith in
      let tail : Shows (advance (standing name k d)) (pieces (drop (suc (k + d)) name)) =
        elim (dec_lt (suc (k + d)) (length name)) [
          | yes lt ↦
              rw (advance-delim name k d w lt)
                (at_part-Shows fuel name (suc (k + d)) w lt (omega arith))
          | no ge ↦
              ended (advance (standing name k d)) (drop (suc (k + d)) name)
                (omega (arith, length-drop (suc (k + d)) name))
                (advance-end name k d w (inr (omega arith)))
        ] in
      rw (n, pieces-some (drop k name) d n, more, place)
        (shown_part name k d (pieces (drop (suc (k + d)) name)) w (omega arith) tail)
]

zero_add : (n : ℕ) → 0 + n ≡ n
zero_add n = omega arith

begin-plain :
    (x : ℕ) (xs : List ℕ)
    → length (x ∷ xs) < npos
    → 0 < length xs
    → (x == delim) ≡ false
    → begin (x ∷ xs) ≡ at_part (x ∷ xs) 0
unfolding begin next search_delim find index_of
begin-plain x xs w l e =
    let o = index_of delim xs in
    let some_left : (0 == suc (length xs)) ≡ false = ground arith in
    let last : (0 == sub64 (suc (length xs)) 1) ≡ false = ground arith in
    elim (Option-cases o) [
      | inl n ↦ rw (some_left, last, e, n, zero_add (suc (length xs))) refl
      | inr (i, n) ↦
          let few = index_of-bound delim xs i n in
          let far : (suc i == npos) ≡ false = ground arith in
          rw (some_left, last, e, n) (ground (arith, few))
    ]

begin-delim :
    (x : ℕ) (xs : List ℕ)
    → length (x ∷ xs) < npos
    → 0 < length xs
    → (x == delim) ≡ true
    → begin (x ∷ xs) ≡ at_part (x ∷ xs) 1
unfolding begin next search_delim find index_of
begin-delim x xs w l e =
    let o = index_of delim xs in
    let some_left : (0 == suc (length xs)) ≡ false = ground arith in
    let last : (0 == sub64 (suc (length xs)) 1) ≡ false = ground arith in
    rw (some_left, last, e, found-at xs 1 (suc (length xs)) o (omega arith) w refl) refl

-- Unless a path has a single character, or 2^64 - 1 of them and more, its iterator shows the parts
-- of the path in order, starting at `begin`, and is then at the end.
pub begin-Shows :
    (name : List ℕ) → length name ≢ 1 → length name < npos → Shows (begin name) (components name)
unfolding components
begin-Shows [] l w = unfold begin next in refl
begin-Shows (x ∷ xs) l w = elim (Bool-cases (x == delim)) [
  | inl e ↦
      rw (e, begin-delim x xs w (omega (arith, l)) e)
        (at_part-Shows (length (x ∷ xs)) (x ∷ xs) 1 w (omega (arith, l)) (omega arith))
  | inr e ↦
      rw (e, begin-plain x xs w (omega (arith, l)) e)
        (at_part-Shows (length (x ∷ xs)) (x ∷ xs) 0 w (omega arith) (omega arith))
]
