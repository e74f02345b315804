-- ===== src/ThreadPool/Tally.antt =====
-- Counts over the places of the threads.
use ckcore.Base.{
  ℕ, zero, suc, ◌+◌, ◌<◌, ◌≤◌, ◌≡◌, refl, ap, some, List, [], ◌∷◌, ◌++◌, ◌==◌, if◌then◌else◌,
  length, arith,
}
use ckcore.ThreadPool.{Place, place_at, set_place}

abbrev pub tally : (Place → ℕ) → List Place → ℕ
tally f [] = 0
tally f (x ∷ xs) = f x + tally f xs

abbrev pub is_busy : Place → ℕ
is_busy (Place.ready task) = 1
is_busy (Place.running task) = 1
is_busy _ = 0

abbrev pub is_waiting : Place → ℕ
is_waiting Place.waiting = 1
is_waiting _ = 0

abbrev pub is_retired : Place → ℕ
is_retired Place.retired = 1
is_retired _ = 0

-- Whether the thread holds a task that it has still to run to its end.
abbrev pub holds : ℕ → Place → ℕ
holds t (Place.ready task) = if task == t then 1 else 0
holds t (Place.running task) = if task == t then 1 else 0
holds t _ = 0

abbrev pub occurs : ℕ → List ℕ → ℕ
occurs t [] = 0
occurs t (x ∷ xs) = (if x == t then 1 else 0) + occurs t xs

abbrev pub retired_at : List Place → ℕ → ℕ
retired_at [] i = 0
retired_at (x ∷ xs) zero = is_retired x
retired_at (x ∷ xs) (suc i) = retired_at xs i

pub tally-set :
    (f : Place → ℕ) (xs : List Place) (i : ℕ) (old q : Place)
    → place_at xs i ≡ some old
    → tally f (set_place xs i q) + f old ≡ tally f xs + f q
tally-set f [] i old q h = cc
tally-set f (x ∷ xs) zero old q h = let e : x ≡ old = cc in rw e (omega arith)
tally-set f (x ∷ xs) (suc i) old q h = omega (arith, tally-set f xs i old q h)

pub tally-append :
    (f : Place → ℕ) (xs : List Place) (q : Place) → tally f (xs ++ (q ∷ [])) ≡ tally f xs + f q
tally-append f [] q = omega arith
tally-append f (x ∷ xs) q = omega (arith, tally-append f xs q)

pub length-set : (xs : List Place) (i : ℕ) (q : Place) → length (set_place xs i q) ≡ length xs
length-set [] i q = refl
length-set (x ∷ xs) zero q = refl
length-set (x ∷ xs) (suc i) q = ap suc (length-set xs i q)

pub retired_at-set :
    (xs : List Place) (i j : ℕ) (old q : Place)
    → place_at xs i ≡ some old
    → retired_at (set_place xs i q) j ≡ (if i == j then is_retired q else retired_at xs j)
retired_at-set [] i j old q h = cc
retired_at-set (x ∷ xs) zero zero old q h = refl
retired_at-set (x ∷ xs) zero (suc j) old q h = ground arith
retired_at-set (x ∷ xs) (suc i) zero old q h = ground arith
retired_at-set (x ∷ xs) (suc i) (suc j) old q h = ground (arith, retired_at-set xs i j old q h)

pub retired_at-append :
    (xs : List Place) (q : Place) (j : ℕ)
    → is_retired q ≡ 0
    → retired_at (xs ++ (q ∷ [])) j ≡ retired_at xs j
retired_at-append [] q zero h = h
retired_at-append [] q (suc j) h = refl
retired_at-append (x ∷ xs) q zero h = refl
retired_at-append (x ∷ xs) q (suc j) h = retired_at-append xs q j h

pub retired_at-place :
    (xs : List Place) (i : ℕ) (old : Place)
    → place_at xs i ≡ some old
    → retired_at xs i ≡ is_retired old
retired_at-place [] i old h = cc
retired_at-place (x ∷ xs) zero old h = let e : x ≡ old = cc in ap is_retired e
retired_at-place (x ∷ xs) (suc i) old h = retired_at-place xs i old h

is_retired-≡ : (x : Place) → 0 < is_retired x → x ≡ Place.retired
is_retired-≡ (Place.ready t) h = absurd (omega arith)
is_retired-≡ (Place.running t) h = absurd (omega arith)
is_retired-≡ Place.waiting h = absurd (omega arith)
is_retired-≡ Place.retired h = refl
is_retired-≡ Place.finished h = absurd (omega arith)
is_retired-≡ (Place.stranded t) h = absurd (omega arith)

pub place-retired :
    (xs : List Place) (i : ℕ) → 0 < retired_at xs i → place_at xs i ≡ some Place.retired
place-retired [] i h = absurd (omega arith)
place-retired (x ∷ xs) zero h = ap some (is_retired-≡ x h)
place-retired (x ∷ xs) (suc i) h = place-retired xs i h

pub is_retired_le : (x : Place) → is_retired x ≤ 1
is_retired_le (Place.ready t) = omega arith
is_retired_le (Place.running t) = omega arith
is_retired_le Place.waiting = omega arith
is_retired_le Place.retired = omega arith
is_retired_le Place.finished = omega arith
is_retired_le (Place.stranded t) = omega arith

pub retired_at_le : (xs : List Place) (i : ℕ) → retired_at xs i ≤ 1
retired_at_le [] i = omega arith
retired_at_le (x ∷ xs) zero = is_retired_le x
retired_at_le (x ∷ xs) (suc i) = retired_at_le xs i

pub place_at-set :
    (xs : List Place) (i : ℕ) (old q : Place)
    → place_at xs i ≡ some old
    → place_at (set_place xs i q) i ≡ some q
place_at-set [] i old q h = cc
place_at-set (x ∷ xs) zero old q h = refl
place_at-set (x ∷ xs) (suc i) old q h = place_at-set xs i old q h

pub set-set :
    (xs : List Place) (i : ℕ) (q r : Place) → set_place (set_place xs i q) i r ≡ set_place xs i r
set-set [] i q r = refl
set-set (x ∷ xs) zero q r = refl
set-set (x ∷ xs) (suc i) q r = ap (λ l. x ∷ l) (set-set xs i q r)
