-- ===== src/Directory/Making.antt =====
-- `Directory::create` makes every directory on the way to a path.
use ckcore.Base.{
  ℕ, zero, suc, ◌<◌, ◌≡◌, ◌≢◌, refl, ap, ◌∙◌, Bool, true, false, List, [], ◌∷◌, ◌++◌, returns, ◌==◌,
  ltb, if◌then◌else◌, length, arith, Bool-cases, inl, inr, All,
}
use mathlib.Core.Path.{subst, sym}
use ckcore.Files.{Sys}
use ckcore.Directory.{DirCalls, exist, make, unless_failed, make_loop, make_all}
use ckcore.PathName as PathName
use ckcore.PathName.{delim, root_name, begin, iter_neq}
use ckcore.PathName.Str.{npos, at}
use ckcore.PathName.Components.{components}
use ckcore.PathName.Walk.{Shows, begin-Shows}
use ckcore.PathName.Equal.{is_plain, more-end, done-end, length-components}

-- The directories on the way to the last of the parts, each with a delimiter at its end.
unfoldable pub prefixes : List ℕ → List (List ℕ) → List (List ℕ)
prefixes cur [] = []
prefixes cur (p ∷ ps) = let path = cur ++ (p ++ (b'/' ∷ [])) in path ∷ prefixes path ps

-- The root of an absolute path.
abbrev pub root_of : List ℕ → List ℕ
root_of [] = []
root_of (x ∷ xs) = if x == delim then delim ∷ [] else []

root_name_lem : (name : List ℕ) → root_name name ≡ returns (root_of name)
unfolding root_name at
root_name_lem [] = refl
root_name_lem (x ∷ xs) =
    let long : ltb 0 (suc (length xs)) ≡ true = ground arith in
    rw long (elim (Bool-cases (x == delim)) [ inl e ↦ rw e refl | inr e ↦ rw e refl ])

-- What mkdir(2) does: a directory that it made exists, and none that did is lost.
pub record MakesDirs {S : Type 0} (sys : Sys S) (calls : DirCalls S) : Type 0 where
  pub made_lem :
      (s : S) (path : List ℕ)
      → (calls.mkdir s path).0 ≡ true
      → exist sys (calls.mkdir s path).1 path ≡ true
  pub kept_lem :
      (s : S) (path other : List ℕ)
      → exist sys s other ≡ true
      → exist sys (calls.mkdir s path).1 other ≡ true

-- `create` has stopped at one of the paths `dirs`, with the system then in the state `t`: those before it
-- exist, it does not, and the call of mkdir for it has failed.
abbrev pub StopsAt : {S : Type 0} → Sys S → DirCalls S → List (List ℕ) → S → Type 0
StopsAt {S} sys calls dirs t =
    (before : List (List ℕ)) × (q : List ℕ) × (after : List (List ℕ)) × (u : S) × (dirs
      ≡ before ++ q ∷ after)
    × All (λ d. exist sys u d ≡ true) before
    × (exist sys u q ≡ false)
    × (calls.mkdir u q ≡ (false, t))

unless_failed-returns :
    {S : Type 0} (r rest : Bool × S)
    → unless_failed r (returns rest) ≡ returns (if r.0 then rest else (false, r.1))
unfolding unless_failed
unless_failed-returns (true, s) rest = refl
unless_failed-returns (false, s) rest = refl

module _ {S : Type 0} (sys : Sys S) (calls : DirCalls S) where
  -- `make` of each of the paths, up to the first that fails.
  abbrev made : List (List ℕ) → S → Bool × S
  made [] s = (true, s)
  made (q ∷ qs) s =
      let r = make sys calls q s in let rest = made qs r.1 in if r.0 then rest else (false, r.1)

  make_loop-made :
      (fuel : ℕ) (it : PathName.Iterator) (ps : List (List ℕ)) (cur : List ℕ) (s : S)
      → length ps < fuel
      → Shows it ps
      → is_plain ps ≡ true
      → make_loop sys calls fuel it cur s ≡ returns (made (prefixes cur ps) s)
  unfolding make_loop prefixes
  make_loop-made zero it ps cur s f shows plain = absurd (omega arith)
  make_loop-made (suc fuel) it [] cur s f shows plain =
      let done = done-end it shows in rw (make_loop, done.0) refl
  make_loop-made (suc fuel) it (p ∷ ps) cur s f (on, is, shows) plain =
      let more = more-end it p on is (ground arith) in
      let path = cur ++ (p ++ (b'/' ∷ [])) in
      let rest =
        make_loop-made fuel (PathName.advance it) ps path (make sys calls path s).1 (omega arith)
          shows (ground arith) in
      rw (make_loop, more.0, is, rest, unless_failed-returns (make sys calls path s)) refl

  module _ (makes : MakesDirs sys calls) where
    make-exist :
        (path : List ℕ) (s : S)
        → (make sys calls path s).0 ≡ true
        → exist sys (make sys calls path s).1 path ≡ true
    unfolding make
    make-exist path s e = elim (Bool-cases (exist sys s path)) [
      | inl there ↦ rw (there, there) refl
      | inr absent ↦ rw absent (makes.made_lem s path (rw absent at e))
    ]

    make-kept :
        (path other : List ℕ) (s : S)
        → exist sys s other ≡ true
        → exist sys (make sys calls path s).1 other ≡ true
    unfolding make
    make-kept path other s e = elim (Bool-cases (exist sys s path)) [
      | inl there ↦ rw (there, e) refl
      | inr absent ↦ rw absent (makes.kept_lem s path other e)
    ]

    made-kept :
        (qs : List (List ℕ)) (other : List ℕ) (s : S)
        → exist sys s other ≡ true
        → exist sys (made qs s).1 other ≡ true
    made-kept [] other s e = e
    made-kept (q ∷ qs) other s e = elim (Bool-cases (make sys calls q s).0) [
      | inl ok ↦ rw ok (made-kept qs other (make sys calls q s).1 (make-kept q other s e))
      | inr bad ↦ rw bad (make-kept q other s e)
    ]

    made-exist :
        (qs : List (List ℕ)) (s : S)
        → (made qs s).0 ≡ true
        → All (λ q. exist sys (made qs s).1 q ≡ true) qs
    made-exist [] s e = tt
    made-exist (q ∷ qs) s e = elim (Bool-cases (make sys calls q s).0) [
      | inl ok ↦
          let next = (make sys calls q s).1 in
          let step : made (q ∷ qs) s ≡ made qs next = rw ok refl in
          subst (λ r. All (λ p. exist sys r.1 p ≡ true) (q ∷ qs)) (sym step)
            (made-kept qs q next (make-exist q s ok), made-exist qs next (rw ok at e))
      | inr bad ↦ absurd (ground (arith, bad))
    ]

  make-failed :
      (path : List ℕ) (s : S)
      → (make sys calls path s).0 ≡ false
      → (exist sys s path ≡ false) × (make sys calls path s ≡ calls.mkdir s path)
  unfolding make
  make-failed path s e = elim (Bool-cases (exist sys s path)) [
    | inl there ↦ absurd (ground (arith, there))
    | inr absent ↦ (absent, rw absent refl)
  ]

  failed-pair : (r : Bool × S) → r.0 ≡ false → r ≡ (false, r.1)
  failed-pair (b, t) e = ap (λ c. (c, t)) e

  -- The call of mkdir that fails, in the state that the paths before it leave.
  made-failed :
      (qs : List (List ℕ)) (s : S)
      → (made qs s).0 ≡ false
      → (before : List (List ℕ)) × (q : List ℕ) × (after : List (List ℕ)) × (u : S) × (qs
          ≡ before ++ q ∷ after)
        × (made before s ≡ (true, u))
        × (exist sys u q ≡ false)
        × (calls.mkdir u q ≡ (false, (made qs s).1))
  made-failed [] s e = cc
  made-failed (q ∷ qs) s e = elim (Bool-cases (make sys calls q s).0) [
    | inl ok ↦
        let (before, p, after, u, split, run, absent, failed) =
          made-failed qs (make sys calls q s).1 (rw ok at e) in
        (q ∷ before, p, after, u, ap (λ ps. q ∷ ps) split, rw ok run, absent, rw ok failed)
    | inr bad ↦
        let (absent, is) = make-failed q s bad in
        (
          [],
          q,
          qs,
          s,
          refl,
          refl,
          absent,
          sym is ∙ failed-pair (make sys calls q s) bad ∙ rw bad refl,
        )
  ]

-- For a path of other than one character, of fewer than 2^64 - 1, and with no part spelled "NULL",
-- `Directory::create` ends. Where it returns true, every directory on the way to the path exists; where
-- it returns false, it has stopped at one on the way: those before it exist, it does not, and the call of
-- mkdir for it was the last and has failed. A call of mkdir that succeeds makes its directory, and none
-- removes another.
pub make_all-exist :
    {S : Type 0} (sys : Sys S) (calls : DirCalls S) (makes : MakesDirs sys calls) (path : List ℕ)
    (s : S)
    → length path ≢ 1
    → length path < npos
    → is_plain (components path) ≡ true
    → (b : Bool) × (t : S) × (make_all sys calls path s ≡ returns (b, t))
      × (b ≡ true → All (λ q. exist sys t q ≡ true) (prefixes (root_of path) (components path)))
      × (b ≡ false → StopsAt sys calls (prefixes (root_of path) (components path)) t)
unfolding make_all
make_all-exist sys calls makes path s one small plain =
    let dirs = prefixes (root_of path) (components path) in
    let loop =
      make_loop-made sys calls (suc (length path)) (begin path) (components path) (root_of path) s
        (omega (arith, length-components path)) (begin-Shows path one small) plain in
    (
      (made sys calls dirs s).0,
      (made sys calls dirs s).1,
      rw (root_name_lem path, loop) refl,
      made-exist sys calls makes dirs s,
      λ e.
          let (before, q, after, u, split, run, absent, failed) = made-failed sys calls dirs s e in
          let there = made-exist sys calls makes before s (ap (λ r. r.0) run) in
          (
            before,
            q,
            after,
            u,
            split,
            subst (λ r. All (λ d. exist sys r.1 d ≡ true) before) run there,
            absent,
            failed,
          ),
    )
