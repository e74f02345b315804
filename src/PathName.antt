-- ===== src/PathName.antt =====
-- `class Path` of src/path.cc and its iterator, as compiled for Unix. A path is its name, which holds
-- no 0 character, since each comes from a C string.
pub mod Str
pub mod Components
pub mod Walk
pub mod Equal
pub mod Cut
pub mod Names
pub mod Delims
pub mod Join
mod Tests
use ckcore.Base.{
  ℕ, zero, suc, ◌+◌, ◌^◌, ◌-◌, Bool, true, false, not, ◌&&◌, ◌||◌, Option, none, some, List, [],
  ◌∷◌, ◌++◌, Outcome, returns, fault, stuck, ◌>>=◌, ltb, ◌==◌, if◌then◌else◌, length, take, add64,
  sub64,
}
use ckcore.PathName.Str.{npos, find, rfind, substr, at}

abbrev pub delim : ℕ
delim = b'/'

-- `Path::Iterator`. `name` is the name of the path behind `path_`, which `Iterator()` leaves unset.
pub record Iterator : Type 0 where
  pub at_end : Bool
  pub pos_start : ℕ
  pub pos_end : ℕ
  pub name : List ℕ

-- The search of `next`: a delimiter in front of the whole name is stepped over.
unfoldable pub search_delim : Iterator → ℕ × ℕ
search_delim it =
    let found = find it.name delim (add64 it.pos_start 1) in
    if found == 0
    then (add64 it.pos_start 1, find it.name delim (add64 (add64 it.pos_start 1) 1))
    else (it.pos_start, found)

unfoldable pub next : Iterator → Iterator
next it =
    if (it.pos_end == length it.name) || (it.pos_end == sub64 (length it.name) 1)
    then record it { at_end = true }
    else (let found = search_delim it in
        record it {
          pos_start = found.0;
          pos_end = if found.1 == npos then length it.name else found.1;
        })

-- `Iterator(path)`, and `Path::begin`.
unfoldable pub begin : List ℕ → Iterator
begin name = next (record { at_end = false; pos_start = npos; pos_end = 0; name = name })

-- `Iterator()`, and `Path::end`: its unset `path_` is never followed, since it stands at the end.
unfoldable pub end : Iterator
end = record { at_end = true; pos_start = npos; pos_end = 0; name = [] }

unfoldable pub deref : Iterator → Outcome (List ℕ)
deref it =
    if it.at_end
    then returns (b'N' ∷ b'U' ∷ b'L' ∷ b'L' ∷ [])
    else substr it.name (add64 it.pos_start 1) (sub64 (sub64 it.pos_end it.pos_start) 1)

-- Both forms of `operator++`.
unfoldable pub advance : Iterator → Iterator
advance it = next (record it { pos_start = it.pos_end })

-- `operator==` of two strings.
unfoldable pub same : List ℕ → List ℕ → Bool
same [] [] = true
same [] (y ∷ ys) = false
same (x ∷ xs) [] = false
same (x ∷ xs) (y ∷ ys) = (x == y) && same xs ys

-- `Iterator::operator==`; `operator!=` is its negation.
unfoldable pub iter_eq : Iterator → Iterator → Outcome Bool
iter_eq a b =
    if a.at_end && b.at_end then returns true else (do x ← deref a; y ← deref b; returns (same x y))

unfoldable pub iter_neq : Iterator → Iterator → Outcome Bool
iter_neq a b =
    if a.at_end && b.at_end
    then returns false
    else (do x ← deref a; y ← deref b; returns (not (same x y)))

-- The loop of `Path::operator==`, and the return after it. `&&` looks to its right when its left
-- holds.
unfoldable pub eq_loop : ℕ → Iterator → Iterator → Outcome Bool
eq_loop zero a b = stuck
eq_loop (suc fuel) a b = do
  more_a ← iter_neq a end
  more ← (if more_a then iter_neq b end else returns false)
  elim more [
    | true ↦ do
      differ ← iter_neq a b
      elim differ [ true ↦ returns false | false ↦ eq_loop fuel (advance a) (advance b) ]
    | false ↦ do done_a ← iter_eq a end; (if done_a then iter_eq b end else returns false)
  ]

-- `Path::operator==`. A round moves past at least one character of the name.
unfoldable pub path_eq : List ℕ → List ℕ → Outcome Bool
path_eq p q = eq_loop (length p + 2) (begin p) (begin q)

unfoldable pub path_neq : List ℕ → List ℕ → Outcome Bool
path_neq p q = do equal ← path_eq p q; returns (not equal)

unfoldable pub root_name : List ℕ → Outcome (List ℕ)
root_name name =
    if ltb 0 (length name)
    then (do first ← at name 0; returns (if first == delim then delim ∷ [] else []))
    else returns []

unfoldable pub dir_name : List ℕ → Outcome (List ℕ)
dir_name name =
    let end = sub64 (length name) 1 in
    let last = rfind name delim npos in
    let found = if last == end then rfind name delim (sub64 end 1) else last in
    if found == npos then returns [] else substr name 0 (add64 found 1)

unfoldable pub base_name : List ℕ → Outcome (List ℕ)
base_name name =
    let end = sub64 (length name) 1 in
    let last = rfind name delim npos in
    let end' = if last == end then sub64 end 1 else end in
    let found = if last == end then rfind name delim end' else last in
    if found == npos
    then substr name 0 (add64 end' 1)
    else substr name (add64 found 1) (sub64 end' found)

unfoldable pub ext_name : List ℕ → Outcome (List ℕ)
ext_name name = do
  base ← base_name name
  let dot = rfind base b'.' npos
  (if dot == npos then returns [] else substr base (add64 dot 1) npos)

-- The name after the fit of `p` behind `name`: one delimiter too many is dropped, and one is put
-- where there is none. The end of `operator+` and the whole of `operator+=`.
unfoldable pub append_name : List ℕ → List ℕ → Outcome (List ℕ)
append_name name p = do
  let end = sub64 (length name) 1
  last ← at name end
  first ← at p 0
  let delim_p1 = last == delim
  let delim_p2 = first == delim
  let fitted =
      if delim_p1 && delim_p2
      then take end name
      else (if not delim_p1 && not delim_p2 then name ++ (delim ∷ []) else name)
  returns (fitted ++ p)

-- `Path::operator+`: both early returns give the second name.
unfoldable pub concat : List ℕ → List ℕ → Outcome (List ℕ)
concat name p =
    if ltb (length name) 1
    then returns p
    else (if ltb (length p) 1 then returns p else append_name name p)
