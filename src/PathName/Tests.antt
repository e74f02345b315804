-- ===== src/PathName/Tests.antt =====
-- Runs of the path functions, and their theorems at concrete inputs.
use ckcore.Base.{ℕ, ◌≡◌, ◌↔◌, refl, Bool, true, none, List, [], ◌∷◌, ◌++◌, returns, arith}
use ckcore.PathName.{
  delim, search_delim, next, begin, end, deref, advance, same, iter_eq, iter_neq, eq_loop, path_eq,
  root_name, dir_name, base_name, ext_name, append_name, concat,
}
use ckcore.PathName.Str.{index_of, last_index_of, find, rfind, substr, at}
use ckcore.PathName.Components.{pieces, components}
use ckcore.PathName.Walk.{Shows, begin-Shows}
use ckcore.PathName.Equal.{is_plain, path_eq-components, path_eq-short}
use ckcore.PathName.Cut.{body}
use ckcore.PathName.Names.{IsDir, dir_name-base_name}
use ckcore.PathName.Join.{concat-components, concat_loses}

-- "ab/c/", "/ab//c" and "ab/c.d".
abbrev closed : List ℕ
closed = b'a' ∷ b'b' ∷ b'/' ∷ b'c' ∷ b'/' ∷ []

abbrev rooted : List ℕ
rooted = b'/' ∷ b'a' ∷ b'b' ∷ b'/' ∷ b'c' ∷ []

abbrev dotted : List ℕ
dotted = b'a' ∷ b'b' ∷ b'/' ∷ b'c' ∷ b'.' ∷ b'd' ∷ []

directory_of_closed : dir_name closed ≡ returns (b'a' ∷ b'b' ∷ b'/' ∷ [])
unfolding dir_name rfind last_index_of substr
directory_of_closed = refl

extension_of_dotted : ext_name dotted ≡ returns (b'd' ∷ [])
unfolding ext_name base_name rfind last_index_of substr
extension_of_dotted = refl

root_of_rooted : root_name rooted ≡ returns (b'/' ∷ [])
unfolding root_name at
root_of_rooted = refl

closed_is_rooted : path_eq closed rooted ≡ returns true
unfolding path_eq eq_loop iter_neq iter_eq deref begin end next search_delim advance same find
    index_of substr
closed_is_rooted = refl

-- A part spelled like the end of the iterator ends the comparison.
null_is_empty : path_eq (b'N' ∷ b'U' ∷ b'L' ∷ b'L' ∷ b'/' ∷ b'x' ∷ []) [] ≡ returns true
unfolding path_eq eq_loop iter_neq iter_eq deref begin end next search_delim advance same find
    index_of substr
null_is_empty = refl

begin-Shows_example : Shows (begin closed) (components closed)
begin-Shows_example = begin-Shows closed (omega arith) (omega arith)

plain_closed : is_plain (components closed) ≡ true
unfolding components pieces same
plain_closed = refl

plain_rooted : is_plain (components rooted) ≡ true
unfolding components pieces same
plain_rooted = refl

path_eq-components_example :
    (b : Bool) × (path_eq closed rooted ≡ returns b)
    × ((b ≡ true) ↔ (components closed ≡ components rooted))
path_eq-components_example =
    path_eq-components closed rooted (omega arith, omega arith) (omega arith, omega arith)
      plain_closed plain_rooted

path_eq-short_run : path_eq (b'a' ∷ []) (b'b' ∷ []) ≡ returns true
path_eq-short_run = path_eq-short (b'a' ∷ []) (b'b' ∷ []) (omega arith) (omega arith)

dir_name-base_name_example :
    (dir : List ℕ) × (base : List ℕ) × (dir_name closed ≡ returns dir)
    × (base_name closed ≡ returns base)
    × (dir ++ base ≡ body closed)
    × IsDir dir
    × (last_index_of delim base ≡ none)
dir_name-base_name_example = dir_name-base_name closed (omega arith)

concat-components_example :
    (r : List ℕ) × (concat closed rooted ≡ returns r)
    × (append_name closed rooted ≡ returns r)
    × (components r ≡ components closed ++ components rooted)
concat-components_example =
    concat-components closed rooted (omega arith) (omega arith) (omega arith)

concat_loses_run :
    (concat closed [] ≡ returns [])
    × (r : List ℕ) × (append_name closed [] ≡ returns r)
    × (components r ≡ components closed)
concat_loses_run = concat_loses closed (omega arith) (omega arith)
