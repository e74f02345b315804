-- ===== src/PathName/Names.antt =====
-- `dir_name` and `base_name` cut a path in two.
use ckcore.Base.{
  ℕ, suc, ◌<◌, ◌≡◌, ◌⊎◌, refl, Option, none, some, List, [], ◌∷◌, ◌++◌, returns, length, take, inl,
  inr, take-append-drop,
}
use ckcore.PathName.{delim, dir_name, base_name}
use ckcore.PathName.Str.{npos, last_index_of}
use ckcore.PathName.Cut.{body, dir_cut, base_cut, cuts, last-here, last-behind}

-- A directory's name is empty or ends with a delimiter.
abbrev pub IsDir : List ℕ → Type 0
IsDir d = (d ≡ []) ⊎ ((front : List ℕ) × (d ≡ front ++ (delim ∷ [])))

cut-parts :
    (s : List ℕ) (o : Option ℕ)
    → last_index_of delim s ≡ o
    → (dir_cut s o ++ base_cut s o ≡ s)
      × IsDir (dir_cut s o)
      × (last_index_of delim (base_cut s o) ≡ none)
cut-parts s none n = (refl, inl refl, n)
cut-parts s (some i) n =
    (take-append-drop (suc i) s, inr (take i s, last-here delim s i n), last-behind delim s i n)

-- A name of fewer than 2^64 - 1 characters is cut by `dir_name` and `base_name` into two names that
-- give it back when they are put together, but for a delimiter at the end of a longer name than "/".
-- The first is empty or ends with a delimiter, and no delimiter is in the second.
pub dir_name-base_name :
    (name : List ℕ)
    → length name < npos
    → (dir : List ℕ) × (base : List ℕ) × (dir_name name ≡ returns dir)
      × (base_name name ≡ returns base)
      × (dir ++ base ≡ body name)
      × IsDir dir
      × (last_index_of delim base ≡ none)
dir_name-base_name name w =
    let s = body name in
    let o = last_index_of delim s in
    let c = cuts name w in
    let p = cut-parts s o refl in (dir_cut s o, base_cut s o, c.0, c.1, p.0, p.1, p.2)
