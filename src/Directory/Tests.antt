-- ===== src/Directory/Tests.antt =====
-- The theorems on directories, over a system with one directory, whose entries are read one by one.
use ckcore.Base.{
  ℕ, ◌≡◌, refl, Bool, true, false, none, some, List, [], ◌∷◌, returns, arith, inl, inr, sym, ◌∙◌,
  Bool-cases, All,
}
use ckcore.Files.{Sys, fails, gives}
use ckcore.PathName.{same}
use ckcore.PathName.Components.{components, pieces}
use ckcore.Directory.{
  DirCalls, Directory, Iterator, create, handle_of, is_dot, begin, exist, has_dir_bit, make_all,
}
use ckcore.Directory.Entries.{Reads, Shows, visible, first, others, begin-visible}
use ckcore.Directory.Making.{MakesDirs, StopsAt, root_of, prefixes, make_all-exist}

-- The names of the directories that there are, and the entries that are to come.
abbrev Disk : Type 0
Disk = List (List ℕ) × List (List ℕ)

abbrev has_name : List (List ℕ) → List ℕ → Bool
has_name [] path = false
has_name (x ∷ xs) path = elim (same path x) [ true ↦ true | false ↦ has_name xs path ]

abbrev linux : Sys Disk
linux = record {
  open_file = λ s path flags. (fails 2, s);
  close = λ s fd. (true, s);
  set_lock = λ s fd to_write. (none, s);
  lseek = λ s fd d whence. (fails 29, s);
  read = λ s fd n. (none, s);
  write = λ s fd bytes. (none, s);
  fstat = λ s fd. fails 9;
  stat = λ s path. elim (has_name s.0 path) [
    | true ↦ gives (record { mode = 16384; size = 0 })
    | false ↦ fails 2
  ];
  access = λ s path mode. true;
  unlink = λ s path. (false, s);
  rename = λ s old_path new_path. (false, s);
}

abbrev calls : DirCalls Disk
calls = record {
  opendir = λ s path. (some 4, s);
  readdir = λ s handle. (first s.1, (s.0, others s.1));
  closedir = λ s handle. s;
  mkdir = λ s path. (true, (path ∷ s.0, s.1));
  rmdir = λ s path. (false, s);
}

abbrev disk : Disk
disk = ([], (b'.' ∷ []) ∷ (b'a' ∷ []) ∷ (b'.' ∷ b'.' ∷ []) ∷ (b'b' ∷ []) ∷ [])

abbrev reads : Reads calls
reads = record { rest = λ s handle. s.1; reads_lem = λ s handle. (refl, refl) }

abbrev home : Directory
home = create (b'h' ∷ [])

two_visible : visible disk.1 ≡ (b'a' ∷ []) ∷ (b'b' ∷ []) ∷ []
unfolding visible is_dot same
two_visible = refl

new_address : handle_of 1 home.dir_handles ≡ none
unfolding handle_of create
new_address = refl

begin-visible_example :
    (it : Iterator) × (dir' : Directory) × (s' : Disk) × (begin calls 9 1 home disk
      ≡ returns (it, dir', s'))
    × Shows calls 9 (visible disk.1) it s'
    × (handle_of 1 dir'.dir_handles ≡ some (some 4))
begin-visible_example =
    begin-visible calls reads 9 1 4 home disk disk (inl (new_address, refl)) (omega arith)

same_refl : (a : List ℕ) → same a a ≡ true
unfolding same
same_refl [] = refl
same_refl (x ∷ xs) = ground (arith, same_refl xs)

exist-has_name : (s : Disk) (path : List ℕ) → exist linux s path ≡ has_name s.0 path
unfolding exist has_dir_bit
exist-has_name s path = elim (Bool-cases (has_name s.0 path)) [
  | inl e ↦ rw (e, exist) refl
  | inr e ↦ rw (e, exist) refl
]

made_there : (s : Disk) (path : List ℕ) → exist linux (calls.mkdir s path).1 path ≡ true
made_there s path = exist-has_name (path ∷ s.0, s.1) path ∙ rw (same_refl path, has_name) refl

kept_there :
    (s : Disk) (path other : List ℕ)
    → exist linux s other ≡ true
    → exist linux (calls.mkdir s path).1 other ≡ true
kept_there s path other e =
    exist-has_name (path ∷ s.0, s.1) other ∙ elim (Bool-cases (same other path)) [
      | inl there ↦ rw (there, has_name) refl
      | inr absent ↦ rw (absent, has_name) (sym (exist-has_name s other) ∙ e)
    ]

abbrev makes : MakesDirs linux calls
makes = record { made_lem = λ s path e. made_there s path; kept_lem = kept_there }

abbrev path : List ℕ
path = b'/' ∷ b'a' ∷ b'/' ∷ b'b' ∷ []

make_all-exist_example :
    (b : Bool) × (t : Disk) × (make_all linux calls path disk ≡ returns (b, t))
    × (b ≡ true → All (λ q. exist linux t q ≡ true) (prefixes (root_of path) (components path)))
    × (b ≡ false → StopsAt linux calls (prefixes (root_of path) (components path)) t)
unfolding components pieces same
make_all-exist_example = make_all-exist linux calls makes path disk (omega arith) (omega arith) refl
