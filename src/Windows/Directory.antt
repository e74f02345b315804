-- ===== src/Windows/Directory.antt =====
-- The iterator of `class Directory` of src/windows/directory.cc, over the calls of Windows that it makes.
pub mod Entries
use ckcore.Base.{
  ℕ, zero, suc, sub64, Bool, true, false, not, ◌&&◌, ◌||◌, Option, none, some, List, [], ◌∷◌, ◌++◌,
  Outcome, returns, stuck, fault, ◌>>=◌, ◌==◌, if◌then◌else◌, length,
}
use ckcore.Directory.{Directory, is_dot, handle_of}
use ckcore.PathName.{same}
use ckcore.PathName.Str.{at}
use ckcore.Windows.{has_bit, invalid}

-- The calls. `find_first` gives a handle and the first name, or `none` for an invalid handle, and
-- `find_next` the next name.
pub record DirCalls (S : Type 0) : Type 0 where
  pub find_first : S → List ℕ → Option (ℕ × List ℕ) × S
  pub find_next : S → ℕ → Option (List ℕ) × S
  pub find_close : S → Option ℕ → S
  pub get_file_attributes : S → List ℕ → ℕ
  pub create_directory : S → List ℕ → Bool × S
  pub remove_directory : S → List ℕ → Bool × S

-- `cur_ent` is the name in `cur_ent_`.
pub record Iterator : Type 0 where
  pub dir_handle : Option ℕ
  pub at_end : Bool
  pub cur_ent : List ℕ

unfoldable pub end : Iterator
end = record { dir_handle = none; at_end = true; cur_ent = [] }

unfoldable pub deref : Iterator → List ℕ
deref it = if it.at_end then b'N' ∷ b'U' ∷ b'L' ∷ b'L' ∷ [] else it.cur_ent

unfoldable pub iter_eq : Iterator → Iterator → Bool
iter_eq a b =
    if a.at_end && b.at_end
    then true
    else (if (a.at_end && not b.at_end) || (not a.at_end && b.at_end)
        then false
        else same a.cur_ent b.cur_ent)

unfoldable pub iter_neq : Iterator → Iterator → Bool
iter_neq a b = not (iter_eq a b)

-- The pattern of a search: the path with a delimiter and a star.
unfoldable pub pattern_of : List ℕ → Outcome (List ℕ)
pattern_of path = do
  last ← at path (sub64 (length path) 1)
  let path' = if not (last == b'/') && not (last == b'\\') then path ++ (b'/' ∷ []) else path
  returns (path' ++ (b'*' ∷ []))

module _ {S : Type 0} (calls : DirCalls S) where
  -- FILE_ATTRIBUTE_DIRECTORY is bit 4.
  unfoldable pub exist : S → List ℕ → Bool
  exist s path =
      let attr = calls.get_file_attributes s path in not (attr == invalid) && has_bit 4 attr

  unfoldable pub next_loop : ℕ → ℕ → Iterator → S → Outcome (Iterator × S)
  next_loop zero handle it s = stuck
  next_loop (suc fuel) handle it s =
      let r = calls.find_next s handle in
      elim r.0 [
        | none ↦ returns (record it { at_end = true }, r.1)
        | some name ↦ elim (is_dot name) [
          | true ↦ next_loop fuel handle (record it { at_end = false; cur_ent = name }) r.1
          | false ↦ returns (record it { at_end = false; cur_ent = name }, r.1)
        ]
      ]

  unfoldable pub next : ℕ → Iterator → S → Outcome (Iterator × S)
  next fuel it s = elim it.dir_handle [
    | none ↦ returns (record it { at_end = true }, s)
    | some handle ↦ next_loop fuel handle it s
  ]

  unfoldable pub advance : ℕ → Iterator → S → Outcome (Iterator × S)
  advance fuel it s = if it.at_end then returns (it, s) else next fuel it s

  -- From the search for the first entry on, for an iterator whose address has no handle.
  unfoldable pub opened :
      ℕ → ℕ → Directory → Option (ℕ × List ℕ) → S → Outcome (Iterator × Directory × S)
  opened fuel address dir none s =
      returns (end, record dir { dir_handles = (address, none) ∷ dir.dir_handles }, s)
  opened fuel address dir (some (handle, name)) s =
      let it : Iterator = record { dir_handle = some handle; at_end = false; cur_ent = name } in
      let dir' : Directory = record dir {
        dir_handles = (address, some handle) ∷ dir.dir_handles;
      } in
      elim (is_dot name) [
        | true ↦ do (it', s') ← next_loop fuel handle it s; returns (it', dir', s')
        | false ↦ returns (it, dir', s)
      ]

  unfoldable pub open_first : ℕ → ℕ → Directory → S → Outcome (Iterator × Directory × S)
  open_first fuel address dir s = do
    pattern ← pattern_of dir.dir_path
    let r = calls.find_first s pattern
    opened fuel address dir r.0 r.1

  unfoldable pub close_all : List (ℕ × Option ℕ) → S → S
  close_all [] s = s
  close_all (entry ∷ entries) s = close_all entries (calls.find_close s entry.1)

  unfoldable pub destroy : Directory → S → Directory × S
  destroy dir s = (record dir { dir_handles = [] }, close_all dir.dir_handles s)

  unfoldable pub remove : S → List ℕ → Bool × S
  remove s path = calls.remove_directory s path

  -- One round of `create`: whether the loop goes on.
  unfoldable pub make : List ℕ → S → Bool × S
  make path s = if exist s path then (true, s) else calls.create_directory s path
