-- ===== src/Directory.antt =====
-- `class Directory` of src/unix/directory.cc and its iterator, over the system calls that they make.
pub mod Entries
pub mod Making
mod Tests
use ckcore.Base.{
  ℕ, zero, suc, ◌+◌, ◌/◌, ◌%◌, ◌^◌, Bool, true, false, not, ◌&&◌, ◌||◌, Option, none, some, List,
  [], ◌∷◌, ◌++◌, Outcome, returns, stuck, ◌>>=◌, ◌==◌, if◌then◌else◌, length,
}
use ckcore.Convert.{ui64_to_str2}
use ckcore.Files.{Reply, gives, fails, Stat, Sys}
use ckcore.PathName as PathName
use ckcore.PathName.{same, root_name}

-- The calls that `Sys` of Files has not. A handle of `opendir` is a number, or `none` for NULL.
pub record DirCalls (S : Type 0) : Type 0 where
  pub opendir : S → List ℕ → Option ℕ × S
  pub readdir : S → ℕ → Option (List ℕ) × S
  pub closedir : S → Option ℕ → S
  pub mkdir : S → List ℕ → Bool × S
  pub rmdir : S → List ℕ → Bool × S

-- `dir_handles_` maps the address of an iterator to its handle.
pub record Directory : Type 0 where
  pub dir_path : List ℕ
  pub dir_handles : List (ℕ × Option ℕ)

-- The iterator, with the name of its current entry.
pub record Iterator : Type 0 where
  pub dir_handle : Option ℕ
  pub cur_ent : Option (List ℕ)

unfoldable pub create : List ℕ → Directory
create path = record { dir_path = path; dir_handles = [] }

unfoldable pub is_dot : List ℕ → Bool
is_dot name = same name (b'.' ∷ []) || same name (b'.' ∷ b'.' ∷ [])

-- `dir_handles_.count` and `[]`.
unfoldable pub handle_of : ℕ → List (ℕ × Option ℕ) → Option (Option ℕ)
handle_of address [] = none
handle_of address (entry ∷ entries) =
    let rest = handle_of address entries in if address == entry.0 then some entry.1 else rest

-- `Iterator()`, and `Directory::end`.
unfoldable pub end : Iterator
end = record { dir_handle = none; cur_ent = none }

unfoldable pub deref : Iterator → List ℕ
deref it = elim it.cur_ent [ none ↦ b'N' ∷ b'U' ∷ b'L' ∷ b'L' ∷ [] | some name ↦ name ]

unfoldable pub iter_eq : Iterator → Iterator → Bool
iter_eq a b = elim a.cur_ent [
  | none ↦ elim b.cur_ent [ none ↦ true | some _ ↦ false ]
  | some x ↦ elim b.cur_ent [ none ↦ false | some y ↦ same x y ]
]

unfoldable pub iter_neq : Iterator → Iterator → Bool
iter_neq a b = not (iter_eq a b)

-- `(st_mode & S_IFDIR) > 0`, of the bit 2^14.
unfoldable pub has_dir_bit : Stat → Bool
has_dir_bit st = (st.mode / 2 ^ 14) % 2 == 1

abbrev pub temp_prefix : List ℕ
temp_prefix = b'/' ∷ b't' ∷ b'm' ∷ b'p' ∷ b'/' ∷ b'f' ∷ b'i' ∷ b'l' ∷ b'e' ∷ []

-- `Directory::temp`, by what tmpnam(3) and rand(3) give.
unfoldable pub temp : Option (List ℕ) → ℕ → Outcome Directory
temp (some name) number = returns (create name)
temp none number = do
  digits ← ui64_to_str2 number
  returns (create (temp_prefix ++ (digits ++ (b'.' ∷ b't' ∷ b'm' ∷ b'p' ∷ []))))

module _ {S : Type 0} (sys : Sys S) where
  unfoldable pub exist : S → List ℕ → Bool
  exist s path = elim (sys.stat s path) [ fails errno ↦ false | gives st ↦ has_dir_bit st ]

module _ {S : Type 0} (calls : DirCalls S) where
  unfoldable pub next_loop : ℕ → ℕ → S → Outcome (Option (List ℕ) × S)
  next_loop zero handle s = stuck
  next_loop (suc fuel) handle s =
      let r = calls.readdir s handle in
      elim r.0 [
        | none ↦ returns (none, r.1)
        | some name ↦ elim (is_dot name) [
          | true ↦ next_loop fuel handle r.1
          | false ↦ returns (some name, r.1)
        ]
      ]

  -- `next`, which is called for a handle that is not NULL.
  unfoldable pub next : ℕ → Iterator → S → Outcome (Iterator × S)
  next fuel it s = elim it.dir_handle [
    | none ↦ returns (it, s)
    | some handle ↦ do
      (entry, s') ← next_loop fuel handle s
      returns (record it { cur_ent = entry }, s')
  ]

  -- Both forms of `operator++`.
  unfoldable pub advance : ℕ → Iterator → S → Outcome (Iterator × S)
  advance fuel it s = elim it.cur_ent [ none ↦ returns (it, s) | some _ ↦ next fuel it s ]

  -- `Iterator(dir)` at an address, and `Directory::begin`: a handle that an iterator at this address
  -- has opened is taken again.
  unfoldable pub begin : ℕ → ℕ → Directory → S → Outcome (Iterator × Directory × S)
  begin fuel address dir s = elim (handle_of address dir.dir_handles) [
    | some handle ↦ do
      (it, s') ← next fuel (record { dir_handle = handle; cur_ent = none }) s
      returns (it, dir, s')
    | none ↦
        let r = calls.opendir s dir.dir_path in
        do
          (it, s') ← next fuel (record { dir_handle = r.0; cur_ent = none }) r.1
          returns (it, record dir { dir_handles = (address, r.0) ∷ dir.dir_handles }, s')
  ]

  unfoldable pub close_all : List (ℕ × Option ℕ) → S → S
  close_all [] s = s
  close_all (entry ∷ entries) s = close_all entries (calls.closedir s entry.1)

  -- The destructor.
  unfoldable pub destroy : Directory → S → Directory × S
  destroy dir s = (record dir { dir_handles = [] }, close_all dir.dir_handles s)

  unfoldable pub remove : List ℕ → S → Bool × S
  remove path s = calls.rmdir s path

unfoldable pub unless_failed {ℓ} : {S : Type ℓ} → Bool × S → Outcome (Bool × S) → Outcome (Bool × S)
unless_failed (false, s) rest = returns (false, s)
unless_failed (true, s) rest = rest

module _ {S : Type 0} (sys : Sys S) (calls : DirCalls S) where
  -- One round of `create`: whether the loop goes on.
  unfoldable pub make : List ℕ → S → Bool × S
  make path s = if exist sys s path then (true, s) else calls.mkdir s path

  unfoldable pub make_loop : ℕ → PathName.Iterator → List ℕ → S → Outcome (Bool × S)
  make_loop zero it cur_path s = stuck
  make_loop (suc fuel) it cur_path s = do
    more ← PathName.iter_neq it PathName.end
    elim more [
      | false ↦ returns (true, s)
      | true ↦ do
        part ← PathName.deref it
        let path = cur_path ++ (part ++ (b'/' ∷ []))
        let r = make path s
        unless_failed r (make_loop fuel (PathName.advance it) path r.1)
    ]

  -- `Directory::create`, with a round for each character of the path and one more.
  unfoldable pub make_all : List ℕ → S → Outcome (Bool × S)
  make_all path s = do
    root ← root_name path
    make_loop (suc (length path)) (PathName.begin path) root s
