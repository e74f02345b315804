-- ===== src/Windows.antt =====
-- `class File` of src/windows/file.cc, over the calls of Windows that it makes.
pub mod Positions
pub mod Condition
pub mod Thread
pub mod Process
pub mod Directory
mod Tests
use ckcore.Base.{
  ℕ, zero, suc, ◌+◌, ◌-◌, ◌*◌, ◌/◌, ◌%◌, ◌^◌, Bool, true, false, not, ◌&&◌, ◌||◌, Option, none,
  some, List, [], ◌==◌, if◌then◌else◌,
}
use ckcore.Files.{
  Attempt, value, threw, File, FileMode, open_read, open_write, open_readwrite, FileWhence,
  file_current, file_begin, file_end, test,
}

-- How a file is opened: what is asked for, and whether it is made anew.
pub data Access : Type 0 where
  generic_read generic_write : Access

pub data Disposition : Type 0 where
  open_existing create_always : Disposition

-- The two halves of a 64-bit number that a call gives, and the last error.
pub record Large : Type 0 where
  pub low_part : ℕ
  pub high_part : ℕ
  pub last_error : ℕ

-- The calls of Windows, over a state of the system. `create_file` is told whether others may write, and
-- `none` is an invalid handle, or a failure of a read or a write. Attributes and halves have 32 bits.
pub record Win (S : Type 0) : Type 0 where
  pub create_file : S → List ℕ → Access → Bool → Disposition → Option ℕ × S
  pub close_handle : S → ℕ → Bool × S
  pub set_file_pointer : S → ℕ → ℕ → ℕ → FileWhence → Large × S
  pub get_file_size : S → ℕ → Large
  pub read_file : S → ℕ → ℕ → Option (List ℕ) × S
  pub write_file : S → ℕ → List ℕ → Option ℕ × S
  pub get_file_attributes : S → List ℕ → ℕ
  pub delete_file : S → List ℕ → Bool × S
  pub move_file : S → List ℕ → List ℕ → Bool × S

-- INVALID_SET_FILE_POINTER, INVALID_FILE_SIZE and INVALID_FILE_ATTRIBUTES.
abbrev pub invalid : ℕ
invalid = 2 ^ 32 - 1

unfoldable pub access_of : FileMode → Access
access_of open_read = generic_read
access_of open_write = generic_write
access_of open_readwrite = generic_write

unfoldable pub disposition_of : FileMode → Disposition
disposition_of open_read = open_existing
disposition_of open_write = create_always
disposition_of open_readwrite = open_existing

-- `QuadPart`, unless the low part tells of an error.
unfoldable pub quad_part : Large → Attempt ℕ
quad_part li =
    if (li.low_part == invalid) && not (li.last_error == 0)
    then threw
    else value (li.low_part + li.high_part * 2 ^ 32)

-- FILE_ATTRIBUTE_DIRECTORY, FILE_ATTRIBUTE_HIDDEN and FILE_ATTRIBUTE_READONLY are bits 4, 1 and 0.
unfoldable pub has_bit : ℕ → ℕ → Bool
has_bit bit attr = (attr / 2 ^ bit) % 2 == 1

module _ {S : Type 0} (win : Win S) where
  unfoldable pub close : File → S → Bool × File × S
  close f s = elim f.handle [
    | none ↦ (false, f, s)
    | some h ↦
        let r = win.close_handle s h in
        if r.0 then (true, record f { handle = none }, r.1) else (false, f, r.1)
  ]

  -- False stands for an exception.
  unfoldable pub open2 : FileMode → File → S → Bool × File × S
  open2 mode f s =
      let c = if test f then close f s else (true, f, s) in
      if c.0
      then (let r = win.create_file c.2 f.path (access_of mode) false (disposition_of mode) in
          (test (record f { handle = r.0 }), record c.1 { handle = r.0 }, r.1))
      else (false, c.1, c.2)

  unfoldable pub seek2 : File → S → ℕ → FileWhence → Attempt ℕ × S
  seek2 f s distance whence = elim f.handle [
    | none ↦ (threw, s)
    | some h ↦
        let r = win.set_file_pointer s h (distance % 2 ^ 32) (distance / 2 ^ 32) whence in
        (quad_part r.0, r.1)
  ]

  unfoldable pub tell2 : File → S → Attempt ℕ × S
  tell2 f s = elim f.handle [
    | none ↦ (threw, s)
    | some h ↦ let r = win.set_file_pointer s h 0 0 file_current in (quad_part r.0, r.1)
  ]

  -- The count becomes a number of 32 bits.
  unfoldable pub read : File → S → ℕ → Option (List ℕ) × S
  read f s count = elim f.handle [ none ↦ (none, s) | some h ↦ win.read_file s h (count % 2 ^ 32) ]

  unfoldable pub exist_at : S → List ℕ → Bool
  exist_at s path =
      let attr = win.get_file_attributes s path in not (attr == invalid) && not (has_bit 4 attr)

  unfoldable pub remove_at : S → List ℕ → Bool × S
  remove_at s path = win.delete_file s path

  unfoldable pub remove : File → S → Bool × File × S
  remove f s = let c = close f s in let d = remove_at c.2 f.path in (d.0, c.1, d.1)

  unfoldable pub rename : File → S → List ℕ → Bool × File × S
  rename f s new_path =
      if exist_at s new_path
      then (false, f, s)
      else (let c = close f s in
          let r = win.move_file c.2 f.path new_path in
          if r.0 then (true, record c.1 { path = new_path }, r.1) else (false, c.1, r.1))

  unfoldable pub rename_at : S → List ℕ → List ℕ → Bool × S
  rename_at s old_path new_path =
      if exist_at s new_path then (false, s) else win.move_file s old_path new_path

  unfoldable pub access_at : S → List ℕ → FileMode → Bool
  access_at s path open_read = exist_at s path
  access_at s path open_write =
      let attr = win.get_file_attributes s path in not (attr == invalid) && not (has_bit 0 attr)
  access_at s path open_readwrite =
      let attr = win.get_file_attributes s path in not (attr == invalid) && not (has_bit 0 attr)

  unfoldable pub hidden : S → List ℕ → Bool
  hidden s path =
      let attr = win.get_file_attributes s path in not (attr == invalid) && has_bit 1 attr

  -- The size of a file by its name, which is opened for the time being.
  unfoldable pub size_at : S → List ℕ → Attempt ℕ × S
  size_at s path =
      let r = win.create_file s path generic_read true open_existing in
      elim r.0 [
        | none ↦ (threw, r.1)
        | some h ↦ (quad_part (win.get_file_size r.1 h), (win.close_handle r.1 h).1)
      ]

  -- The static `size` of file.hh, which gives -1 for an exception.
  unfoldable pub size_or : S → List ℕ → ℕ × S
  size_or s path =
      let r = size_at s path in (elim r.0 [ threw ↦ 2 ^ 64 - 1 | value size ↦ size ], r.1)

  unfoldable pub size2 : File → S → Attempt ℕ × S
  size2 f s = elim f.handle [
    | none ↦ let r = size_or s f.path in (value r.0, r.1)
    | some h ↦ (quad_part (win.get_file_size s h), s)
  ]
