-- ===== src/Files.antt =====
-- `class File` of src/unix/file.cc, over the system calls that it makes.
pub mod Position
pub mod Opening
pub mod InStream
pub mod Quiet
pub mod Naming
mod Tests
use ckcore.Base.{
  ℕ, ◌+◌, ◌-◌, ◌/◌, ◌%◌, ◌^◌, Bool, true, false, not, ◌&&◌, ◌||◌, Option, none, some, List, [],
  Outcome, returns, ◌>>=◌, ltb, ◌==◌, if◌then◌else◌, length,
}
use ckcore.PathName.{base_name}
use ckcore.PathName.Str.{at}

-- What a system call gives, or its `errno`.
pub data Reply {ℓ} (A : Type ℓ) : Type ℓ where
  gives : A → Reply A
  fails : ℕ → Reply A

-- What a method that may throw comes to.
pub data Attempt {ℓ} (A : Type ℓ) : Type ℓ where
  value : A → Attempt A
  threw : Attempt A

-- `File::FileMode` and `File::FileWhence`.
pub data FileMode : Type 0 where
  open_read open_write open_readwrite : FileMode

pub data FileWhence : Type 0 where
  file_current file_begin file_end : FileWhence

-- The flags that the class gives to open(2).
pub data OpenFlags : Type 0 where
  rdonly creat_wronly rdwr wronly : OpenFlags

pub record Stat : Type 0 where
  pub mode : ℕ
  pub size : ℕ

-- The system calls, over a state of the system. A descriptor is a number; `none` is a return of -1,
-- and for `set_lock` a return of 0. A distance is a 64-bit number in two's complement.
pub record Sys (S : Type 0) : Type 0 where
  pub open_file : S → List ℕ → OpenFlags → Reply ℕ × S
  pub close : S → ℕ → Bool × S
  pub set_lock : S → ℕ → Bool → Option ℕ × S
  pub lseek : S → ℕ → ℕ → FileWhence → Reply ℕ × S
  pub read : S → ℕ → ℕ → Option (List ℕ) × S
  pub write : S → ℕ → List ℕ → Option ℕ × S
  pub fstat : S → ℕ → Reply Stat
  pub stat : S → List ℕ → Reply Stat
  pub access : S → List ℕ → FileMode → Bool
  pub unlink : S → List ℕ → Bool × S
  pub rename : S → List ℕ → List ℕ → Bool × S

-- The fields of the class: `handle` is `none` for -1.
pub record File : Type 0 where
  pub handle : Option ℕ
  pub path : List ℕ

unfoldable pub create : List ℕ → File
create path = record { handle = none; path = path }

-- -1 as a 64-bit number.
abbrev pub minus_one : ℕ
minus_one = 2 ^ 64 - 1

-- The result of lseek(2) as an `int`, and that as a 64-bit number.
abbrev pub widen : ℕ → ℕ
widen r = if ltb r (2 ^ 31) then r else r + (2 ^ 64 - 2 ^ 32)

unfoldable pub as_int : Reply ℕ → ℕ
as_int (gives n) = widen (n % 2 ^ 32)
as_int (fails errno) = minus_one

-- EACCES and EAGAIN.
abbrev pub is_held : ℕ → Bool
is_held errno = (errno == 13) || (errno == 11)

unfoldable pub flags_of : FileMode → OpenFlags
flags_of open_read = rdonly
flags_of open_write = creat_wronly
flags_of open_readwrite = rdwr

abbrev pub wants_write : FileMode → Bool
wants_write open_read = false
wants_write open_write = true
wants_write open_readwrite = true

-- `(st_mode & S_IFDIR) == 0`, of the bit 2^14.
unfoldable pub is_plain : Stat → Bool
is_plain st = (st.mode / 2 ^ 14) % 2 == 0

unfoldable pub test : File → Bool
test f = elim f.handle [ none ↦ false | some _ ↦ true ]

module _ {S : Type 0} (sys : Sys S) where
  unfoldable pub close : File → S → Bool × File × S
  close f s = elim f.handle [
    | none ↦ (false, f, s)
    | some fd ↦
        let r = sys.close s fd in
        if r.0 then (true, record f { handle = none }, r.1) else (false, f, r.1)
  ]

  -- After the lock was asked for: of an error, only one that says that another holds it counts.
  unfoldable pub locked : Option ℕ → File → S → Bool × File × S
  locked none f s = (true, f, s)
  locked (some errno) f s =
      if is_held errno then (let c = close f s in (false, c.1, c.2)) else (true, f, s)

  unfoldable pub opened : Reply ℕ → FileMode → File → S → Bool × File × S
  opened (fails errno) mode f s = (false, record f { handle = none }, s)
  opened (gives fd) mode f s =
      let l = sys.set_lock s fd (wants_write mode) in locked l.0 (record f { handle = some fd }) l.1

  -- `open2`: false stands for an exception. A file that is open is closed first.
  unfoldable pub open2 : FileMode → File → S → Bool × File × S
  open2 mode f s =
      let c = if test f then close f s else (true, f, s) in
      if c.0
      then (let r = sys.open_file c.2 f.path (flags_of mode) in opened r.0 mode c.1 r.1)
      else (false, c.1, c.2)

  unfoldable pub seek2 : File → S → ℕ → FileWhence → Attempt ℕ × S
  seek2 f s distance whence = elim f.handle [
    | none ↦ (threw, s)
    | some fd ↦
        let r = sys.lseek s fd distance whence in
        let ret = as_int r.0 in ((if ret == minus_one then threw else value ret), r.1)
  ]

  -- The test is against 1.
  unfoldable pub tell2 : File → S → Attempt ℕ × S
  tell2 f s = elim f.handle [
    | none ↦ (threw, s)
    | some fd ↦
        let r = sys.lseek s fd 0 file_current in
        let ret = as_int r.0 in ((if ret == 1 then threw else value ret), r.1)
  ]

  unfoldable pub read : File → S → ℕ → Option (List ℕ) × S
  read f s count = elim f.handle [ none ↦ (none, s) | some fd ↦ sys.read s fd count ]

  unfoldable pub write : File → S → List ℕ → Option ℕ × S
  write f s bytes = elim f.handle [ none ↦ (none, s) | some fd ↦ sys.write s fd bytes ]

  abbrev pub plain_reply : Reply Stat → Bool
  plain_reply (fails errno) = false
  plain_reply (gives st) = is_plain st

  -- The static `exist`, and the method.
  unfoldable pub exist_at : S → List ℕ → Bool
  exist_at s path = plain_reply (sys.stat s path)

  unfoldable pub exist : File → S → Bool
  exist f s = elim f.handle [ none ↦ exist_at s f.path | some fd ↦ plain_reply (sys.fstat s fd) ]

  -- Whether another holds a lock on a file that can be opened for writing.
  unfoldable pub is_in_use : Reply ℕ → S → Bool × S
  is_in_use (fails errno) s = (false, s)
  is_in_use (gives fd) s =
      let l = sys.set_lock s fd true in
      let c = sys.close l.1 fd in (elim l.0 [ none ↦ false | some errno ↦ is_held errno ], c.1)

  unfoldable pub remove : File → S → Bool × File × S
  remove f s =
      let c = close f s in
      let r = sys.open_file c.2 f.path wronly in
      let u = is_in_use r.0 r.1 in
      if u.0 then (false, c.1, u.1) else (let d = sys.unlink u.1 f.path in (d.0, c.1, d.1))

  unfoldable pub rename : File → S → List ℕ → Bool × File × S
  rename f s new_path =
      if exist_at s new_path
      then (false, f, s)
      else (let c = close f s in
          let r = sys.rename c.2 f.path new_path in
          if r.0 then (true, record c.1 { path = new_path }, r.1) else (false, c.1, r.1))

  unfoldable pub remove_at : S → List ℕ → Bool × S
  remove_at s path = sys.unlink s path

  unfoldable pub rename_at : S → List ℕ → List ℕ → Bool × S
  rename_at s old_path new_path =
      if exist_at s new_path then (false, s) else sys.rename s old_path new_path

  unfoldable pub access_at : S → List ℕ → FileMode → Bool
  access_at s path mode = sys.access s path mode

  unfoldable pub size_at : S → List ℕ → Attempt ℕ
  size_at s path = elim (sys.stat s path) [ fails errno ↦ threw | gives st ↦ value st.size ]

  -- The last seek of `size2`, to where the file was.
  unfoldable pub seek_back : File → S → ℕ → Attempt ℕ → Attempt ℕ × S
  seek_back f s cur_pos threw = (threw, s)
  seek_back f s cur_pos (value size) =
      let r = seek2 f s cur_pos file_begin in
      (elim r.0 [ threw ↦ threw | value _ ↦ value size ], r.1)

  unfoldable pub seek_ends : File → S → Attempt ℕ → Attempt ℕ × S
  seek_ends f s threw = (threw, s)
  seek_ends f s (value cur_pos) = let r = seek2 f s 0 file_end in seek_back f r.1 cur_pos r.0

  unfoldable pub size2 : File → S → Attempt ℕ × S
  size2 f s =
      if not (test f) then (size_at s f.path, s) else (let r = tell2 f s in seek_ends f r.1 r.0)

unfoldable pub hidden : List ℕ → Outcome Bool
hidden path = do
  base ← base_name path
  (if ltb (length base) 1 then returns false else (do first ← at base 0; returns (first == b'.')))
