-- ===== src/Files/Tests.antt =====
-- The theorems on files, over a system that has one file.
use ckcore.Base.{
  ℕ, zero, suc, ◌+◌, ◌%◌, ◌^◌, ◌<◌, ◌≤◌, ◌≡◌, ◌↔◌, refl, ap, true, false, Option, none, some, List,
  [], ◌∷◌, returns, length, take, drop, arith, length-drop, length-take,
}
use ckcore.PathName.{base_name}
use ckcore.PathName.Str.{rfind, last_index_of, substr, at}
use ckcore.Files.{
  Reply, gives, fails, value, threw, open_read, FileWhence, file_current, file_begin, file_end, Sys,
  File, test, open2, tell2, size2, hidden, minus_one,
}
use ckcore.Files.Position.{Seekable, tell2-threw_iff, size2-len}
use ckcore.Files.Opening.{open2-test}
use ckcore.Files.InStream.{FileIn, file_stream}
use ckcore.Files.InStream.Contract.{Reads, Regular, IsOk, rest, file-Delivers}
use ckcore.Stream.Contract.{Delivers}

-- The content of the file, and the position of its descriptor.
record Disk : Type 0 where
  content : List ℕ
  place : ℕ

abbrev seek_disk : Disk → ℕ → FileWhence → Reply ℕ × Disk
seek_disk s d file_current = (gives (s.place + d), record s { place = s.place + d })
seek_disk s d file_begin = (gives d, record s { place = d })
seek_disk s d file_end = (gives (length s.content + d), record s { place = length s.content + d })

abbrev read_disk : Disk → ℕ → Option (List ℕ) × Disk
read_disk s n =
    let bytes = take n (drop s.place s.content) in
    (some bytes, record s { place = s.place + length bytes })

abbrev disk : Sys Disk
disk = record {
  open_file = λ s path flags. (gives 3, s);
  close = λ s fd. (true, s);
  set_lock = λ s fd to_write. (some 11, s);
  lseek = λ s fd d whence. seek_disk s d whence;
  read = λ s fd n. read_disk s n;
  write = λ s fd bytes. (none, s);
  fstat = λ s fd. gives (record { mode = 32768; size = length s.content });
  stat = λ s path. gives (record { mode = 32768; size = length s.content });
  access = λ s path mode. true;
  unlink = λ s path. (false, s);
  rename = λ s old_path new_path. (false, s);
}

abbrev five : Disk
five = record { content = 1 ∷ 2 ∷ 3 ∷ 4 ∷ 5 ∷ []; place = 2 }

abbrev file : File
file = record { handle = some 3; path = b'f' ∷ [] }

profile_is_hidden : hidden (b'/' ∷ b'.' ∷ b'p' ∷ []) ≡ returns true
unfolding hidden base_name rfind last_index_of substr at
profile_is_hidden = refl

moved : (s : Disk) (n m : ℕ) → n ≡ m → seek_disk s n file_begin ≡ seek_disk s m file_begin
moved s n m e = ap (λ k. seek_disk s k file_begin) e

abbrev disk-seekable : Seekable disk 3
disk-seekable = record {
  IsOpen = λ s. length s.content ≤ 5;
  len = λ s. length s.content;
  pos = λ s. s.place;
  current_lem = λ s h. (s, moved s (s.place + 0) s.place (omega arith), h, refl, refl);
  begin_lem = λ s d h small. (record s { place = d }, refl, h, refl, refl);
  end_lem = λ s h. (
    record s { place = length s.content },
    moved s (length s.content + 0) (length s.content) (omega arith),
    h,
    refl,
    refl,
  );
}

abbrev two : Reply ℕ
two = gives 2

tell2-threw_iff_run :
    ((n : ℕ) → two ≡ gives n → (((tell2 disk file five).0 ≡ threw) ↔ (n % 2 ^ 32 ≡ 1)))
    × ((errno : ℕ) → two ≡ fails errno → tell2 disk file five ≡ (value minus_one, five))
tell2-threw_iff_run = tell2-threw_iff disk file 3 five five two refl refl

size2-len_example :
    (s' : Disk) × (size2 disk file five ≡ (value 5, s'))
    × (length s'.content ≤ 5)
    × (s'.place ≡ 2)
    × (length s'.content ≡ 5)
size2-len_example =
    size2-len disk disk-seekable file five refl (omega arith) (omega arith) (omega arith)
      (omega arith)

open2-test_run : test (open2 disk open_read file five).1 ≡ (open2 disk open_read file five).0
open2-test_run = open2-test disk (λ s fd. refl) open_read file five

read_disk-Reads :
    (s : Disk) (n : ℕ)
    → s.place ≤ length s.content
    → 0 < n
    → Reads ⊥ s.content n s.place (read_disk s n).0 (read_disk s n).1.place
read_disk-Reads s n h pos =
    let left = drop s.place s.content in
    let len = length-take n left in
    let size = length-drop s.place s.content in
    (
      cut n left,
      omega (arith, len),
      refl,
      omega (arith, len, size, h),
      λ some_left. omega (arith, len, size),
    )
  where
    cut : (n : ℕ) (l : List ℕ) → take n l ≡ take (length (take n l)) l
    cut zero l = refl
    cut (suc n) [] = refl
    cut (suc n) (x ∷ l) = ap (λ r. x ∷ r) (cut n l)

abbrev disk-regular : Regular disk 3
disk-regular = record {
  IsOpen = λ s. length s.content ≤ 5;
  Failing = λ s. ⊥;
  whole = λ s. s.content;
  pos = λ s. s.place;
  read_lem = λ s n h inside pos.
      ((read_disk s n).0, (read_disk s n).1, refl, h, refl, read_disk-Reads s n inside pos);
}

abbrev opened : FileIn Disk
opened = record { file = file; read_count = 2; size = 5; system = five }

opened-IsOk : IsOk disk-regular opened
opened-IsOk = record {
  handle = refl;
  system_open = omega arith;
  counted = refl;
  sized = refl;
  within = omega arith;
  small = omega arith;
}

file-Delivers_example :
    (r : Option (List ℕ)) × (i' : FileIn Disk) × ((file_stream disk).read opened 2
      ≡ returns (r, i'))
    × IsOk disk-regular i'
    × Delivers ⊥ 2 (rest disk-regular opened) r (rest disk-regular i')
file-Delivers_example = file-Delivers disk-regular opened 2 opened-IsOk (omega arith) (omega arith)
