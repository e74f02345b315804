-- ===== src/Files/Quiet.antt =====
-- The functions of include/ckcore/file.hh that return -1 or false where those of `File` throw.
use ckcore.Base.{ℕ, Bool, List}
use ckcore.Files.{FileMode, FileWhence, Sys, File, open2, seek2, tell2, size2, size_at}
use ckcore.Files.InStream.{or_minus_one}

module _ {S : Type 0} (sys : Sys S) where
  -- False of `open2` stands for an exception.
  unfoldable pub try_open : FileMode → File → S → Bool × File × S
  try_open mode f s = open2 sys mode f s

  unfoldable pub seek : File → S → ℕ → FileWhence → ℕ × S
  seek f s distance whence = let r = seek2 sys f s distance whence in (or_minus_one r.0, r.1)

  unfoldable pub tell : File → S → ℕ × S
  tell f s = let r = tell2 sys f s in (or_minus_one r.0, r.1)

  unfoldable pub size : File → S → ℕ × S
  size f s = let r = size2 sys f s in (or_minus_one r.0, r.1)

  unfoldable pub size_of : S → List ℕ → ℕ
  size_of s path = or_minus_one (size_at sys s path)
