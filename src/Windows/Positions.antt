-- ===== src/Windows/Positions.antt =====
-- The positions and the sizes of files on Windows.
use ckcore.Base.{ℕ, ◌+◌, ◌*◌, ◌/◌, ◌%◌, ◌^◌, ◌<◌, ◌≡◌, refl, some, arith}
use ckcore.Files.{value, File, file_current, file_begin}
use ckcore.Windows.{Large, Win, quad_part, seek2, tell2, size2}

-- The two halves of a position or a size, of which the calls of Windows give no error.
abbrev pub halves : ℕ → Large
halves n = record { low_part = n % 2 ^ 32; high_part = n / 2 ^ 32; last_error = 0 }

-- What the manual says of SetFilePointer and GetFileSize for an open file: `pos` is its position and
-- `len` its size.
pub record Points {S : Type 0} (win : Win S) (h : ℕ) : Type 0 where
  pub pos : S → ℕ
  pub len : S → ℕ
  pub current_lem : (s : S) → win.set_file_pointer s h 0 0 file_current ≡ (halves (pos s), s)
  pub begin_lem :
      (s : S) (d : ℕ)
      → d < 2 ^ 63
      → (t : S) × (win.set_file_pointer s h (d % 2 ^ 32) (d / 2 ^ 32) file_begin ≡ (halves d, t))
        × (pos t ≡ d)
        × (len t ≡ len s)
  pub size_lem : (s : S) → win.get_file_size s h ≡ halves (len s)

quad_part-halves : (n : ℕ) → quad_part (halves n) ≡ value n
unfolding quad_part
quad_part-halves n =
    let whole : n % 2 ^ 32 + n / 2 ^ 32 * 2 ^ 32 ≡ n = omega arith in rw whole (ground arith)

-- For an open file on Windows and every position below 2^63, also one whose lower half looks like the
-- mark of an error: `seek2` from the beginning gives the position, `tell2` then gives it again, and
-- `size2` gives the whole size. `tell2` and `size2` leave the file as it is.
pub seek2-tell2 :
    {S : Type 0} (win : Win S) (h : ℕ) (points : Points win h) (f : File) (s : S) (d : ℕ)
    → f.handle ≡ some h
    → d < 2 ^ 63
    → (t : S) × (seek2 win f s d file_begin ≡ (value d, t))
      × (tell2 win f t ≡ (value d, t))
      × (size2 win f t ≡ (value (points.len s), t))
unfolding seek2 tell2 size2
seek2-tell2 win h points f s d opened small =
    let (t, sought, at, same) = points.begin_lem s d small in
    (
      t,
      rw (opened, sought, quad_part-halves d) refl,
      rw (opened, points.current_lem t, at, quad_part-halves d) refl,
      rw (opened, points.size_lem t, same, quad_part-halves (points.len s)) refl,
    )
