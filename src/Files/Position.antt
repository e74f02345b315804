-- ===== src/Files/Position.antt =====
-- `seek2`, `tell2` and `size2` where lseek(2) does what its manual says.
use ckcore.Base.{
  ℕ, ◌%◌, ◌^◌, ◌<◌, ◌≡◌, ◌≢◌, ◌↔◌, refl, sym, ◌∙◌, true, false, some, ◌==◌, if◌then◌else◌, arith,
  Bool-cases, inl, inr,
}
use ckcore.Files.{
  Reply, gives, fails, value, threw, FileWhence, file_current, file_begin, file_end, Sys, File,
  minus_one, as_int, test, seek2, tell2, seek_back, seek_ends, size2,
}

-- What lseek(2) documents for an open descriptor: each has a length and a position, a seek gives the
-- new position, and changes no more than that.
pub record Seekable {S : Type 0} (sys : Sys S) (fd : ℕ) : Type 1 where
  pub IsOpen : S → Type 0
  pub len : S → ℕ
  pub pos : S → ℕ
  pub current_lem :
      (s : S)
      → IsOpen s
      → (s' : S) × (sys.lseek s fd 0 file_current ≡ (gives (pos s), s'))
        × IsOpen s'
        × (pos s' ≡ pos s)
        × (len s' ≡ len s)
  pub begin_lem :
      (s : S) (d : ℕ)
      → IsOpen s
      → d < 2 ^ 63
      → (s' : S) × (sys.lseek s fd d file_begin ≡ (gives d, s'))
        × IsOpen s'
        × (pos s' ≡ d)
        × (len s' ≡ len s)
  pub end_lem :
      (s : S)
      → IsOpen s
      → (s' : S) × (sys.lseek s fd 0 file_end ≡ (gives (len s), s'))
        × IsOpen s'
        × (pos s' ≡ len s)
        × (len s' ≡ len s)

int_small : (n : ℕ) → n < 2 ^ 31 → as_int (gives n) ≡ n
unfolding as_int
int_small n h = ground arith

one_iff : (n : ℕ) → ((as_int (gives n) == 1) ≡ true) ↔ (n % 2 ^ 32 ≡ 1)
unfolding as_int
one_iff n = ground arith

threw_iff :
    (n : ℕ)
    → ((if as_int (gives n) == 1 then threw else value (as_int (gives n))) ≡ threw)
      ↔ (n % 2 ^ 32 ≡ 1)
threw_iff n =
    let one = one_iff n in
    elim (Bool-cases (as_int (gives n) == 1)) [
      | inl e ↦ rw e (λ _. one.0 e, λ _. refl)
      | inr e ↦ rw e (λ h. cc, λ h. absurd (ground (arith, one.1 h, e)))
    ]

module _ {S : Type 0} (sys : Sys S) where
  test-open : (f : File) (fd : ℕ) → f.handle ≡ some fd → test f ≡ true
  unfolding test
  test-open f fd h = rw h refl

  tell2-reply :
      (f : File) (fd : ℕ) (s s' : S) (r : Reply ℕ)
      → f.handle ≡ some fd
      → sys.lseek s fd 0 file_current ≡ (r, s')
      → tell2 sys f s ≡ ((if as_int r == 1 then threw else value (as_int r)), s')
  unfolding tell2
  tell2-reply f fd s s' r h e = rw h (rw e refl)

  seek2-gives :
      (f : File) (fd : ℕ) (s s' : S) (d n : ℕ) (whence : FileWhence)
      → f.handle ≡ some fd
      → sys.lseek s fd d whence ≡ (gives n, s')
      → n < 2 ^ 31
      → seek2 sys f s d whence ≡ (value n, s')
  unfolding seek2
  seek2-gives f fd s s' d n whence h e small =
      let good : (n == minus_one) ≡ false = ground arith in
      rw h (rw (e, int_small n small, good) refl)

  -- On an open file where lseek(2) gives the position `n`, `tell2` throws exactly when `n` leaves 1
  -- modulo 2^32; where lseek(2) fails, `tell2` returns -1.
  pub tell2-threw_iff :
      (f : File) (fd : ℕ) (s s' : S) (r : Reply ℕ)
      → f.handle ≡ some fd
      → sys.lseek s fd 0 file_current ≡ (r, s')
      → ((n : ℕ) → r ≡ gives n → (((tell2 sys f s).0 ≡ threw) ↔ (n % 2 ^ 32 ≡ 1)))
        × ((errno : ℕ) → r ≡ fails errno → tell2 sys f s ≡ (value minus_one, s'))
  tell2-threw_iff f fd s s' (fails errno) h e =
      (λ n g. cc, λ errno' g. tell2-reply f fd s s' (fails errno) h e ∙ unfold as_int in refl)
  tell2-threw_iff f fd s s' (gives m) h e = (
    λ n g. let same : m ≡ n = cc in rw (tell2-reply f fd s s' (gives m) h e, same) (threw_iff n),
    λ errno g. cc,
  )

  module _ {fd : ℕ} (file : Seekable sys fd) where
    open file use {IsOpen, len, pos, current_lem, begin_lem, end_lem}

    size2-steps :
        (f : File) (s s1 s2 s3 : S) (n m : ℕ)
        → f.handle ≡ some fd
        → tell2 sys f s ≡ (value n, s1)
        → seek2 sys f s1 0 file_end ≡ (value m, s2)
        → seek2 sys f s2 n file_begin ≡ (value n, s3)
        → size2 sys f s ≡ (value m, s3)
    unfolding size2 seek_ends seek_back
    size2-steps f s s1 s2 s3 n m h t e b = rw (test-open f fd h, t, e, b) refl

    tell2-here :
        (f : File) (s s' : S) (n : ℕ)
        → f.handle ≡ some fd
        → sys.lseek s fd 0 file_current ≡ (gives n, s')
        → n < 2 ^ 31
        → n ≢ 1
        → tell2 sys f s ≡ (value n, s')
    tell2-here f s s' n h e small not_one =
        let good : (n == 1) ≡ false = ground arith in
        tell2-reply f fd s s' (gives n) h e ∙ rw (int_small n small, good) refl

    -- Where lseek(2) keeps to its manual: `size2` of an open file of fewer than 2^31 bytes, whose
    -- position is below 2^31 and not 1, is the length, and the position is afterwards what it was.
    pub size2-len :
        (f : File) (s : S)
        → f.handle ≡ some fd
        → IsOpen s
        → len s < 2 ^ 31
        → pos s < 2 ^ 31
        → pos s ≢ 1
        → (s' : S) × (size2 sys f s ≡ (value (len s), s'))
          × IsOpen s'
          × (pos s' ≡ pos s)
          × (len s' ≡ len s)
    size2-len f s h ok small_len small_pos apart =
        let (s1, e1, ok1, p1, l1) = current_lem s ok in
        let (s2, e2, ok2, p2, l2) = end_lem s1 ok1 in
        let (s3, e3, ok3, p3, l3) = begin_lem s2 (pos s) ok2 (omega arith) in
        let e2' : sys.lseek s1 fd 0 file_end ≡ (gives (len s), s2) = rw (sym l1) e2 in
        (
          s3,
          size2-steps f s s1 s2 s3 (pos s) (len s) h
              (tell2-here f s s1 (pos s) h e1 small_pos apart)
              (seek2-gives f fd s1 s2 0 (len s) file_end h e2' small_len)
              (seek2-gives f fd s2 s3 (pos s) (pos s) file_begin h e3 small_pos),
          ok3,
          p3,
          l3 ∙ l2 ∙ l1,
        )
