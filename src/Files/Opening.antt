-- ===== src/Files/Opening.antt =====
-- After `open2` the file is open exactly when nothing was thrown.
use ckcore.Base.{
  ℕ, ◌≡◌, refl, true, false, Option, none, some, arith, Bool-cases, Option-cases, inl, inr,
}
use ckcore.Files.{
  Reply, gives, fails, FileMode, Sys, File, is_held, wants_write, flags_of, test, close, locked,
  opened, open2,
}

module _ {S : Type 0} (sys : Sys S) (closes : (s : S) (fd : ℕ) → (sys.close s fd).0 ≡ true) where
  close-test : (f : File) (s : S) → test (close sys f s).1 ≡ false
  unfolding close test
  close-test f s = elim (Option-cases f.handle) [
    | inl e ↦ rw e refl
    | inr (fd, e) ↦ rw e (rw (closes s fd) refl)
  ]

  close-done : (f : File) (s : S) → test f ≡ true → (close sys f s).0 ≡ true
  unfolding close test
  close-done f s h = elim (Option-cases f.handle) [
    | inl e ↦ absurd (ground (arith, h, e))
    | inr (fd, e) ↦ rw e (rw (closes s fd) refl)
  ]

  locked-test :
      (r : Option ℕ) (f : File) (s : S)
      → test f ≡ true
      → test (locked sys r f s).1 ≡ (locked sys r f s).0
  unfolding locked
  locked-test none f s h = h
  locked-test (some errno) f s h = elim (Bool-cases (is_held errno)) [
    | inl e ↦ rw e (close-test f s)
    | inr e ↦ rw e h
  ]

  opened-test :
      (r : Reply ℕ) (mode : FileMode) (f : File) (s : S)
      → test (opened sys r mode f s).1 ≡ (opened sys r mode f s).0
  unfolding opened
  opened-test (fails errno) mode f s = unfold test in refl
  opened-test (gives fd) mode f s =
      let l = sys.set_lock s fd (wants_write mode) in
      locked-test l.0 (record f { handle = some fd }) l.1 (unfold test in refl)

  -- Where close(2) does not fail: after `open2` the file is open exactly when nothing was thrown,
  -- whether it was open before, open(2) failed, or another held a lock on it.
  pub open2-test :
      (mode : FileMode) (f : File) (s : S) → test (open2 sys mode f s).1 ≡ (open2 sys mode f s).0
  unfolding open2
  open2-test mode f s = elim (Bool-cases (test f)) [
    | inl e ↦
        let c = close sys f s in
        let r = sys.open_file c.2 f.path (flags_of mode) in
        rw (e, close-done f s e) (opened-test r.0 mode c.1 r.1)
    | inr e ↦ let r = sys.open_file s f.path (flags_of mode) in rw e (opened-test r.0 mode f r.1)
  ]
