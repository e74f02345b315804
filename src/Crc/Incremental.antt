-- ===== src/Crc/Incremental.antt =====
-- A checksum does not depend on how its bytes are parted into writes.
use ckcore.Base.{
  ℕ, ◌+◌, ◌≡◌, refl, Option, some, List, [], ◌∷◌, ◌++◌, Outcome, returns, fault, stuck, ◌>>=◌,
  length, length-append,
}
use ckcore.Crc.{CrcStream, next_checksum, write_bytes, write}

later-append :
    (s : CrcStream) (xs ys : List ℕ) (next : Outcome ℕ)
    → ((crc : ℕ)
        → write_bytes (record s { checksum = crc }) (xs ++ ys)
          ≡ (write_bytes (record s { checksum = crc }) xs >>= λ s'. write_bytes s' ys))
    → (next >>= λ crc. write_bytes (record s { checksum = crc }) (xs ++ ys))
      ≡ ((next >>= λ crc. write_bytes (record s { checksum = crc }) xs) >>= λ s'. write_bytes s' ys)
later-append s xs ys (returns crc) ih = ih crc
later-append s xs ys fault ih = refl
later-append s xs ys stuck ih = refl

write_bytes-append :
    (s : CrcStream) (xs ys : List ℕ)
    → write_bytes s (xs ++ ys) ≡ (write_bytes s xs >>= λ s'. write_bytes s' ys)
unfolding write_bytes
write_bytes-append s [] ys = refl
write_bytes-append s (x ∷ xs) ys =
    later-append s xs ys (next_checksum s x)
      (λ crc. write_bytes-append (record s { checksum = crc }) xs ys)

-- A run with the count `n`, or with `n` in place of its count.
abbrev counted : ℕ → Outcome CrcStream → Outcome (Option ℕ × CrcStream)
counted n run = do s ← run; returns (some n, s)

abbrev pub recount : ℕ → Outcome (Option ℕ × CrcStream) → Outcome (Option ℕ × CrcStream)
recount n run = do (_, s) ← run; returns (some n, s)

recount-counted : (n m : ℕ) (run : Outcome CrcStream) → counted n run ≡ recount n (counted m run)
recount-counted n m (returns s) = refl
recount-counted n m fault = refl
recount-counted n m stuck = refl

counted-twice :
    (n m k : ℕ) (ys : List ℕ) (run : Outcome CrcStream)
    → counted n (run >>= λ s. write_bytes s ys)
      ≡ (counted m run >>= λ r. recount n (counted k (write_bytes r.1 ys)))
counted-twice n m k ys (returns s) = recount-counted n k (write_bytes s ys)
counted-twice n m k ys fault = refl
counted-twice n m k ys stuck = refl

-- A write of `xs` and `ys` together leaves the checksum, or the fault, of a write of `xs` and one of
-- `ys`, and returns the number of all their bytes.
pub write-append_twice :
    (s : CrcStream) (xs ys : List ℕ)
    → write s (xs ++ ys) ≡ (write s xs >>= λ r. recount (length xs + length ys) (write r.1 ys))
unfolding write
write-append_twice s xs ys =
    rw (write_bytes-append s xs ys, length-append xs ys)
      (counted-twice (length xs + length ys) (length xs) (length ys) ys (write_bytes s xs))
