-- ===== src/MemoryStream/Out/Grow.antt =====
-- The doubling of the buffer of a `MemoryOutStream`.
use ckcore.Base.{
  ℕ, zero, suc, ◌+◌, ◌*◌, ◌%◌, ◌^◌, ◌≤◌, ◌<◌, ◌≡◌, refl, ap, ◌∙◌, ◌⊎◌, inl, inr, Bool, true, false,
  some, List, ◌++◌, returns, load_in_range, store_in_range, ltb, length, take, drop, replicate,
  length-append, length-replicate, length-drop, take-all, take-append_le, Bool-cases, arith, ltb→lt,
  ltb→le, add32,
}
use native.Mathlib.Nat.{pow-suc}
use ckcore.MemoryStream.Out.{allocate, grow}

size-mul-two-pow-suc : (size k : ℕ) → size * 2 ^ suc k ≡ size * 2 * 2 ^ k
size-mul-two-pow-suc size k = omega (arith, ap (λ (t : ℕ). size * t) (pow-suc 2 k))

length-doubled :
    (buf : List ℕ) (size : ℕ)
    → length buf ≡ size
    → length (buf ++ drop (0 + length buf) (replicate (size * 2) 0)) ≡ size * 2
length-doubled buf size len = omega (
  arith,
  length-append buf (drop (0 + length buf) (replicate (size * 2) 0)),
  length-drop {A = ℕ} (0 + length buf) (replicate (size * 2) 0),
  length-replicate {A = ℕ} (size * 2) 0,
)

module _ (gives : ℕ → Bool) where
  allocate-gives : (n : ℕ) → gives n ≡ true → allocate gives n ≡ some (replicate n 0)
  unfolding allocate
  allocate-gives n e = rw e

  -- A round that doubles the buffer.
  grow-double :
      (fuel : ℕ) (buf : List ℕ) (size pos count : ℕ)
      → ltb size (add32 pos count) ≡ true
      → gives (size * 2) ≡ true
      → size * 2 < 2 ^ 32
      → length buf ≡ size
      → grow gives (suc fuel) buf size pos count
        ≡ grow gives fuel
            (buf ++ drop (0 + length buf) (replicate (size * 2) 0))
            (size * 2)
            pos
            count
  unfolding grow
  grow-double fuel buf size pos count short given w len =
      let double : (size * 2) % 2 ^ 32 ≡ size * 2 = omega arith in
      rw
        (
          short,
          grow,
          double,
          allocate-gives (size * 2) given,
          load_in_range buf 0 size (omega arith),
          take-all size buf (omega arith),
          store_in_range (replicate (size * 2) 0) 0 buf
              (omega (arith, length-replicate {A = ℕ} (size * 2) 0)),
        )
        (rw double)

  -- What the loop comes to when the allocations give memory.
  abbrev pub Grown : ℕ → List ℕ → ℕ → ℕ → ℕ → Type 0
  Grown fuel buf size pos count =
      (buf' : List ℕ) × (size' : ℕ) × (grow gives fuel buf size pos count
        ≡ returns (true, buf', size'))
      × (length buf' ≡ size')
      × (size' < 2 ^ 32)
      × (pos + count ≤ size')
      × (take pos buf' ≡ take pos buf)
      × ((size' ≡ size) ⊎ (size' < 2 * (pos + count)))

  grow-fits :
      (fuel : ℕ) (buf : List ℕ) (size pos count : ℕ)
      → ltb size (add32 pos count) ≡ false
      → length buf ≡ size
      → size < 2 ^ 32
      → pos + count < 2 ^ 32
      → Grown (suc fuel) buf size pos count
  unfolding grow
  grow-fits fuel buf size pos count fits len w w' =
      (buf, size, rw (fits, grow), len, w, omega (arith, ltb→le _ _ fits), refl, inl refl)

  grow-again :
      (fuel : ℕ) (buf : List ℕ) (size pos count : ℕ)
      → ltb size (add32 pos count) ≡ true
      → gives (size * 2) ≡ true
      → length buf ≡ size
      → pos ≤ size
      → pos + count ≤ 2 ^ 31
      → Grown fuel (buf ++ drop (0 + length buf) (replicate (size * 2) 0)) (size * 2) pos count
      → Grown (suc fuel) buf size pos count
  grow-again fuel buf size pos count short given len within small
        (buf', size', e, len', w, room, same, bound) =
      let lt : size < pos + count = omega (arith, ltb→lt _ _ short) in
      (
        buf',
        size',
        grow-double fuel buf size pos count short given (omega arith) len ∙ e,
        len',
        w,
        room,
        same
            ∙ take-append_le pos buf (drop (0 + length buf) (replicate (size * 2) 0)) (omega arith),
        inr (elim bound [ inl eq ↦ omega arith | inr le ↦ le ]),
      )

  -- Enough rounds: the loop finds room for `count` more bytes behind the `pos` written ones, which it
  -- keeps, and more than doubles nothing that it needs.
  pub grow-Grown :
      (fuel : ℕ) (buf : List ℕ) (size pos count : ℕ)
      → ((n : ℕ) → gives n ≡ true)
      → length buf ≡ size
      → size < 2 ^ 32
      → pos ≤ size
      → pos + count ≤ 2 ^ 31
      → pos + count ≤ size * 2 ^ fuel
      → Grown (suc fuel) buf size pos count
  grow-Grown zero buf size pos count given len w within small reach =
      elim (Bool-cases (ltb size (add32 pos count))) [
        | inl short ↦ absurd (omega (arith, ltb→lt _ _ short))
        | inr fits ↦ grow-fits zero buf size pos count fits len w (omega arith)
      ]
  grow-Grown (suc fuel) buf size pos count given len w within small reach =
      elim (Bool-cases (ltb size (add32 pos count))) [
        | inl short ↦
            grow-again (suc fuel) buf size pos count short (given (size * 2)) len within small (
              grow-Grown fuel (buf ++ drop (0 + length buf) (replicate (size * 2) 0)) (size * 2) pos
                count given (length-doubled buf size len) (omega (arith, ltb→lt _ _ short))
                (omega arith) small (omega (arith, size-mul-two-pow-suc size fuel)))
        | inr fits ↦ grow-fits (suc fuel) buf size pos count fits len w (omega arith)
      ]
