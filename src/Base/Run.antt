-- ===== src/Base/Run.antt =====
-- What a run of C++ code comes to, and copies between arrays of bytes (memcpy).
use Prim.Native.Nat.{ℕ, ◌+◌, ◌≤◌}
use mathlib.Core.Path.{◌≡◌, refl, ap, ◌∙◌}
use mathlib.Core.List.{List, ◌++◌, append_assoc}
use native.Mathlib.Omega.{arith}
use ckcore.Base.Branch.{leb, if◌then◌else◌}
use ckcore.Base.Lists.{length, take, drop, length-append, length-take, length-drop, take-append}

-- `fault`: an access outside an array, which C++ leaves undefined. `stuck`: a loop is still running
-- when its fuel is gone.
pub data Outcome {ℓ} (A : Type ℓ) : Type ℓ where
  returns : A → Outcome A
  fault : Outcome A
  stuck : Outcome A

infixl 5 ◌>>=◌
abbrev pub ◌>>=◌ {ℓ κ} : {A : Type ℓ} {B : Type κ} → Outcome A → (A → Outcome B) → Outcome B
returns a >>= f = f a
fault >>= f = fault
stuck >>= f = stuck

pub >>=-eq-returns {ℓ κ} :
    {A : Type ℓ} {B : Type κ} (m : Outcome A) (f : A → Outcome B) {b : B}
    → (m >>= f) ≡ returns b
    → (a : A) × (m ≡ returns a) × (f a ≡ returns b)
>>=-eq-returns (returns a) f h = (a, refl, h)
>>=-eq-returns fault f h = cc
>>=-eq-returns stuck f h = cc

module _ {ℓ} {A : Type ℓ} where
  -- The `n` elements from `pos` on.
  unfoldable pub load : List A → ℕ → ℕ → Outcome (List A)
  load buf pos n = if leb (pos + n) (length buf) then returns (take n (drop pos buf)) else fault

  -- The array with `src` written over it from `pos` on.
  unfoldable pub store : List A → ℕ → List A → Outcome (List A)
  store buf pos src =
      if leb (pos + length src) (length buf)
      then returns (take pos buf ++ src ++ drop (pos + length src) buf)
      else fault

  pub load_in_range :
      (buf : List A) (pos n : ℕ)
      → pos + n ≤ length buf
      → load buf pos n ≡ returns (take n (drop pos buf))
  unfolding load
  load_in_range buf pos n h = ground arith

  pub store_in_range :
      (buf : List A) (pos : ℕ) (src : List A)
      → pos + length src ≤ length buf
      → store buf pos src ≡ returns (take pos buf ++ src ++ drop (pos + length src) buf)
  unfolding store
  store_in_range buf pos src h = ground arith

  -- The array after a copy that stays within it.
  abbrev pub stored : List A → ℕ → List A → List A
  stored buf pos src = take pos buf ++ src ++ drop (pos + length src) buf

  pub length-stored :
      (buf : List A) (pos : ℕ) (src : List A)
      → pos + length src ≤ length buf
      → length (stored buf pos src) ≡ length buf
  length-stored buf pos src h = omega (
    arith,
    length-append (take pos buf ++ src) (drop (pos + length src) buf),
    length-append (take pos buf) src,
    length-take pos buf,
    length-drop (pos + length src) buf,
  )

  -- Up to the end of what was copied, it holds what it held before, then the copy.
  pub take-stored :
      (buf : List A) (pos : ℕ) (src : List A) (n : ℕ)
      → pos + length src ≤ length buf
      → n ≡ pos + length src
      → take n (stored buf pos src) ≡ take pos buf ++ src
  take-stored buf pos src n h e =
      take-append (take pos buf ++ src) (drop (pos + length src) buf) n
        (omega (arith, length-append (take pos buf) src, length-take pos buf))

  -- Before the place of the copy, it is unchanged.
  pub take-stored_before :
      (buf : List A) (pos : ℕ) (src : List A)
      → pos ≤ length buf
      → take pos (stored buf pos src) ≡ take pos buf
  take-stored_before buf pos src h =
      ap (take pos) (append_assoc (take pos buf) src (drop (pos + length src) buf))
      ∙ take-append (take pos buf) (src ++ drop (pos + length src) buf) pos
          (omega (arith, length-take pos buf))
