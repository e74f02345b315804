-- ===== src/System/Caches.antt =====
-- The search for a cache of a level on Intel processors.
use ckcore.Base.{
  ℕ, zero, suc, ◌<◌, ◌≡◌, refl, true, false, List, [], ◌∷◌, Outcome, returns, ◌==◌, if◌then◌else◌,
  length, arith, Bool-cases, inl, inr,
}
use ckcore.PathName.{same}
use ckcore.System.{
  CacheLevel, Regs, cur_type, is_data_cache, cache_bytes, vendor, genuine_intel, intel_round,
  intel_loop, cache_size_intel, cache_size,
}

-- What cpuid tells of the caches from `reg` on: these, each with a type, and then one without.
abbrev pub Lists : (ℕ → ℕ → Regs) → ℕ → List Regs → Type 0
Lists cpuid reg [] = (cur_type (cpuid 4 reg) == 0) ≡ true
Lists cpuid reg (r ∷ rs) =
    (cpuid 4 reg ≡ r) × ((cur_type r == 0) ≡ false) × Lists cpuid (suc reg) rs

-- The size of the first cache of the level that holds data, or 0.
unfoldable pub first_size : CacheLevel → List Regs → ℕ
first_size level [] = 0
first_size level (r ∷ rs) =
    let rest = first_size level rs in if is_data_cache level r then cache_bytes r else rest

intel_round-size :
    (level : CacheLevel) (r : Regs) (size : ℕ)
    → (cur_type r == 0) ≡ false
    → intel_round level r (returns size)
      ≡ returns (if is_data_cache level r then cache_bytes r else size)
unfolding intel_round
intel_round-size level r size typed = elim (Bool-cases (is_data_cache level r)) [
  | inl e ↦ rw (typed, e) refl
  | inr e ↦ rw (typed, e) refl
]

intel_round-none :
    (level : CacheLevel) (r : Regs) (rest : Outcome ℕ)
    → (cur_type r == 0) ≡ true
    → intel_round level r rest ≡ returns 0
unfolding intel_round
intel_round-none level r rest e = rw e refl

module _ (cpuid : ℕ → ℕ → Regs) (level : CacheLevel) where
  intel_loop-first_size :
      (fuel reg : ℕ) (caches : List Regs)
      → length caches < fuel
      → Lists cpuid reg caches
      → intel_loop cpuid fuel reg level ≡ returns (first_size level caches)
  unfolding intel_loop first_size
  intel_loop-first_size zero reg caches f lists = absurd (omega arith)
  intel_loop-first_size (suc fuel) reg [] f lists =
      intel_round-none level (cpuid 4 reg) (intel_loop cpuid fuel (suc reg) level) lists
  intel_loop-first_size (suc fuel) reg (r ∷ rs) f (is, typed, lists) =
      rw (is, intel_loop-first_size fuel (suc reg) rs (omega arith) lists)
        (intel_round-size level r (first_size level rs) typed)

  -- On a processor that calls itself GenuineIntel, where cpuid tells of a list of caches, `cache_size`
  -- ends, with a round for each of them and one more, and gives the size of the first one of the level
  -- that holds data, or 0 where there is none.
  pub cache_size-first_size :
      (fuel : ℕ) (caches : List Regs)
      → vendor (cpuid 0 0) ≡ genuine_intel
      → length caches < fuel
      → Lists cpuid 0 caches
      → cache_size cpuid fuel level ≡ returns (first_size level caches)
  unfolding cache_size cache_size_intel same
  cache_size-first_size fuel caches intel f lists =
      rw (intel, intel_loop-first_size fuel 0 caches f lists) refl
