-- ===== src/System.antt =====
-- src/system.cc: the sizes of the caches, over what the instruction cpuid gives.
pub mod Caches
mod Tests
use ckcore.Base.{
  ℕ, zero, suc, ◌+◌, ◌*◌, ◌/◌, ◌%◌, ◌^◌, Bool, true, false, ◌&&◌, ◌||◌, List, [], ◌∷◌, ◌++◌,
  Outcome, returns, stuck, ◌==◌, if◌then◌else◌,
}
use Prim.Native.Nat.{bit_or}
use ckcore.PathName.{same}

-- `CacheLevel`, and its number.
pub data CacheLevel : Type 0 where
  level_1 level_2 level_3 : CacheLevel

unfoldable pub number : CacheLevel → ℕ
number level_1 = 1
number level_2 = 2
number level_3 = 3

-- The registers that cpuid writes, of 32 bits each, for a function and an argument.
pub record Regs : Type 0 where
  pub a : ℕ
  pub b : ℕ
  pub c : ℕ
  pub d : ℕ

-- The type and the level of a cache, and its size: the fields of `a` and `b`.
unfoldable pub cur_type : Regs → ℕ
cur_type r = r.a % 2 ^ 5

unfoldable pub cur_level : Regs → ℕ
cur_level r = r.a / 2 ^ 5 % 2 ^ 3

unfoldable pub cache_bytes : Regs → ℕ
cache_bytes r =
    let ways = r.b / 2 ^ 22 % 2 ^ 10 in
    let part = r.b / 2 ^ 12 % 2 ^ 10 in
    let line = r.b % 2 ^ 12 in
    let sets = r.c in (ways + 1) * (part + 1) * (line + 1) * (sets + 1) % 2 ^ 64

unfoldable pub is_data_cache : CacheLevel → Regs → Bool
is_data_cache level r = ((cur_type r == 1) || (cur_type r == 3)) && (cur_level r == number level)

-- The bytes of a register, as they are copied from memory.
abbrev pub bytes : ℕ → List ℕ
bytes r = r % 2 ^ 8 ∷ r / 2 ^ 8 % 2 ^ 8 ∷ r / 2 ^ 16 % 2 ^ 8 ∷ r / 2 ^ 24 % 2 ^ 8 ∷ []

unfoldable pub vendor : Regs → List ℕ
vendor r = bytes r.b ++ (bytes r.d ++ bytes r.c)

abbrev pub genuine_intel : List ℕ
genuine_intel =
    b'G' ∷ b'e' ∷ b'n' ∷ b'u' ∷ b'i' ∷ b'n' ∷ b'e' ∷ b'I' ∷ b'n' ∷ b't' ∷ b'e' ∷ b'l' ∷ []

abbrev pub authentic_amd : List ℕ
authentic_amd =
    b'A' ∷ b'u' ∷ b't' ∷ b'h' ∷ b'e' ∷ b'n' ∷ b't' ∷ b'i' ∷ b'c' ∷ b'A' ∷ b'M' ∷ b'D' ∷ []

-- The body of the loop, where `rest` is what the next rounds come to.
unfoldable pub intel_round : CacheLevel → Regs → Outcome ℕ → Outcome ℕ
intel_round level r rest =
    if cur_type r == 0
    then returns 0
    else (if is_data_cache level r then returns (cache_bytes r) else rest)

module _ (cpuid : ℕ → ℕ → Regs) where
  unfoldable pub intel_loop : ℕ → ℕ → CacheLevel → Outcome ℕ
  intel_loop zero reg level = stuck
  intel_loop (suc fuel) reg level =
      intel_round level (cpuid 4 reg) (intel_loop fuel (suc reg) level)

  unfoldable pub cache_size_intel : ℕ → CacheLevel → Outcome ℕ
  cache_size_intel fuel level = intel_loop fuel 0 level

  unfoldable pub cache_size_amd : CacheLevel → ℕ
  cache_size_amd level_1 = (cpuid 0x80000005 0).c / 2 ^ 24 % 2 ^ 8 * 1024
  cache_size_amd level_2 = (cpuid 0x80000006 0).c / 2 ^ 16 % 2 ^ 16 * 1024
  cache_size_amd level_3 = 0

  unfoldable pub cache_size : ℕ → CacheLevel → Outcome ℕ
  cache_size fuel level =
      let name = vendor (cpuid 0 0) in
      let intel = cache_size_intel fuel level in
      if same name genuine_intel
      then intel
      else (if same name authentic_amd then returns (cache_size_amd level) else returns 0)

-- `time`, in milliseconds, by the seconds and microseconds of gettimeofday(2), and `ticks`, by the two
-- halves that rdtsc gives.
unfoldable pub time : ℕ → ℕ → ℕ
time tv_sec tv_usec = (tv_sec * 1000 + tv_usec / 1000) % 2 ^ 64

unfoldable pub ticks : ℕ → ℕ → ℕ
ticks high low = bit_or (high * 2 ^ 32 % 2 ^ 64) low
