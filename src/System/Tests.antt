-- ===== src/System/Tests.antt =====
-- The sizes of the caches of a processor with a cache for instructions and one for data.
use ckcore.Base.{ℕ, zero, suc, ◌≡◌, refl, [], ◌∷◌, returns, arith}
use ckcore.System.{
  level_1, number, Regs, cur_type, cur_level, is_data_cache, cache_bytes, vendor, genuine_intel,
  cache_size,
}
use ckcore.System.Caches.{Lists, first_size, cache_size-first_size}

abbrev code_cache : Regs
code_cache = record { a = 34; b = 29360191; c = 63; d = 0 }

abbrev data_cache : Regs
data_cache = record { a = 33; b = 29360191; c = 63; d = 0 }

abbrev cpuid : ℕ → ℕ → Regs
cpuid zero reg = record { a = 4; b = 0x756e6547; c = 0x6c65746e; d = 0x49656e69 }
cpuid (suc f) zero = code_cache
cpuid (suc f) (suc zero) = data_cache
cpuid (suc f) (suc (suc reg)) = record { a = 0; b = 0; c = 0; d = 0 }

size_32k : first_size level_1 (code_cache ∷ data_cache ∷ []) ≡ 32768
unfolding first_size is_data_cache cur_type cur_level number cache_bytes
size_32k = refl

is_intel : vendor (cpuid 0 0) ≡ genuine_intel
unfolding vendor
is_intel = refl

two_caches : Lists cpuid 0 (code_cache ∷ data_cache ∷ [])
unfolding cur_type
two_caches = (refl, refl, (refl, refl, refl))

cache_size-first_size_run :
    cache_size cpuid 3 level_1 ≡ returns (first_size level_1 (code_cache ∷ data_cache ∷ []))
cache_size-first_size_run =
    cache_size-first_size cpuid level_1 3 (code_cache ∷ data_cache ∷ []) is_intel (omega arith)
      two_caches
