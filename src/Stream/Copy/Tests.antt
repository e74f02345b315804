-- ===== src/Stream/Copy/Tests.antt =====
-- A copy of 3 bytes from an array to a list, and the theorem at that input.
use ckcore.Base.{
  ℕ, ◌^◌, ◌≡◌, refl, Bool, true, some, List, [], ◌∷◌, ◌++◌, returns, load, length, take, arith,
}
use ckcore.Stream.{OutStream}
use ckcore.Stream.Contract.{Sink}
use ckcore.Stream.Copy.{copy_loop, copy}
use ckcore.Stream.Copy.Exact.{Copied, copy-Copied}
use ckcore.MemoryStream.In
use ckcore.MemoryStream.In.{MemoryIn, memory}
use ckcore.MemoryStream.In.Contract.{memory_source}

-- The bytes written are the state.
abbrev pub log : OutStream (List ℕ)
log = record { write = λ st bytes. returns (some (length bytes), st ++ bytes) }

abbrev pub log_sink : Sink log
log_sink = record {
  Ok = λ _. Unit {0};
  Failing = λ _. ⊥;
  written = λ st. st;
  limit = 2 ^ 32;
  write_lem = λ st bytes ok few. (some (length bytes), st ++ bytes, refl, tt, (refl, refl));
}

abbrev pub three : MemoryIn
three = record { bytes = 1 ∷ 2 ∷ 3 ∷ []; count = 3; pos = 0 }

copies_three :
    copy memory log 2 true three (9 ∷ [])
    ≡ returns (true, record three { pos = 3 }, 9 ∷ 1 ∷ 2 ∷ 3 ∷ [])
unfolding copy copy_loop memory In.read In.end load
copies_three = refl

-- A stream that takes at most two bytes of a write, as stream.hh allows.
abbrev short : OutStream (List ℕ)
short = record { write = λ st bytes. returns (some (length (take 2 bytes)), st ++ take 2 bytes) }

-- The third byte is lost, and the copy returns true.
short_write_loses :
    copy memory short 2 true three (9 ∷ [])
    ≡ returns (true, record three { pos = 3 }, 9 ∷ 1 ∷ 2 ∷ [])
unfolding copy copy_loop memory In.read In.end load
short_write_loses = refl

copy-Copied_example :
    (done : Bool) × (source : MemoryIn) × (target : List ℕ) × (copy memory log 4 true three (9 ∷ [])
      ≡ returns (done, source, target))
    × Copied (memory_source 8192) log_sink (1 ∷ 2 ∷ 3 ∷ []) (9 ∷ []) done source target
copy-Copied_example =
    copy-Copied (memory_source 8192) log_sink 4 three (9 ∷ []) (omega arith) (omega arith)
      (omega arith) tt (omega arith)
