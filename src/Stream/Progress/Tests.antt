-- ===== src/Stream/Progress/Tests.antt =====
-- Copies of 3 bytes with progress, and the theorems at that input.
use ckcore.Base.{
  ℕ, ◌*◌, ◌/◌, ◌%◌, ◌≡◌, refl, true, false, List, [], ◌∷◌, ◌++◌, returns, load, length, arith,
}
use ckcore.Stream.Copy.{copy}
use ckcore.Stream.Copy.Tests.{log, log_sink, three}
use ckcore.MemoryStream.In
use ckcore.MemoryStream.In.{MemoryIn, memory}
use ckcore.MemoryStream.In.Contract.{memory_source}
use ckcore.Stream.Progress.{
  Progress, Progresser, cancelled, update, share, report, progress_loop, copy_progress,
  copy_progresser, sized_loop, pad_loop, copy_sized,
}
use ckcore.Stream.Progress.Forget.{forget, forget-copy_progresser}
use ckcore.Stream.Progress.Filled.{filled}
use ckcore.Stream.Progress.Padded.{copy_sized-filled}

-- The percentages that were set, the last one first.
abbrev shown : Progress (List ℕ)
shown = record {
  set_progress = λ p percent. percent ∷ p;
  set_marquee = λ p on. p;
  cancelled = λ p. (false, p);
}

abbrev percent : ℕ → ℕ → ℕ
percent now total = now * 100 / total % 256

abbrev fresh : Progresser (List ℕ)
fresh = record { progress = []; total = 5; count = 0 }

shows_100 :
    copy_progress memory log shown 2 true three [] []
    ≡ returns (true, record three { pos = 3 }, 1 ∷ 2 ∷ 3 ∷ [], 100 ∷ 100 ∷ [])
unfolding copy_progress progress_loop report share memory In.read In.end In.size load
shows_100 = refl

pads_two :
    copy_sized memory log shown percent 9 true 5 three [] fresh
    ≡ returns (
      true,
      record three { pos = 3 },
      1 ∷ 2 ∷ 3 ∷ 0 ∷ 0 ∷ [],
      record fresh { progress = 100 ∷ 60 ∷ []; count = 5 },
    )
unfolding copy_sized sized_loop pad_loop cancelled update memory In.read In.end load
pads_two = refl

forget-copy_progresser_run :
    forget (copy_progresser memory log shown percent 4 true three [] fresh)
    ≡ copy memory log 4 true three []
forget-copy_progresser_run =
    forget-copy_progresser memory log shown percent (λ p. refl) 4 true three [] fresh

copy_sized-filled_example :
    (source : MemoryIn) × (target : List ℕ) × (g : Progresser (List ℕ)) × (copy_sized memory log
        shown percent 9 true 5 three [] fresh
      ≡ returns (true, source, target, g))
    × (target ≡ [] ++ filled 5 (1 ∷ 2 ∷ 3 ∷ []))
    × (length (filled 5 (1 ∷ 2 ∷ 3 ∷ [])) ≡ 5)
copy_sized-filled_example =
    copy_sized-filled shown percent (memory_source 8192) log_sink (λ st f. f) (omega arith)
      (λ st f. f) (omega arith) (λ p. refl) 9 5 three [] fresh (omega arith) (omega arith)
      (omega arith) tt
