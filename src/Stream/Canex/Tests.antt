-- ===== src/Stream/Canex/Tests.antt =====
-- A checked copy of 3 bytes to 5, whose padding reports the size of the last read.
use ckcore.Base.{ℕ, ◌≡◌, refl, true, false, List, [], ◌∷◌, returns, load, length}
use ckcore.Stream.Copy.Tests.{log, three}
use ckcore.MemoryStream.In
use ckcore.MemoryStream.In.{memory}
use ckcore.Stream.Progress.{Progress, Progresser, cancelled, update, copy_progresser, copy_sized}
use ckcore.Stream.Progress.Forget.{forget}
use ckcore.Stream.Canex.Agreement.{IsWhole, copies-agree}
use ckcore.Stream.Canex.{copy, sized, pad, read, write, end}

abbrev silent : Progress ℕ
silent = record { set_progress = λ p n. n; set_marquee = λ p on. p; cancelled = λ p. (false, p) }

abbrev fresh : Progresser ℕ
fresh = record { progress = 0; total = 5; count = 0 }

counts_six :
    sized memory log silent (λ now total. now) 9 0 5 three [] fresh
    ≡ returns (
      true,
      record three { pos = 3 },
      1 ∷ 2 ∷ 3 ∷ 0 ∷ 0 ∷ [],
      record fresh { progress = 6; count = 6 },
    )
unfolding sized pad read write end cancelled update memory In.read In.end load
counts_six = refl

copies_three_checked :
    copy memory log silent (λ now total. now) 9 three [] fresh
    ≡ returns
        (true, record three { pos = 3 }, 1 ∷ 2 ∷ 3 ∷ [], record fresh { progress = 3; count = 3 })
unfolding copy read write end cancelled update memory In.read In.end load
copies_three_checked = refl

log-IsWhole : (t : List ℕ) (bytes : List ℕ) → IsWhole (length bytes) (log.write t bytes)
log-IsWhole t bytes = refl

copies-agree_example :
    (copy memory log silent (λ now total. now) 9 three [] fresh
      ≡ copy_progresser memory log silent (λ now total. now) 9 true three [] fresh)
    × (forget (sized memory log silent (λ now total. now) 9 0 5 three [] fresh)
        ≡ forget (copy_sized memory log silent (λ now total. now) 9 true 5 three [] fresh))
copies-agree_example =
    copies-agree memory log silent (λ now total. now) (λ p. refl) log-IsWhole 9 5 three [] fresh
