-- ===== src/Stream/Progress/Forget.antt =====
-- A copy that is not cancelled moves the same bytes as the copy without progress.
use ckcore.Base.{
  ℕ, zero, suc, ◌≡◌, refl, Bool, true, false, Option, none, some, List, Outcome, returns, fault,
  stuck, ◌>>=◌, Bool-cases, inl, inr,
}
use ckcore.Stream.{InStream, OutStream}
use ckcore.Stream.Copy.{buffer_size, copy_loop, copy}
use ckcore.Stream.Progress.{
  Progress, Progresser, cancelled, update, progresser_loop, copy_progresser,
}

-- An interface that never asks to cancel.
abbrev pub NeverCancels : {P : Type 0} → Progress P → Type 0
NeverCancels {P} interface = (p : P) → (interface.cancelled p).0 ≡ false

module _ {S T P : Type 0} where
  -- The outcome of a copy without what it reported.
  abbrev pub forget : Outcome (Bool × S × T × Progresser P) → Outcome (Bool × S × T)
  forget (returns (done, source, target, g)) = returns (done, source, target)
  forget fault = fault
  forget stuck = stuck

module _ {S T P : Type 0} (from : InStream S) (to : OutStream T) (interface : Progress P)
    (percent : ℕ → ℕ → ℕ) (never : NeverCancels interface) where
  goes_on : (g : Progresser P) → (cancelled interface percent g).0 ≡ false
  unfolding cancelled
  goes_on g = never g.progress

  -- One round, given that the rounds after it agree.
  forget-write :
      (fuel : ℕ) (source : S) (g : Progresser P) (w : Outcome (Option ℕ × T))
      → ((t : T) (g' : Progresser P)
          → forget (progresser_loop from to interface percent fuel source t g')
            ≡ copy_loop from to fuel source t)
      → forget (do
        (result, target') ← w
        elim result [
          | none ↦ returns (false, source, target', g)
          | some n ↦
              progresser_loop from to interface percent fuel source target'
                (update interface percent g n)
        ])
        ≡ (do
          (written, target') ← w
          elim written [
            | none ↦ returns (false, source, target')
            | some _ ↦ copy_loop from to fuel source target'
          ])
  forget-write fuel source g (returns (none, t)) ih = refl
  forget-write fuel source g (returns (some n, t)) ih = ih t (update interface percent g n)
  forget-write fuel source g fault ih = refl
  forget-write fuel source g stuck ih = refl

  forget-read :
      (fuel : ℕ) (target : T) (g : Progresser P) (r : Outcome (Option (List ℕ) × S))
      → ((s : S) (t : T) (g' : Progresser P)
          → forget (progresser_loop from to interface percent fuel s t g')
            ≡ copy_loop from to fuel s t)
      → forget (do
        (res, source') ← r
        elim res [
          | none ↦ returns (false, source', target, g)
          | some bytes ↦ do
            (result, target') ← to.write target bytes
            elim result [
              | none ↦ returns (false, source', target', g)
              | some n ↦
                  progresser_loop from to interface percent fuel source' target'
                    (update interface percent g n)
            ]
        ])
        ≡ (do
          (res, source') ← r
          elim res [
            | none ↦ returns (false, source', target)
            | some bytes ↦ do
              (written, target') ← to.write target bytes
              elim written [
                | none ↦ returns (false, source', target')
                | some _ ↦ copy_loop from to fuel source' target'
              ]
          ])
  forget-read fuel target g (returns (none, s)) ih = refl
  forget-read fuel target g (returns (some bytes, s)) ih =
      forget-write fuel s g (to.write target bytes) (ih s)
  forget-read fuel target g fault ih = refl
  forget-read fuel target g stuck ih = refl

  forget-loop :
      (fuel : ℕ) (source : S) (target : T) (g : Progresser P)
      → forget (progresser_loop from to interface percent fuel source target g)
        ≡ copy_loop from to fuel source target
  unfolding progresser_loop copy_loop
  forget-loop zero source target g = refl
  forget-loop (suc fuel) source target g =
      let ih = forget-loop fuel in
      elim (Bool-cases (from.end source)) [
        | inl e ↦ rw (e, progresser_loop, copy_loop) refl
        | inr e ↦
            rw (e, progresser_loop, copy_loop, goes_on g)
              (forget-read fuel target (cancelled interface percent g).1
                (from.read source buffer_size) ih)
      ]

  -- With an interface that never asks to cancel, the copy with a `Progresser` returns what the copy
  -- without progress returns, faults where it does and runs as long, and leaves the streams the same.
  pub forget-copy_progresser :
      (fuel : ℕ) (allocated : Bool) (source : S) (target : T) (g : Progresser P)
      → forget (copy_progresser from to interface percent fuel allocated source target g)
        ≡ copy from to fuel allocated source target
  unfolding copy_progresser copy
  forget-copy_progresser fuel true source target g = forget-loop fuel source target g
  forget-copy_progresser fuel false source target g = refl
