-- ===== src/Sync/Wakeups.antt =====
-- The wake-ups of a condition.
use ckcore.Base.{
  ◌+◌, ◌^◌, ◌<◌, ◌≤◌, ◌≡◌, ◌↔◌, refl, Bool, true, false, List, [], ◌∷◌, Outcome, returns, ◌==◌,
  arith, Bool-cases, inl, inr,
}
use ckcore.Sync.{Condition, signal_one, signal_all, enter, leave, wait_loop, wait}

-- No more threads are to wake than wait.
abbrev pub IsFair : Condition → Type 0
IsFair c = c.wakeups ≤ c.waiters

-- With fewer than 2^32 - 1 waiters, at least one, and no more wake-ups than waiters, that is so after
-- each operation: both signals, the beginning of a wait, and the end of one that takes a wake-up.
-- After the end of one that does not, it is so exactly when there were fewer wake-ups than waiters.
pub signals-IsFair :
    (c : Condition)
    → c.waiters + 1 < 2 ^ 32
    → 0 < c.waiters
    → IsFair c
    → IsFair (signal_one c)
      × IsFair (signal_all c)
      × IsFair (enter c)
      × (0 < c.wakeups → IsFair (leave c true))
      × (IsFair (leave c false) ↔ (c.wakeups < c.waiters))
unfolding signal_one signal_all enter leave
signals-IsFair c w pos h = (
  omega arith,
  omega arith,
  omega arith,
  λ s. omega arith,
  ((λ f. omega arith), (λ f. omega arith)),
)

woken_eq :
    (c d : Condition) (r : Outcome (Bool × Condition))
    → r ≡ returns (true, c)
    → r ≡ returns (true, d)
    → d ≡ c
woken_eq c d r e h = cc

loop-woken :
    (calls : List (Bool × Condition)) (c d : Condition)
    → wait_loop calls c ≡ returns (true, d)
    → (last : Condition) × (0 < last.wakeups) × (d ≡ leave last true)
unfolding wait_loop
loop-woken [] c d h = cc
loop-woken ((false, c') ∷ calls) c d h = cc
loop-woken ((true, c') ∷ calls) c d h = elim (Bool-cases (c'.wakeups == 0)) [
  | inl e ↦ loop-woken calls c' d (rw e at h)
  | inr e ↦
      let left : 0 < c'.wakeups = ground (arith, e) in
      (c', left, woken_eq (leave c' true) d (returns (true, leave c' true)) refl (rw e at h))
]

-- A wait that returns true took a wake-up: one was left when the last call of pthreads returned, and
-- the wait counted itself out of the waiters and it out of the wake-ups.
pub wait-woken :
    (calls : List (Bool × Condition)) (c d : Condition)
    → wait calls c ≡ returns (true, d)
    → (last : Condition) × (0 < last.wakeups) × (d ≡ leave last true)
unfolding wait
wait-woken calls c d h = loop-woken calls (enter c) d h
