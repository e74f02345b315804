-- ===== src/Sync/Tests.antt =====
-- The theorems on conditions and lockers at concrete values.
use ckcore.Base.{◌<◌, ◌≡◌, ◌↔◌, refl, Bool, true, false, not, List, [], ◌∷◌, returns, arith}
use ckcore.Sync.{
  Condition, signal_one, signal_all, enter, leave, wait, wait_loop, Lockable, Locker, unlock,
  relock, destroy,
}
use ckcore.Sync.Thread as Thread
use ckcore.Sync.Thread.{Thread, start, cleanup, wait_begin, Step, Reach, IsAwaited, Reach-IsAwaited}
use ckcore.Sync.Wakeups.{IsFair, signals-IsFair, wait-woken}
use ckcore.Sync.Lock.{IsLock, Knows, locker_lem}

abbrev one_waits : Condition
one_waits = record { waiters = 1; wakeups = 1 }

signals-IsFair_run :
    IsFair (signal_one one_waits)
    × IsFair (signal_all one_waits)
    × IsFair (enter one_waits)
    × (0 < one_waits.wakeups → IsFair (leave one_waits true))
    × (IsFair (leave one_waits false) ↔ (one_waits.wakeups < one_waits.waiters))
signals-IsFair_run = signals-IsFair one_waits (omega arith) (omega arith) (omega arith)

-- A call that returns too early, and one after a signal.
abbrev calls : List (Bool × Condition)
calls = (true, record { waiters = 1; wakeups = 0 }) ∷ (true, one_waits) ∷ []

waits : wait calls (record { waiters = 0; wakeups = 0 }) ≡ returns (true, leave one_waits true)
unfolding wait wait_loop enter leave
waits = refl

wait-woken_run : (last : Condition) × (0 < last.wakeups) × (leave one_waits true ≡ leave last true)
wait-woken_run = wait-woken calls (record { waiters = 0; wakeups = 0 }) (leave one_waits true) waits

-- A mutex that is one bit.
abbrev bit : Lockable Bool
bit = record { lock = λ s. (not s, true); unlock = λ s. (s, false) }

abbrev held : Bool → Bool
held s = s

bit-locks : (s : Bool) → s ≡ false → true ≡ not s
bit-locks s h = ground arith

bit-unlocks : (s : Bool) → s ≡ true → false ≡ not s
bit-unlocks s h = ground arith

bit-IsLock : IsLock bit held
bit-IsLock = record { locks = bit-locks; unlocks = bit-unlocks }

abbrev locked_bit : Locker Bool
locked_bit = record { lockable = true; is_locked = true }

locker_lem_run :
    Knows bit-IsLock (unlock bit locked_bit).1
    × Knows bit-IsLock (relock bit locked_bit).1
    × (locked_bit.is_locked ≡ false → (unlock bit locked_bit).0 ≡ false)
    × (locked_bit.is_locked ≡ true → (relock bit locked_bit).0 ≡ false)
    × ((bit.unlock locked_bit.lockable).0 ≡ true → held (destroy bit locked_bit) ≡ false)
locker_lem_run = locker_lem bit-IsLock locked_bit refl

-- A thread is started, one waits for it, and it ends.
abbrev ended_thread : Thread
ended_thread = cleanup (wait_begin false (start true Thread.create).1).1

thread_run : Reach ended_thread
unfolding start wait_begin Thread.create enter
thread_run =
    Reach.later
      (Reach.later (Reach.later Reach.new (Step.starts true)) (Step.waits false (omega arith)))
      (Step.ends (omega arith))

Reach-IsAwaited_example : IsAwaited ended_thread
Reach-IsAwaited_example = Reach-IsAwaited thread_run
