-- ===== src/Windows/Condition.antt =====
-- `WaitCondition` of src/windows/thread.cc. The parts of an operation between which it may wait are one
-- function each.
use ckcore.Base.{ℕ, suc, ◌+◌, ◌-◌, Bool, true, false, ◌&&◌, ltb, ◌==◌, if◌then◌else◌}

-- The fields, with the count of the semaphore and whether `waiters_done_` is set.
pub record Condition : Type 0 where
  pub broadcast : Bool
  pub waiters : ℕ
  pub sema : ℕ
  pub waiters_done : Bool

unfoldable pub create : Condition
create = record { broadcast = false; waiters = 0; sema = 0; waiters_done = false }

-- `wait`, up to where it waits for the semaphore.
unfoldable pub enter : Condition → Condition
enter c = record c { waiters = suc c.waiters }

-- A waiter that has taken the semaphore: the last one of a broadcast tells the signaler.
unfoldable pub awake : Condition → Condition
awake c = record c {
  waiters = c.waiters - 1;
  sema = c.sema - 1;
  waiters_done = if c.broadcast && (c.waiters - 1 == 0) then true else c.waiters_done;
}

-- A waiter whose time is over.
unfoldable pub expire : Condition → Condition
expire c = record c { waiters = c.waiters - 1 }

unfoldable pub signal_one : Condition → Condition
signal_one c = if ltb 0 c.waiters then record c { sema = suc c.sema } else c

-- `signal_all`, up to where it waits for the event, and from there on. The event resets itself.
unfoldable pub signal_all_begin : Condition → Condition
signal_all_begin c =
    if ltb 0 c.waiters then record c { broadcast = true; sema = c.sema + c.waiters } else c

unfoldable pub signal_all_end : Condition → Condition
signal_all_end c = record c { broadcast = false; waiters_done = false }
