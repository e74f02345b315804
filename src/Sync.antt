-- ===== src/Sync.antt =====
-- src/unix/thread.cc and include/ckcore/locker.hh: condition variables, lockers and threads, over
-- what the calls of pthreads return.
pub mod Wakeups
pub mod Lock
pub mod Thread
mod Tests
use ckcore.Base.{
  ℕ, zero, suc, ◌+◌, Bool, true, false, not, ◌&&◌, Option, none, some, List, [], ◌∷◌, Outcome,
  returns, stuck, ◌>>=◌, ◌==◌, if◌then◌else◌, add32, sub32, min,
}

-- `WaitCondition`.
pub record Condition : Type 0 where
  pub waiters : ℕ
  pub wakeups : ℕ

unfoldable pub create : Condition
create = record { waiters = 0; wakeups = 0 }

unfoldable pub signal_one : Condition → Condition
signal_one c = record c { wakeups = min (add32 c.wakeups 1) c.waiters }

unfoldable pub signal_all : Condition → Condition
signal_all c = record c { wakeups = c.waiters }

-- The two parts of `wait`, before and after the calls of pthreads: the wait begins, and ends with
-- the result `res == 0` of the last of them.
unfoldable pub enter : Condition → Condition
enter c = record c { waiters = add32 c.waiters 1 }

unfoldable pub leave : Condition → Bool → Condition
leave c woken = record {
  waiters = sub32 c.waiters 1;
  wakeups = if woken then sub32 c.wakeups 1 else c.wakeups;
}

-- The loop of `wait`. Each call of pthreads gives whether it returned 0, and the condition as the
-- signals during it left it; the loop goes on after a call that returned 0 where no wake-up is left.
unfoldable pub wait_loop : List (Bool × Condition) → Condition → Outcome (Bool × Condition)
wait_loop [] c = stuck
wait_loop ((woken, c') ∷ calls) c =
    let again = wait_loop calls c' in
    if woken && (c'.wakeups == 0) then again else returns (woken, leave c' woken)

unfoldable pub wait : List (Bool × Condition) → Condition → Outcome (Bool × Condition)
wait calls c = wait_loop calls (enter c)

-- What a locker asks of the object that it locks: each call gives whether it succeeded.
pub record Lockable (S : Type 0) : Type 0 where
  pub lock : S → Bool × S
  pub unlock : S → Bool × S

-- `Locker<T>` beside the object that it refers to.
pub record Locker (S : Type 0) : Type 0 where
  pub lockable : S
  pub is_locked : Bool

module _ {S : Type 0} (o : Lockable S) where
  unfoldable pub locker : S → Locker S
  locker s = let r = o.lock s in record { lockable = r.1; is_locked = r.0 }

  -- The destructor: the object as it leaves it.
  unfoldable pub destroy : Locker S → S
  destroy l = if l.is_locked then (o.unlock l.lockable).1 else l.lockable

  unfoldable pub unlock : Locker S → Bool × Locker S
  unlock l =
      if not l.is_locked
      then (false, l)
      else (let r = o.unlock l.lockable in (r.0, record { lockable = r.1; is_locked = not r.0 }))

  unfoldable pub relock : Locker S → Bool × Locker S
  relock l =
      if l.is_locked
      then (false, l)
      else (let r = o.lock l.lockable in (r.0, record { lockable = r.1; is_locked = r.0 }))
