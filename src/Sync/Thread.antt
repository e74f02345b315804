-- ===== src/Sync/Thread.antt =====
-- `class Thread` of src/unix/thread.cc. The parts of an operation during which `mutex_` is held are
-- one function each; a step is one of them, by any thread.
use ckcore.Base.{
  ℕ, suc, ◌+◌, ◌-◌, ◌^◌, ◌<◌, ◌≤◌, ◌≡◌, refl, Bool, true, false, not, ◌||◌, Option, none, some,
  if◌then◌else◌, arith,
}
use ckcore.Sync.{Condition, enter, leave, signal_all}

-- The fields `running_` and `thread_done_`, and beside them the number of native threads that have not
-- passed `cleanup`.
pub record Thread : Type 0 where
  pub running : Bool
  pub thread_done : Condition
  pub living : ℕ

unfoldable pub create : Thread
create = record { running = false; thread_done = record { waiters = 0; wakeups = 0 }; living = 0 }

-- `created` is whether pthread_create(3) returned 0. The new thread passes `cleanup` only when `start`
-- has released the mutex.
unfoldable pub start : Bool → Thread → Bool × Thread
start created t =
    if t.running
    then (false, t)
    else (if created
        then (true, record t { running = true; living = suc t.living })
        else (false, t))

-- The end of `native_thread`, whether `run` returns, throws or is cancelled.
unfoldable pub cleanup : Thread → Thread
cleanup t = record {
  running = false;
  thread_done = signal_all t.thread_done;
  living = t.living - 1;
}

-- `wait`, up to where it waits for the condition: whether it does. `by_itself` is the test of the
-- thread's identifier.
unfoldable pub wait_begin : Bool → Thread → Bool × Thread
wait_begin by_itself t =
    if by_itself || not t.running
    then (false, t)
    else (true, record t { thread_done = enter t.thread_done })

-- The return from the condition, with what the last call of pthreads gave, which `wait` returns.
unfoldable pub wait_end : Bool → Thread → Bool × Thread
wait_end woken t = (woken, record t { thread_done = leave t.thread_done woken })

unfoldable pub kill_begin : Bool → Thread → Bool × Thread
kill_begin cancelled t =
    if not t.running || not cancelled
    then (false, t)
    else (true, record t { thread_done = enter t.thread_done })

unfoldable pub kill_end : Thread → Bool × Thread
kill_end t = (true, record t { thread_done = leave t.thread_done true; running = false })

-- `thread::ideal_count`; `none` is a return of -1 by sysconf(3).
unfoldable pub ideal_count : Option ℕ → ℕ
ideal_count none = 1
ideal_count (some count) = count

-- A step. A waiter leaves the condition only if it is one, and as woken only where a wake-up is left.
pub data Step : Thread → Thread → Type 0 where
  starts : {t : Thread} (created : Bool) → Step t (start created t).1
  ends : {t : Thread} → 0 < t.living → Step t (cleanup t)
  waits :
      {t : Thread} (by_itself : Bool)
      → t.thread_done.waiters + 1 < 2 ^ 32
      → Step t (wait_begin by_itself t).1
  kills :
      {t : Thread} (cancelled : Bool)
      → t.thread_done.waiters + 1 < 2 ^ 32
      → Step t (kill_begin cancelled t).1
  expires : {t : Thread} → 0 < t.thread_done.waiters → Step t (wait_end false t).1
  wakes :
      {t : Thread}
      → 0 < t.thread_done.waiters
      → 0 < t.thread_done.wakeups
      → Step t (wait_end true t).1
  killed :
      {t : Thread} → 0 < t.thread_done.waiters → 0 < t.thread_done.wakeups → Step t (kill_end t).1

pub data Reach : Thread → Type 0 where
  new : Reach create
  later : {t u : Thread} → Reach t → Step t u → Reach u

-- A thread counts as running only while a native thread lives. Where none lives, each waiter has a
-- wake-up left.
pub record IsAwaited (t : Thread) : Type 0 where
  pub lives : t.running ≡ true → 0 < t.living
  pub served : t.living ≡ 0 → t.thread_done.waiters ≤ t.thread_done.wakeups
  pub small : t.thread_done.waiters < 2 ^ 32
  pub small_wakeups : t.thread_done.wakeups < 2 ^ 32

-- The invariant of a test is that of its branches.
branch-IsAwaited :
    (b : Bool) (x y : Bool × Thread)
    → IsAwaited x.1
    → (b ≡ false → IsAwaited y.1)
    → IsAwaited (if b then x else y).1
branch-IsAwaited true x y vx vy = vx
branch-IsAwaited false x y vx vy = vy refl

-- A thread that waits for one that counts as running.
enter-IsAwaited :
    (t : Thread)
    → t.thread_done.waiters + 1 < 2 ^ 32
    → t.running ≡ true
    → IsAwaited t
    → IsAwaited (record t { thread_done = enter t.thread_done })
unfolding enter
enter-IsAwaited t few e v = record {
  lives = v.lives;
  served = λ h. absurd (omega (arith, h, v.lives e));
  small = omega arith;
  small_wakeups = v.small_wakeups;
}

-- A waiter leaves, and takes a wake-up with it if it was woken.
leave-IsAwaited :
    (t : Thread) (woken : Bool)
    → 0 < t.thread_done.waiters
    → (woken ≡ true → 0 < t.thread_done.wakeups)
    → IsAwaited t
    → IsAwaited (record t { thread_done = leave t.thread_done woken })
unfolding leave
leave-IsAwaited t true waiting left v =
    let small = v.small in
    let small_wakeups = v.small_wakeups in
    let some_left = left refl in
    record {
      lives = v.lives;
      served = λ h. (let served = v.served h in omega arith);
      small = omega arith;
      small_wakeups = omega arith;
    }
leave-IsAwaited t false waiting left v =
    let small = v.small in
    record {
      lives = v.lives;
      served = λ h. (let served = v.served h in omega arith);
      small = omega arith;
      small_wakeups = v.small_wakeups;
    }

stopped-IsAwaited : (t : Thread) → IsAwaited t → IsAwaited (record t { running = false })
stopped-IsAwaited t v = record {
  lives = λ h. cc;
  served = v.served;
  small = v.small;
  small_wakeups = v.small_wakeups;
}

Step-IsAwaited : {t u : Thread} → Step t u → IsAwaited t → IsAwaited u
unfolding start cleanup wait_begin wait_end kill_begin kill_end signal_all
Step-IsAwaited {t} (Step.starts created) v =
    branch-IsAwaited t.running (false, t) _ v
      λ e.
        branch-IsAwaited created (true, record t { running = true; living = suc t.living })
          (false, t)
          (record {
            lives = λ _. omega arith;
            served = λ h. absurd (omega (arith, h));
            small = v.small;
            small_wakeups = v.small_wakeups;
          })
          λ _. v
Step-IsAwaited {t} (Step.ends living) v = record {
  lives = λ h. cc;
  served = λ h. omega arith;
  small = v.small;
  small_wakeups = v.small;
}
Step-IsAwaited {t} (Step.waits by_itself few) v =
    branch-IsAwaited (by_itself || not t.running) (false, t)
      (true, record t { thread_done = enter t.thread_done }) v
      λ e. enter-IsAwaited t few (ground (arith, e)) v
Step-IsAwaited {t} (Step.kills cancelled few) v =
    branch-IsAwaited (not t.running || not cancelled) (false, t)
      (true, record t { thread_done = enter t.thread_done }) v
      λ e. enter-IsAwaited t few (ground (arith, e)) v
Step-IsAwaited {t} (Step.expires waiting) v = leave-IsAwaited t false waiting (λ e. absurd cc) v
Step-IsAwaited {t} (Step.wakes waiting left) v = leave-IsAwaited t true waiting (λ _. left) v
Step-IsAwaited {t} (Step.killed waiting left) v =
    stopped-IsAwaited (record t { thread_done = leave t.thread_done true })
      (leave-IsAwaited t true waiting (λ _. left) v)

create-IsAwaited : IsAwaited create
unfolding create
create-IsAwaited = record {
  lives = λ h. absurd cc;
  served = λ h. omega arith;
  small = omega arith;
  small_wakeups = omega arith;
}

-- In every run of a `Thread`, with at most 2^32 - 1 waiters at a time, whichever threads call `start`,
-- `wait` and `kill`, whatever those waits time out, and whenever a native thread ends: `running_` is set
-- only while a native thread has not passed its cleanup. Once all have, `thread_done_` has a wake-up for
-- every thread that still waits, so that none waits for ever.
pub Reach-IsAwaited : {t : Thread} → Reach t → IsAwaited t
Reach-IsAwaited Reach.new = create-IsAwaited
Reach-IsAwaited (Reach.later r step) = Step-IsAwaited step (Reach-IsAwaited r)
