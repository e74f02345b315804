-- ===== src/Windows/Thread.antt =====
-- `class Thread` of src/windows/thread.cc. The parts of an operation between which it may wait are one
-- function each; `mutex_` is held during each, and while `signal_all` waits for its waiters.
mod Tests
use ckcore.Base.{
  ℕ, suc, ◌+◌, ◌-◌, ◌<◌, ◌≤◌, ◌≡◌, refl, Bool, true, false, not, ◌||◌, ◌&&◌, ltb, ◌==◌,
  if◌then◌else◌, arith, Bool-cases, inl, inr,
}
use ckcore.Windows.Condition
use ckcore.Windows.Condition.{Condition, enter, awake, signal_all_begin, signal_all_end}

-- The fields `running_` and `thread_done_`, and beside them the number of native threads that have not
-- taken the mutex at their end.
pub record Thread : Type 0 where
  pub running : Bool
  pub thread_done : Condition
  pub living : ℕ

unfoldable pub create : Thread
unfolding Condition.create
create = record { running = false; thread_done = Condition.create; living = 0 }

-- `created` is whether CreateThread gave a handle. The new thread sets `start_event_` before all else, so
-- that the wait for it ends while the mutex is held.
unfoldable pub start : Bool → Thread → Bool × Thread
start created t =
    if t.running
    then (false, t)
    else (if created
        then (true, record t { running = true; living = suc t.living })
        else (false, t))

-- `wait`, up to where it waits for the condition: whether it does. `by_itself` is the comparison of
-- `thread_` with what GetCurrentThread gives.
unfoldable pub wait_begin : Bool → Thread → Bool × Thread
wait_begin by_itself t =
    if by_itself || not t.running
    then (false, t)
    else (true, record t { thread_done = enter t.thread_done })

-- What follows `signal_all` in `native_thread` and `kill`.
unfoldable pub stop : Thread → Thread
stop t = record t { running = false }

-- `signal_all`, up to where it waits, or with what follows it where nobody waits; and its end, with what
-- follows.
unfoldable pub tell_all : Thread → Thread
unfolding stop
tell_all t =
    let told : Thread = record t { thread_done = signal_all_begin t.thread_done } in
    if ltb 0 t.thread_done.waiters then told else stop told

unfoldable pub told_all : Thread → Thread
unfolding stop
told_all t = stop (record t { thread_done = signal_all_end t.thread_done })

-- The end of `native_thread`, once it has the mutex.
unfoldable pub finish : Thread → Thread
unfolding tell_all
finish t = tell_all (record t { living = t.living - 1 })

-- `terminated` is whether TerminateThread succeeded.
unfoldable pub kill : Bool → Thread → Bool × Thread
unfolding tell_all
kill terminated t =
    if not t.running || not terminated
    then (false, t)
    else (true, tell_all (record t { living = t.living - 1 }))

-- A step in which no time is over. While `signal_all` waits its caller has the mutex.
pub data Step : Thread → Thread → Type 0 where
  starts :
      {t : Thread} (created : Bool) → t.thread_done.broadcast ≡ false → Step t (start created t).1
  waits :
      {t : Thread} (by_itself : Bool)
      → t.thread_done.broadcast ≡ false
      → Step t (wait_begin by_itself t).1
  finishes : {t : Thread} → t.thread_done.broadcast ≡ false → 0 < t.living → Step t (finish t)
  kills :
      {t : Thread} (terminated : Bool)
      → t.thread_done.broadcast ≡ false
      → Step t (kill terminated t).1
  awakes :
      {t : Thread}
      → 0 < t.thread_done.waiters
      → 0 < t.thread_done.sema
      → Step t (record t { thread_done = awake t.thread_done })
  returns_all :
      {t : Thread}
      → t.thread_done.broadcast ≡ true
      → t.thread_done.waiters_done ≡ true
      → Step t (told_all t)

pub data Reach : Thread → Type 0 where
  new : Reach create
  later : {t u : Thread} → Reach t → Step t u → Reach u

-- One native thread lives while the thread counts as running, but for the end of a broadcast. Nobody
-- waits for a thread that is not running; in a broadcast the semaphore has one for each waiter, and the
-- event is set exactly when none is left.
pub record IsOver (t : Thread) : Type 0 where
  pub lives : t.thread_done.broadcast ≡ false → t.living ≡ (if t.running then 1 else 0)
  pub left : t.running ≡ false → (t.thread_done.waiters ≡ 0) × (t.thread_done.broadcast ≡ false)
  pub ends : t.thread_done.broadcast ≡ true → t.living ≡ 0
  pub quiet :
      t.thread_done.broadcast ≡ false
      → (t.thread_done.sema ≡ 0) × (t.thread_done.waiters_done ≡ false)
  pub served : t.thread_done.broadcast ≡ true → t.thread_done.sema ≡ t.thread_done.waiters
  pub told :
      t.thread_done.broadcast ≡ true → t.thread_done.waiters_done ≡ (t.thread_done.waiters == 0)

start-IsOver :
    {t : Thread} (created : Bool)
    → t.thread_done.broadcast ≡ false
    → IsOver t
    → IsOver (start created t).1
unfolding start
start-IsOver {t} created idle v = ground (arith, v.lives idle, v.quiet idle, v.left)

wait-IsOver :
    {t : Thread} (by_itself : Bool)
    → t.thread_done.broadcast ≡ false
    → IsOver t
    → IsOver (wait_begin by_itself t).1
unfolding wait_begin enter
wait-IsOver {t} by_itself idle v = ground (arith, v.lives idle, v.quiet idle, v.left)

tell_all-IsOver :
    {t : Thread}
    → t.thread_done.broadcast ≡ false
    → t.running ≡ true
    → IsOver t
    → IsOver (tell_all (record t { living = t.living - 1 }))
unfolding tell_all stop signal_all_begin
tell_all-IsOver {t} idle on v = ground (arith, v.lives idle, v.quiet idle)

told_all-IsOver :
    {t : Thread}
    → t.thread_done.broadcast ≡ true
    → t.thread_done.waiters_done ≡ true
    → IsOver t
    → IsOver (told_all t)
unfolding told_all stop signal_all_end
told_all-IsOver {t} b set v = ground (arith, v.served b, v.told b, v.ends b)

awake-IsOver :
    {t : Thread}
    → 0 < t.thread_done.waiters
    → 0 < t.thread_done.sema
    → IsOver t
    → IsOver (record t { thread_done = awake t.thread_done })
unfolding awake
awake-IsOver {t} waiting some_left v = elim (Bool-cases t.thread_done.broadcast) [
  | inl b ↦ ground (arith, v.served b, v.told b, v.ends b, v.left)
  | inr idle ↦ absurd (omega (arith, v.quiet idle))
]

Step-IsOver : {t u : Thread} → Step t u → IsOver t → IsOver u
unfolding finish kill
Step-IsOver (Step.starts created idle) v = start-IsOver created idle v
Step-IsOver (Step.waits by_itself idle) v = wait-IsOver by_itself idle v
Step-IsOver {t} (Step.finishes idle living) v = elim (Bool-cases t.running) [
  | inl on ↦ tell_all-IsOver idle on v
  | inr off ↦ absurd (ground (arith, v.lives idle, off))
]
Step-IsOver {t} (Step.kills terminated idle) v =
    elim (Bool-cases (not t.running || not terminated)) [
      | inl e ↦ rw e v
      | inr e ↦ rw e (tell_all-IsOver idle (ground (arith, e)) v)
    ]
Step-IsOver (Step.awakes waiting some_left) v = awake-IsOver waiting some_left v
Step-IsOver (Step.returns_all b set) v = told_all-IsOver b set v

create-IsOver : IsOver create
unfolding create Condition.create
create-IsOver = record {
  lives = λ e. refl;
  left = λ e. (refl, refl);
  ends = λ e. absurd cc;
  quiet = λ e. (refl, refl);
  served = λ e. absurd cc;
  told = λ e. absurd cc;
}

-- In every run of a `Thread` on Windows in which no wait times out, whichever threads call `start`,
-- `wait` and `kill` and whenever the native thread ends: one native thread lives exactly while the
-- thread counts as running and is not being told as over; nobody waits for a thread that does not count
-- as running; and while its waiters are told, the semaphore has one for each that is left, and the
-- event that ends this is set exactly when none is.
pub Reach-IsOver : {t : Thread} → Reach t → IsOver t
Reach-IsOver Reach.new = create-IsOver
Reach-IsOver (Reach.later r step) = Step-IsOver step (Reach-IsOver r)
