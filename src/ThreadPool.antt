-- ===== src/ThreadPool.antt =====
-- `class ThreadPool` of src/threadpool.cc. Every operation holds the pool's mutex from its begin to
-- its end, or to where it gives it up, so that each is one step of the pool.
pub mod Steps
pub mod Tally
pub mod Counts
mod CountedTurns
pub mod Invariant
pub mod Tasks
mod Turns
pub mod Conservation
pub mod Faults
pub mod Waiting
mod Tests
use ckcore.Base.{
  ℕ, zero, suc, ◌+◌, Bool, true, false, not, ◌&&◌, ◌||◌, Option, none, some, List, [], ◌∷◌, ◌++◌,
  ltb, leb, ◌==◌, if◌then◌else◌, length, add32, sub32, ◌%◌, ◌^◌,
}
use ckcore.Sync.{Condition, signal_one, signal_all, enter, leave}
use ckcore.Sync

-- Where a thread is: it holds a task that it has not begun, runs one outside the mutex, waits for
-- the condition, has returned as retired or because the pool exits, or holds a task although its
-- start failed.
pub data Place : Type 0 where
  ready : ℕ → Place
  running : ℕ → Place
  waiting retired finished : Place
  stranded : ℕ → Place

-- The fields of the class, and beside them what the threads do and which tasks have run. Tasks are
-- their addresses, threads their places in `threads`. The lists of threads have the last one first,
-- and the queue has its top first.
pub record Pool : Type 0 where
  pub exiting : Bool
  pub max_threads : ℕ
  pub pol_threads : ℕ
  pub res_threads : ℕ
  pub idl_threads : ℕ
  pub task_ready : Condition
  pub all_threads : List ℕ
  pub ret_threads : List ℕ
  pub ret_timeout : ℕ
  pub queue : List (ℕ × ℕ)
  pub threads : List Place
  pub done : List ℕ

abbrev pub thread_retire_timeout : ℕ
thread_retire_timeout = 20000

-- The constructor; `ideal` is what `thread::ideal_count` returns.
unfoldable pub create : ℕ → Pool
create ideal = record {
  exiting = false;
  max_threads = ideal;
  pol_threads = 0;
  res_threads = 0;
  idl_threads = 0;
  task_ready = record { waiters = 0; wakeups = 0 };
  all_threads = [];
  ret_threads = [];
  ret_timeout = thread_retire_timeout;
  queue = [];
  threads = [];
  done = [];
}

abbrev pub place_at : List Place → ℕ → Option Place
place_at [] i = none
place_at (x ∷ xs) zero = some x
place_at (x ∷ xs) (suc i) = place_at xs i

abbrev pub set_place : List Place → ℕ → Place → List Place
set_place [] i q = []
set_place (x ∷ xs) zero q = q ∷ xs
set_place (x ∷ xs) (suc i) q = x ∷ set_place xs i q

unfoldable pub active_threads : Pool → ℕ
active_threads p =
    sub32
      (sub32 (add32 (length p.all_threads % 2 ^ 32) p.res_threads) (length p.ret_threads % 2 ^ 32))
      p.idl_threads

unfoldable pub overworking : Pool → Bool
overworking p = ltb p.max_threads (active_threads p)

-- The order of the priority queue, on pairs: by the address first.
unfoldable pub above : ℕ × ℕ → ℕ × ℕ → Bool
above (t, a) (u, b) = ltb u t || ((t == u) && ltb b a)

unfoldable pub push : ℕ × ℕ → List (ℕ × ℕ) → List (ℕ × ℕ)
push e [] = e ∷ []
push e (x ∷ q) = let rest = push e q in if above e x then e ∷ (x ∷ q) else x ∷ rest

unfoldable pub enqueue : Pool → ℕ → ℕ → Pool
enqueue p task priority = record p {
  queue = push (task, priority) p.queue;
  task_ready = signal_one p.task_ready;
}

-- `created` is what `thread->start()` returns.
abbrev pub handed : Bool → ℕ → Place
handed created task = if created then Place.ready task else Place.stranded task

unfoldable pub spawn : Bool → Pool → ℕ → Bool × Pool
spawn created p task = (
  created,
  record p {
    all_threads = length p.threads ∷ p.all_threads;
    pol_threads = add32 p.pol_threads 1;
    threads = p.threads ++ (handed created task ∷ []);
  },
)

-- A retired thread is started again, whatever `thread->start()` returns.
unfoldable pub restart : Bool → Pool → ℕ → List ℕ → ℕ → Bool × Pool
restart created p thread others task = (
  true,
  record p {
    ret_threads = others;
    pol_threads = add32 p.pol_threads 1;
    threads = set_place p.threads thread (handed created task);
  },
)

unfoldable pub place_task : Bool → Pool → ℕ → List ℕ → Bool × Pool
place_task created p task [] = spawn created p task
place_task created p task (thread ∷ others) = restart created p thread others task

unfoldable pub try_start : Bool → Pool → ℕ → Bool × Pool
try_start created p task =
    if leb p.max_threads (active_threads p)
    then (false, p)
    else (if ltb 0 p.idl_threads
        then (true, enqueue (record p { idl_threads = sub32 p.idl_threads 1 }) task 0)
        else place_task created p task p.ret_threads)

-- A task is `none` where the pointer is null.
unfoldable pub start : Bool → Pool → Option ℕ → ℕ → Bool × Pool
start created p none priority = (false, p)
start created p (some task) priority =
    let r = try_start created p task in
    if r.0 then (true, r.1) else (true, enqueue r.1 task priority)

unfoldable pub start_now : Bool → Pool → Option ℕ → Bool × Pool
start_now created p none = (false, p)
start_now created p (some task) =
    if ltb p.max_threads (active_threads p) then (false, p) else try_start created p task

-- The blocked task that `reserve` starts, when fewer threads are reserved than before.
unfoldable pub unblock : Bool → Pool → List (ℕ × ℕ) → Pool
unblock created p [] = p
unblock created p (entry ∷ rest) =
    let r = try_start created (record p { queue = rest }) entry.0 in
    if r.0 then r.1 else record r.1 { queue = push entry r.1.queue }

unfoldable pub reserve : Bool → Pool → ℕ → Pool
reserve created p num_threads =
    let p' = record p {
      res_threads = if ltb p.max_threads num_threads then p.max_threads else num_threads;
    } in
    if ltb num_threads p.res_threads then unblock created p' p.queue else p'

unfoldable pub set_retire_timeout : Pool → ℕ → Pool
set_retire_timeout p timeout = record p { ret_timeout = timeout }

-- `InternalThread::run`, in the parts between which it does not hold the mutex. First, what a thread
-- without a task does: it leaves when the pool exits, retires, or waits.
unfoldable pub settle : Pool → ℕ → Pool
settle p i =
    if p.exiting
    then record p {
      pol_threads = sub32 p.pol_threads 1;
      threads = set_place p.threads i Place.finished;
    }
    else (if overworking p
        then record p {
          ret_threads = i ∷ p.ret_threads;
          pol_threads = sub32 p.pol_threads 1;
          threads = set_place p.threads i Place.retired;
        }
        else record p {
          idl_threads = add32 p.idl_threads 1;
          pol_threads = sub32 p.pol_threads 1;
          task_ready = enter p.task_ready;
          threads = set_place p.threads i Place.waiting;
        })

-- The thread takes the top of the queue, if there is one.
unfoldable pub fetch : Pool → ℕ → List (ℕ × ℕ) → Pool
fetch p i [] = settle p i
fetch p i (entry ∷ rest) = record p {
  queue = rest;
  threads = set_place p.threads i (Place.running entry.0);
}

-- The task that the thread was started with.
unfoldable pub begin_task : Pool → ℕ → ℕ → Pool
begin_task p i task = record p { threads = set_place p.threads i (Place.running task) }

-- From the end of a task on.
unfoldable pub end_task : Pool → ℕ → ℕ → Pool
end_task p i task =
    let p' = record p { done = task ∷ p.done } in
    if overworking p' then settle p' i else fetch p' i p.queue

-- From the return of the wait on.
unfoldable pub awake : Pool → ℕ → Bool → Pool
awake p i expired =
    let p' = record p {
      task_ready = leave p.task_ready (not expired);
      pol_threads = add32 p.pol_threads 1;
    } in
    if expired
    then record p' {
      idl_threads = sub32 p.idl_threads 1;
      ret_threads = i ∷ p.ret_threads;
      pol_threads = sub32 p'.pol_threads 1;
      threads = set_place p.threads i Place.retired;
    }
    else fetch p' i p.queue

-- `wait`, up to the first release of the mutex, and the reset after the last thread has ended.
unfoldable pub begin_exit : Pool → Pool
begin_exit p = record p { exiting = true; task_ready = signal_all p.task_ready }

-- The threads that `wait` then waits for, without the mutex, before it deletes them.
unfoldable pub collect : Pool → List ℕ × Pool
collect p = (p.all_threads, record p { all_threads = [] })

unfoldable pub end_exit : Pool → Pool
end_exit p = record p { ret_threads = []; pol_threads = 0; idl_threads = 0; exiting = false }
