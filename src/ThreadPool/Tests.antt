-- ===== src/ThreadPool/Tests.antt =====
-- Runs of the pool, and its theorems at concrete pools.
use ckcore.Base.{◌+◌, ◌≡◌, refl, true, false, some, [], ◌∷◌, returns, arith}
use ckcore.ThreadPool.{
  Place, Pool, create, place_at, active_threads, push, enqueue, spawn, place_task, try_start, start,
  begin_exit, collect, end_exit, end_task, awake,
}
use ckcore.ThreadPool.Tally.{tally, is_waiting, occurs}
use ckcore.ThreadPool.Tasks.{held}
use ckcore.ThreadPool.Steps.{Step, Reach}
use ckcore.ThreadPool.Counts.{IsCounted}
use ckcore.ThreadPool.Waiting.{wait, join_loop, joined_then}
use ckcore.ThreadPool.Invariant.{Reach-IsCounted}
use ckcore.ThreadPool.Conservation.{held-Reach}
use ckcore.ThreadPool.Faults.{push-address, end_task-collect, start-awake_idle}

-- Two tasks, for a pool of one thread.
abbrev two_started : Pool
two_started = (start true (start true (create 1) (some 7) 0).1 (some 8) 3).1

two_started-queue : two_started.queue ≡ (8, 3) ∷ []
unfolding start create try_start active_threads place_task spawn enqueue push
two_started-queue = refl

run : Reach 1 (8 ∷ 7 ∷ []) two_started
run = Reach.later (Reach.later Reach.new (Step.start_call 7 0)) (Step.start_call 8 3)

Reach-IsCounted_example : IsCounted two_started
Reach-IsCounted_example = Reach-IsCounted run

held-Reach_example : held 8 two_started ≡ occurs 8 (8 ∷ 7 ∷ [])
held-Reach_example = held-Reach 8 run

push-address_run :
    (push (4, 9) (push (5, 1) []) ≡ (5, 1) ∷ ((4, 9) ∷ []))
    × (push (5, 1) (push (4, 9) []) ≡ (5, 1) ∷ ((4, 9) ∷ []))
push-address_run = push-address 4 5 9 1 (omega arith)

-- A pool of at most two threads whose only one has retired.
abbrev retired_pool : Pool
retired_pool = record {
  exiting = false;
  max_threads = 2;
  pol_threads = 0;
  res_threads = 0;
  idl_threads = 0;
  task_ready = record { waiters = 0; wakeups = 0 };
  all_threads = 0 ∷ [];
  ret_threads = 0 ∷ [];
  ret_timeout = 20000;
  queue = [];
  threads = Place.retired ∷ [];
  done = [];
}

-- The pool in `wait`, with a retired thread and one that runs, and a task queued.
abbrev exiting_pool : Pool
exiting_pool = record retired_pool {
  exiting = true;
  pol_threads = 1;
  all_threads = 1 ∷ 0 ∷ [];
  threads = Place.retired ∷ Place.running 9 ∷ [];
  queue = (5, 0) ∷ [];
}

end_task-collect_example :
    ((end_task (collect exiting_pool).1 1 9).queue ≡ exiting_pool.queue)
    × (place_at (end_task (collect exiting_pool).1 1 9).threads 1 ≡ some Place.finished)
end_task-collect_example =
    end_task-collect exiting_pool 1 9 (Place.running 9) refl refl (omega arith) (omega arith) refl

-- A thread runs and one waits, and there is no room for more than one.
abbrev crowded_pool : Pool
crowded_pool = record retired_pool {
  max_threads = 1;
  pol_threads = 1;
  idl_threads = 1;
  task_ready = record { waiters = 1; wakeups = 0 };
  all_threads = 1 ∷ 0 ∷ [];
  ret_threads = [];
  threads = Place.waiting ∷ Place.running 9 ∷ [];
}

start-awake_idle_run :
    ((awake (start true crowded_pool (some 5) 0).1 0 false).idl_threads ≡ crowded_pool.idl_threads)
    × (tally is_waiting (awake (start true crowded_pool (some 5) 0).1 0 false).threads + 1
        ≡ tally is_waiting crowded_pool.threads)
start-awake_idle_run = start-awake_idle crowded_pool 5 0 0 (unfold active_threads in refl) refl

-- The second round finds no thread to join.
joins_two_started :
    wait ((λ p. p) ∷ (λ p. p) ∷ []) two_started
    ≡ returns (two_started.all_threads, end_exit (collect (begin_exit two_started)).1)
unfolding wait join_loop joined_then collect begin_exit start try_start create active_threads
    place_task spawn enqueue
joins_two_started = refl
