-- ===== src/ThreadPool/Steps.antt =====
-- The runs of a pool whose threads start when they are asked to, between two calls of `wait`.
use ckcore.Base.{ℕ, ◌<◌, ◌≡◌, true, false, some, List, [], ◌∷◌, ◌++◌, if◌then◌else◌}
use ckcore.ThreadPool.{
  Pool, Place, create, place_at, start, start_now, reserve, set_retire_timeout, begin_task,
  end_task, awake,
}

-- A step with the tasks that the pool takes in it.
pub data Step (p : Pool) : List ℕ → Pool → Type 0 where
  start_call : (task priority : ℕ) → Step p (task ∷ []) (start true p (some task) priority).1
  start_now_call :
      (task : ℕ)
      → Step p
          (if (start_now true p (some task)).0 then task ∷ [] else [])
          (start_now true p (some task)).1
  reserve_call : (num_threads : ℕ) → Step p [] (reserve true p num_threads)
  set_timeout_call : (timeout : ℕ) → Step p [] (set_retire_timeout p timeout)
  task_begins :
      (i task : ℕ)
      → place_at p.threads i ≡ some (Place.ready task)
      → Step p [] (begin_task p i task)
  task_ends :
      (i task : ℕ)
      → place_at p.threads i ≡ some (Place.running task)
      → Step p [] (end_task p i task)
  wakes :
      (i : ℕ)
      → place_at p.threads i ≡ some Place.waiting
      → 0 < p.task_ready.wakeups
      → Step p [] (awake p i false)
  expires : (i : ℕ) → place_at p.threads i ≡ some Place.waiting → Step p [] (awake p i true)

-- The pools that come from a new one, with all the tasks that they have taken.
pub data Reach (ideal : ℕ) : List ℕ → Pool → Type 0 where
  new : Reach ideal [] (create ideal)
  later :
      {tasks : List ℕ} {p : Pool} {more : List ℕ} {q : Pool}
      → Reach ideal tasks p
      → Step p more q
      → Reach ideal (more ++ tasks) q
