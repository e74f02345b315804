-- ===== src/ThreadPool/Faults.antt =====
-- Where a pool loses tasks, leaves them, or miscounts.
use ckcore.Base.{
  ℕ, ◌+◌, ◌-◌, ◌^◌, ◌%◌, ◌<◌, ◌≡◌, refl, true, false, some, List, [], ◌∷◌, ◌==◌, length, arith,
  Bool-cases, inl, inr, leb, ltb, add32, sub32, lt→ltb,
}
use ckcore.ThreadPool.{
  Place, Pool, place_at, above, enqueue, push, try_start, start, settle, fetch, end_task, awake,
  overworking, active_threads, collect,
}
use ckcore.ThreadPool.Tally.{tally, is_waiting, tally-set, place_at-set}

-- Two entries with different tasks leave the queue by their addresses, whatever their priorities and
-- the order in which they came.
pub push-address :
    (t u a b : ℕ)
    → t < u
    → (push (t, a) (push (u, b) []) ≡ (u, b) ∷ ((t, a) ∷ []))
      × (push (u, b) (push (t, a) []) ≡ (u, b) ∷ ((t, a) ∷ []))
unfolding push above
push-address t u a b h =
    let low : ltb u t ≡ false = ground arith in
    let high : ltb t u ≡ true = ground arith in
    let same : (t == u) ≡ false = ground arith in rw (low, high, same) (refl, refl)

collect-overworking :
    (p : Pool)
    → p.res_threads ≡ 0
    → 0 < length p.ret_threads + p.idl_threads
    → length p.ret_threads + p.idl_threads + p.max_threads < 2 ^ 32
    → overworking (collect p).1 ≡ true
unfolding overworking active_threads collect
collect-overworking p res some_left small =
    let r = length p.ret_threads in
    let wraps : sub32 (sub32 (add32 (0 % 2 ^ 32) p.res_threads) (r % 2 ^ 32)) p.idl_threads
        ≡ 2 ^ 32 - (r + p.idl_threads) =
      omega (arith, res) in
    lt→ltb p.max_threads
      (sub32 (sub32 (add32 (0 % 2 ^ 32) p.res_threads) (r % 2 ^ 32)) p.idl_threads)
      (omega (arith, wraps))

end_task_leaves :
    (q : Pool) (i t : ℕ) (old : Place)
    → overworking q ≡ true
    → q.exiting ≡ true
    → place_at q.threads i ≡ some old
    → ((end_task q i t).queue ≡ q.queue)
      × (place_at (end_task q i t).threads i ≡ some Place.finished)
unfolding end_task settle overworking active_threads
end_task_leaves q i t old over exits at =
    simp (over, exits) (refl, place_at-set q.threads i old Place.finished at)

-- While `wait` waits for the threads that it has collected, with no thread reserved and an idle or a
-- retired one still counted, a thread that ends its task leaves all queued tasks and finishes.
-- The retired, the idle and the greatest number of threads are fewer than 2^32 together.
pub end_task-collect :
    (p : Pool) (i t : ℕ) (old : Place)
    → p.exiting ≡ true
    → p.res_threads ≡ 0
    → 0 < length p.ret_threads + p.idl_threads
    → length p.ret_threads + p.idl_threads + p.max_threads < 2 ^ 32
    → place_at p.threads i ≡ some old
    → ((end_task (collect p).1 i t).queue ≡ p.queue)
      × (place_at (end_task (collect p).1 i t).threads i ≡ some Place.finished)
unfolding collect
end_task-collect p i t old exits res left small at =
    end_task_leaves (collect p).1 i t old (collect-overworking p res left small) exits at

push-pos :
    (e : ℕ × ℕ) (q : List (ℕ × ℕ)) → (x : ℕ × ℕ) × (rest : List (ℕ × ℕ)) × (push e q ≡ x ∷ rest)
unfolding push
push-pos e [] = (e, [], refl)
push-pos e (x ∷ q) = elim (Bool-cases (above e x)) [
  | inl h ↦ (e, x ∷ q, rw h refl)
  | inr h ↦ (x, push e q, rw h refl)
]

-- Where there is no room for a task and a thread waits that wakes after `start` has queued the task:
-- one thread less waits than before, and `idl_threads_` is as before.
pub start-awake_idle :
    (p : Pool) (u a i : ℕ)
    → leb p.max_threads (active_threads p) ≡ true
    → place_at p.threads i ≡ some Place.waiting
    → ((awake (start true p (some u) a).1 i false).idl_threads ≡ p.idl_threads)
      × (tally is_waiting (awake (start true p (some u) a).1 i false).threads + 1
          ≡ tally is_waiting p.threads)
unfolding start try_start awake fetch enqueue
start-awake_idle p u a i full at =
    let first = push-pos (u, a) p.queue in
    let woken = Place.running first.0.0 in
    simp (full, first.2)
      (refl, omega (arith, tally-set is_waiting p.threads i Place.waiting woken at))
