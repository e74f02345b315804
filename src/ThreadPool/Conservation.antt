-- ===== src/ThreadPool/Conservation.antt =====
-- Along a run of the pool, each task that was taken is queued, held by a thread, or has run.
use ckcore.Base.{
  ℕ, ◌+◌, ◌≡◌, refl, Bool, true, false, some, List, [], ◌∷◌, ◌++◌, ◌==◌, if◌then◌else◌, arith,
}
use ckcore.ThreadPool.{Pool, create, start_now, set_retire_timeout}
use ckcore.ThreadPool.Tally.{occurs}
use ckcore.ThreadPool.Counts.{IsCounted}
use ckcore.ThreadPool.Invariant.{Reach-IsCounted}
use ckcore.ThreadPool.Tasks.{held, held-start, held-start_now, held-reserve}
use ckcore.ThreadPool.Turns.{held-begin_task, held-end_task, held-awake}
use ckcore.ThreadPool.Steps.{Step, Reach}

occurs-append : (t : ℕ) (xs ys : List ℕ) → occurs t (xs ++ ys) ≡ occurs t xs + occurs t ys
occurs-append t [] ys = omega arith
occurs-append t (x ∷ xs) ys = omega (arith, occurs-append t xs ys)

occurs_if :
    (t u : ℕ) (b : Bool)
    → occurs t (if b then u ∷ [] else []) ≡ (if b then (if u == t then 1 else 0) else 0)
occurs_if t u true = omega arith
occurs_if t u false = refl

held-Step :
    (t : ℕ) {p q : Pool} {more : List ℕ}
    → Step p more q
    → IsCounted p
    → held t q ≡ occurs t more + held t p
held-Step t {p} (Step.start_call u a) v = omega (arith, held-start t p u a v)
held-Step t {p} (Step.start_now_call u) v =
    rw (occurs_if t u (start_now true p (some u)).0) (held-start_now t p u v)
held-Step t {p} (Step.reserve_call n) v = omega (arith, held-reserve t p n v)
held-Step t {p} (Step.set_timeout_call timeout) v = unfold set_retire_timeout in omega arith
held-Step t {p} (Step.task_begins i u at) v = omega (arith, held-begin_task t p i u at)
held-Step t {p} (Step.task_ends i u at) v = omega (arith, held-end_task t p i u at)
held-Step t {p} (Step.wakes i at signalled) v = omega (arith, held-awake t p i false at)
held-Step t {p} (Step.expires i at) v = omega (arith, held-awake t p i true at)

held-create : (t ideal : ℕ) → held t (create ideal) ≡ 0
unfolding create
held-create t ideal = refl

-- Between two calls of `wait`, when no thread fails to start, every task has been taken by `start`
-- and `start_now` as many times as it is in the queue, with a thread, or in the tasks that have run:
-- none is lost and none is run more often than it was given.
pub held-Reach :
    {ideal : ℕ} {tasks : List ℕ} {p : Pool} (t : ℕ)
    → Reach ideal tasks p
    → held t p ≡ occurs t tasks
held-Reach t (Reach.new) = held-create t _
held-Reach t (Reach.later {tasks} {p} {more} {q} r s) =
    omega (arith, held-Step t s (Reach-IsCounted r), held-Reach t r, occurs-append t more tasks)
