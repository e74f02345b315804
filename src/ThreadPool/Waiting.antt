-- ===== src/ThreadPool/Waiting.antt =====
-- The loop of `ThreadPool::wait` that joins the threads.
use ckcore.Base.{ℕ, List, [], ◌∷◌, ◌++◌, Outcome, returns, stuck, ◌>>=◌}
use ckcore.ThreadPool.{Pool, begin_exit, collect, end_exit}

-- The threads that are joined in a round, and what comes behind it: without threads the loop is left.
unfoldable pub joined_then : List ℕ → Pool → Outcome (List ℕ × Pool) → Outcome (List ℕ × Pool)
joined_then [] p rest = returns ([], end_exit p)
joined_then (thread ∷ threads) p rest = do
  (joined, q) ← rest
  returns ((thread ∷ threads) ++ joined, q)

-- A round joins and deletes the threads that it has collected, without the mutex; each of the functions
-- is what other threads do with the pool during a round, until the last of the collected threads has
-- ended and the mutex is taken again.
unfoldable pub join_loop : List (Pool → Pool) → Pool → Outcome (List ℕ × Pool)
join_loop [] p = stuck
join_loop (others ∷ rounds) p =
    joined_then (collect p).0 p (join_loop rounds (others (collect p).1))

unfoldable pub wait : List (Pool → Pool) → Pool → Outcome (List ℕ × Pool)
wait rounds p = join_loop rounds (begin_exit p)
