-- ===== src/ThreadPool/Invariant.antt =====
-- Every step of a pool keeps its counters in agreement with its threads.
use ckcore.Base.{
  ℕ, ◌<◌, ◌≡◌, refl, ap, sym, Bool, true, false, some, List, [], ◌∷◌, ◌==◌, if◌then◌else◌, length,
  arith, leb, ltb, add32, sub32,
}
use mathlib.Core.Path.{subst}
use ckcore.Sync.{Condition, leave}
use ckcore.ThreadPool.{
  Place, Pool, place_at, set_place, create, enqueue, push, restart, place_task, try_start, start,
  start_now, unblock, reserve, set_retire_timeout, settle, fetch, end_task, awake, overworking,
  active_threads,
}
use ckcore.ThreadPool.Tally.{occurs, set-set, place_at-set, place-retired, retired_at_le}
use ckcore.ThreadPool.Counts.{
  IsCounted, enqueue-IsCounted, other-IsCounted, spawn-IsCounted, retires, changes, moved-IsCounted,
}
use ckcore.ThreadPool.CountedTurns.{
  small_waits, begin_task-IsCounted, settle-IsCounted, fetch-IsCounted,
}
use ckcore.ThreadPool.Steps.{Step, Reach}

end_task-IsCounted :
    (p : Pool) (i t : ℕ)
    → IsCounted p
    → place_at p.threads i ≡ some (Place.running t)
    → IsCounted (end_task p i t)
unfolding end_task
end_task-IsCounted p i t v at = go (overworking p')
  where
    p' : Pool
    p' = record p { done = t ∷ p.done }

    v' : IsCounted p'
    v' = other-IsCounted p p.queue p.res_threads p.ret_timeout p.idl_threads (t ∷ p.done) v

    go : (over : Bool) → IsCounted (if over then settle p' i else fetch p' i p.queue)
    go true = settle-IsCounted p' i t v' at
    go false = fetch-IsCounted p' i t p.queue v' at

-- What a thread takes does not depend on where it was.
fetch-set :
    (p : Pool) (i : ℕ) (x : Place) (queue : List (ℕ × ℕ))
    → fetch (record p { threads = set_place p.threads i x }) i queue ≡ fetch p i queue
unfolding fetch settle overworking active_threads
fetch-set p i x [] =
    rw
      (
        set-set p.threads i x Place.finished,
        set-set p.threads i x Place.retired,
        set-set p.threads i x Place.waiting,
      )
      refl
fetch-set p i x (e ∷ rest) = rw (set-set p.threads i x (Place.running e.0)) refl

awake-IsCounted :
    (p : Pool) (i : ℕ) (expired : Bool)
    → IsCounted p
    → place_at p.threads i ≡ some Place.waiting
    → IsCounted (awake p i expired)
unfolding awake leave
awake-IsCounted p i true v at =
    let c =
      retires p i Place.waiting (sub32 (add32 p.pol_threads 1) 1) (leave p.task_ready false) v at
        (refl, refl) (omega arith, omega arith) (omega arith, omega arith) in
    other-IsCounted _ p.queue p.res_threads p.ret_timeout (sub32 p.idl_threads 1) p.done c
awake-IsCounted p i false v at =
    let pol : ℕ = add32 p.pol_threads 1 in
    let cond : Condition = leave p.task_ready true in
    let busy =
      changes p i Place.waiting (Place.running 0) pol cond v at (refl, refl) (refl, refl)
        (omega arith, omega arith) (omega arith, omega arith) in
    subst IsCounted
      (fetch-set (record p { pol_threads = pol; task_ready = cond }) i (Place.running 0) p.queue)
      (fetch-IsCounted _ i 0 p.queue busy
        (place_at-set p.threads i Place.waiting (Place.running 0) at))

-- The thread of the last entry of `ret_threads_` is retired.
pub first_retired :
    (p : Pool) (i : ℕ) (others : List ℕ)
    → IsCounted p
    → p.ret_threads ≡ i ∷ others
    → place_at p.threads i ≡ some Place.retired
first_retired p i others v e = place-retired p.threads i (omega (arith, sym (v.known i), here))
  where
    here : 0 < occurs i p.ret_threads
    here = let self : (i == i) ≡ true = ground arith in rw (e, self) (omega arith)

restart-IsCounted :
    (p : Pool) (i : ℕ) (others : List ℕ) (t : ℕ)
    → IsCounted p
    → p.ret_threads ≡ i ∷ others
    → IsCounted (restart true p i others t).1
unfolding restart
restart-IsCounted p i others t v e =
    moved-IsCounted p i Place.retired (Place.ready t) (add32 p.pol_threads 1) p.task_ready others v
      (first_retired p i others v e) (refl, refl) (omega arith, omega arith) (small_waits p v, refl)
      (omega (arith, ap length e)) known
  where
    known : (j : ℕ) → occurs j others ≡ (if i == j then 0 else occurs j p.ret_threads)
    known j =
        let all : occurs j p.ret_threads ≡ occurs j (i ∷ others) = ap (occurs j) e in
        ground (arith, v.known j, retired_at_le p.threads j, all)

place_task-IsCounted :
    (p : Pool) (t : ℕ) (ret : List ℕ)
    → IsCounted p
    → p.ret_threads ≡ ret
    → IsCounted (place_task true p t ret).1
unfolding place_task
place_task-IsCounted p t [] v e = spawn-IsCounted p t v
place_task-IsCounted p t (i ∷ others) v e = restart-IsCounted p i others t v e

try_start-IsCounted : (p : Pool) (t : ℕ) → IsCounted p → IsCounted (try_start true p t).1
unfolding try_start
try_start-IsCounted p t v = go (leb p.max_threads (active_threads p)) (ltb 0 p.idl_threads)
  where
    go :
        (full idle : Bool)
        → IsCounted
            (if full
              then (false, p)
              else (if idle
                  then (true, enqueue (record p { idl_threads = sub32 p.idl_threads 1 }) t 0)
                  else place_task true p t p.ret_threads)).1
    go true idle = v
    go false true =
        enqueue-IsCounted _ t 0
          (other-IsCounted p p.queue p.res_threads p.ret_timeout (sub32 p.idl_threads 1) p.done v)
    go false false = place_task-IsCounted p t p.ret_threads v refl

start-IsCounted : (p : Pool) (t a : ℕ) → IsCounted p → IsCounted (start true p (some t) a).1
unfolding start
start-IsCounted p t a v = go (try_start true p t) (try_start-IsCounted p t v)
  where
    go :
        (r : Bool × Pool)
        → IsCounted r.1
        → IsCounted (if◌then◌else◌ {A = Bool × Pool} r.0 (true, r.1) (true, enqueue r.1 t a)).1
    go (true, p') v' = v'
    go (false, p') v' = enqueue-IsCounted p' t a v'

start_now-IsCounted : (p : Pool) (t : ℕ) → IsCounted p → IsCounted (start_now true p (some t)).1
unfolding start_now
start_now-IsCounted p t v = go (ltb p.max_threads (active_threads p))
  where
    go : (full : Bool) → IsCounted (if full then (false, p) else try_start true p t).1
    go true = v
    go false = try_start-IsCounted p t v

with_queue :
    (p : Pool) (queue : List (ℕ × ℕ)) → IsCounted p → IsCounted (record p { queue = queue })
with_queue p queue v = other-IsCounted p queue p.res_threads p.ret_timeout p.idl_threads p.done v

unblock-IsCounted :
    (p : Pool) (queue : List (ℕ × ℕ)) → IsCounted p → IsCounted (unblock true p queue)
unfolding unblock
unblock-IsCounted p [] v = v
unblock-IsCounted p (e ∷ rest) v =
    go (try_start true (record p { queue = rest }) e.0)
      (try_start-IsCounted (record p { queue = rest }) e.0 (with_queue p rest v))
  where
    go :
        (r : Bool × Pool)
        → IsCounted r.1
        → IsCounted (if r.0 then r.1 else record r.1 { queue = push e r.1.queue })
    go (true, p') v' = v'
    go (false, p') v' = with_queue p' (push e p'.queue) v'

reserve-IsCounted : (p : Pool) (n : ℕ) → IsCounted p → IsCounted (reserve true p n)
unfolding reserve
reserve-IsCounted p n v = go (ltb n p.res_threads)
  where
    p' : Pool
    p' = record p { res_threads = if ltb p.max_threads n then p.max_threads else n }

    v' : IsCounted p'
    v' = other-IsCounted p p.queue p'.res_threads p.ret_timeout p.idl_threads p.done v

    go : (fewer : Bool) → IsCounted (if fewer then unblock true p' p.queue else p')
    go true = unblock-IsCounted p' p.queue v'
    go false = v'

pub Step-IsCounted : {p q : Pool} {more : List ℕ} → Step p more q → IsCounted p → IsCounted q
Step-IsCounted {p} (Step.start_call t a) v = start-IsCounted p t a v
Step-IsCounted {p} (Step.start_now_call t) v = start_now-IsCounted p t v
Step-IsCounted {p} (Step.reserve_call n) v = reserve-IsCounted p n v
Step-IsCounted {p} (Step.set_timeout_call timeout) v =
    unfold set_retire_timeout in
    other-IsCounted p p.queue p.res_threads timeout p.idl_threads p.done v
Step-IsCounted {p} (Step.task_begins i t at) v = begin_task-IsCounted p i t v at
Step-IsCounted {p} (Step.task_ends i t at) v = end_task-IsCounted p i t v at
Step-IsCounted {p} (Step.wakes i at signalled) v = awake-IsCounted p i false v at
Step-IsCounted {p} (Step.expires i at) v = awake-IsCounted p i true v at

create-IsCounted : (ideal : ℕ) → IsCounted (create ideal)
unfolding create
create-IsCounted ideal = record {
  calm = refl;
  busy = refl;
  waits = refl;
  made = refl;
  placed = refl;
  retired = refl;
  known = λ i. refl;
}

-- In every pool that comes from a new one by steps, between two calls of `wait` and when no thread
-- fails to start: `pol_threads_` is the number of threads with a task and the waiters of the
-- condition are those that wait, both modulo 2^32, `all_threads_` has as many entries as there are
-- threads, each of them busy, waiting or retired, `ret_threads_` holds exactly the retired ones, each
-- once, and the pool is not exiting.
pub Reach-IsCounted : {ideal : ℕ} {tasks : List ℕ} {p : Pool} → Reach ideal tasks p → IsCounted p
Reach-IsCounted (Reach.new) = create-IsCounted _
Reach-IsCounted (Reach.later r s) = Step-IsCounted s (Reach-IsCounted r)
