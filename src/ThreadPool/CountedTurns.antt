-- ===== src/ThreadPool/CountedTurns.antt =====
-- The counters of a pool agree with its threads while a thread takes its turn.
use ckcore.Base.{
  ℕ, ◌^◌, ◌<◌, ◌≡◌, refl, Bool, true, false, some, List, [], ◌∷◌, if◌then◌else◌, arith, add32,
  sub32,
}
use ckcore.Sync.{enter}
use ckcore.ThreadPool.{Place, Pool, place_at, set_place, settle, fetch, begin_task, overworking}
use ckcore.ThreadPool.Counts.{IsCounted, other-IsCounted, retires, changes}

pub small_busy : (p : Pool) → IsCounted p → p.pol_threads < 2 ^ 32
small_busy p v = omega (arith, v.busy)

pub small_waits : (p : Pool) → IsCounted p → p.task_ready.waiters < 2 ^ 32
small_waits p v = omega (arith, v.waits)

pub begin_task-IsCounted :
    (p : Pool) (i t : ℕ)
    → IsCounted p
    → place_at p.threads i ≡ some (Place.ready t)
    → IsCounted (begin_task p i t)
unfolding begin_task
begin_task-IsCounted p i t v at =
    changes p i (Place.ready t) (Place.running t) p.pol_threads p.task_ready v at (refl, refl)
      (refl, refl) (small_busy p v, refl) (small_waits p v, refl)

pub settle-IsCounted :
    (p : Pool) (i t : ℕ)
    → IsCounted p
    → place_at p.threads i ≡ some (Place.running t)
    → IsCounted (settle p i)
unfolding settle enter
settle-IsCounted p i t v at = go p.exiting v.calm (overworking p)
  where
    go :
        (leaves : Bool)
        → leaves ≡ false
        → (over : Bool)
        → IsCounted (
            if leaves
            then record p {
              pol_threads = sub32 p.pol_threads 1;
              threads = set_place p.threads i Place.finished;
            }
            else (if over
                then record p {
                  ret_threads = i ∷ p.ret_threads;
                  pol_threads = sub32 p.pol_threads 1;
                  threads = set_place p.threads i Place.retired;
                }
                else record p {
                  idl_threads = add32 p.idl_threads 1;
                  pol_threads = sub32 p.pol_threads 1;
                  task_ready = enter p.task_ready;
                  threads = set_place p.threads i Place.waiting;
                }))
    go true e over = cc
    go false e true =
        retires p i (Place.running t) (sub32 p.pol_threads 1) p.task_ready v at (refl, refl)
          (omega arith, omega (arith, small_busy p v)) (small_waits p v, omega arith)
    go false e false =
        let c =
          changes p i (Place.running t) Place.waiting (sub32 p.pol_threads 1) (enter p.task_ready) v
            at (refl, refl) (refl, refl) (omega arith, omega (arith, small_busy p v))
            (omega arith, omega arith) in
        other-IsCounted _ p.queue p.res_threads p.ret_timeout (add32 p.idl_threads 1) p.done c

pub fetch-IsCounted :
    (p : Pool) (i t : ℕ) (queue : List (ℕ × ℕ))
    → IsCounted p
    → place_at p.threads i ≡ some (Place.running t)
    → IsCounted (fetch p i queue)
unfolding fetch
fetch-IsCounted p i t [] v at = settle-IsCounted p i t v at
fetch-IsCounted p i t (e ∷ rest) v at =
    let c =
      changes p i (Place.running t) (Place.running e.0) p.pol_threads p.task_ready v at (refl, refl)
        (refl, refl) (small_busy p v, refl) (small_waits p v, refl) in
    other-IsCounted _ rest p.res_threads p.ret_timeout p.idl_threads p.done c
