-- ===== src/ThreadPool/Turns.antt =====
-- No task is lost and none runs twice while a thread of the pool takes its turn.
use ckcore.Base.{
  ℕ, ◌+◌, ◌≡◌, refl, ap, Bool, true, false, some, List, [], ◌∷◌, if◌then◌else◌, arith, add32, sub32,
}
use ckcore.Sync.{enter, leave}
use ckcore.ThreadPool.{
  Place, Pool, place_at, set_place, settle, fetch, begin_task, end_task, awake, overworking,
}
use ckcore.ThreadPool.Tally.{tally, holds, tally-set}
use ckcore.ThreadPool.Tasks.{held, queued}

held-settle :
    (t : ℕ) (p : Pool) (i : ℕ) (old : Place)
    → place_at p.threads i ≡ some old
    → held t (settle p i) + holds t old ≡ held t p
unfolding settle
held-settle t p i old at = go p.exiting (overworking p)
  where
    set :
        (q : Place)
        → tally (holds t) (set_place p.threads i q) + holds t old
          ≡ tally (holds t) p.threads + holds t q
    set q = tally-set (holds t) p.threads i old q at

    go :
        (leaves over : Bool)
        → held t (
              if leaves
              then record p {
                pol_threads = sub32 p.pol_threads 1;
                threads = set_place p.threads i Place.finished;
              }
              else (if over
                  then record p {
                    ret_threads = i ∷ p.ret_threads;
                    pol_threads = sub32 p.pol_threads 1;
                    threads = set_place p.threads i Place.retired;
                  }
                  else record p {
                    idl_threads = add32 p.idl_threads 1;
                    pol_threads = sub32 p.pol_threads 1;
                    task_ready = enter p.task_ready;
                    threads = set_place p.threads i Place.waiting;
                  }))
            + holds t old
          ≡ held t p
    go true over = omega (arith, set Place.finished)
    go false true = omega (arith, set Place.retired)
    go false false = omega (arith, set Place.waiting)

held-fetch :
    (t : ℕ) (p : Pool) (i : ℕ) (old : Place) (queue : List (ℕ × ℕ))
    → place_at p.threads i ≡ some old
    → p.queue ≡ queue
    → held t (fetch p i queue) + holds t old ≡ held t p
unfolding fetch
held-fetch t p i old [] at e = held-settle t p i old at
held-fetch t p i old (x ∷ rest) at e =
    omega (arith, ap (queued t) e, tally-set (holds t) p.threads i old (Place.running x.0) at)

pub held-end_task :
    (t : ℕ) (p : Pool) (i u : ℕ)
    → place_at p.threads i ≡ some (Place.running u)
    → held t (end_task p i u) ≡ held t p
unfolding end_task
held-end_task t p i u at = go (overworking p')
  where
    p' : Pool
    p' = record p { done = u ∷ p.done }

    go : (over : Bool) → held t (if over then settle p' i else fetch p' i p.queue) ≡ held t p
    go true = omega (arith, held-settle t p' i (Place.running u) at)
    go false = omega (arith, held-fetch t p' i (Place.running u) p.queue at refl)

pub held-awake :
    (t : ℕ) (p : Pool) (i : ℕ) (expired : Bool)
    → place_at p.threads i ≡ some Place.waiting
    → held t (awake p i expired) ≡ held t p
unfolding awake leave
held-awake t p i true at =
    omega (arith, tally-set (holds t) p.threads i Place.waiting Place.retired at)
held-awake t p i false at =
    let p' : Pool = record p {
      task_ready = leave p.task_ready true;
      pol_threads = add32 p.pol_threads 1;
    } in
    omega (arith, held-fetch t p' i Place.waiting p.queue at refl)

pub held-begin_task :
    (t : ℕ) (p : Pool) (i u : ℕ)
    → place_at p.threads i ≡ some (Place.ready u)
    → held t (begin_task p i u) ≡ held t p
unfolding begin_task
held-begin_task t p i u at =
    omega (arith, tally-set (holds t) p.threads i (Place.ready u) (Place.running u) at)
