-- ===== src/ThreadPool/Tasks.antt =====
-- No task is lost and none runs twice.
use ckcore.Base.{
  ℕ, ◌+◌, ◌≡◌, refl, ap, Bool, true, false, some, List, [], ◌∷◌, ◌==◌, if◌then◌else◌, arith,
  Bool-cases, inl, inr, leb, ltb, sub32,
}
use ckcore.Sync.{signal_one}
use ckcore.ThreadPool.{
  Place, Pool, above, enqueue, push, spawn, restart, place_task, try_start, start, start_now,
  unblock, reserve, active_threads,
}
use ckcore.ThreadPool.Tally.{tally, holds, occurs, tally-set, tally-append}
use ckcore.ThreadPool.Invariant.{first_retired}
use ckcore.ThreadPool.Counts.{IsCounted}

abbrev weight : ℕ → ℕ → ℕ
weight u t = if u == t then 1 else 0

abbrev pub queued : ℕ → List (ℕ × ℕ) → ℕ
queued t [] = 0
queued t (e ∷ q) = (if e.0 == t then 1 else 0) + queued t q

-- How often a task stands in the queue, is held by a thread, or has run.
abbrev pub held : ℕ → Pool → ℕ
held t p = tally (holds t) p.threads + queued t p.queue + occurs t p.done

queued-push :
    (t : ℕ) (e : ℕ × ℕ) (q : List (ℕ × ℕ)) → queued t (push e q) ≡ weight e.0 t + queued t q
unfolding push
queued-push t e [] = refl
queued-push t e (x ∷ q) = elim (Bool-cases (above e x)) [
  | inl h ↦ rw h refl
  | inr h ↦ rw h (omega (arith, queued-push t e q))
]

held-enqueue : (t : ℕ) (p : Pool) (u a : ℕ) → held t (enqueue p u a) ≡ weight u t + held t p
unfolding enqueue signal_one
held-enqueue t p u a = omega (arith, queued-push t (u, a) p.queue)

held-place_task :
    (t : ℕ) (p : Pool) (u : ℕ) (ret : List ℕ)
    → IsCounted p
    → p.ret_threads ≡ ret
    → held t (place_task true p u ret).1 ≡ weight u t + held t p
unfolding place_task spawn restart
held-place_task t p u [] v e = omega (arith, tally-append (holds t) p.threads (Place.ready u))
held-place_task t p u (i ∷ others) v e = omega (
  arith,
  tally-set (holds t) p.threads i Place.retired (Place.ready u) (first_retired p i others v e),
)

held-place_task_started : (p : Pool) (u : ℕ) (ret : List ℕ) → (place_task true p u ret).0 ≡ true
unfolding place_task spawn restart
held-place_task_started p u [] = refl
held-place_task_started p u (i ∷ others) = refl

held-try_start :
    (t : ℕ) (p : Pool) (u : ℕ)
    → IsCounted p
    → held t (try_start true p u).1 ≡ (if (try_start true p u).0 then weight u t else 0) + held t p
unfolding try_start
held-try_start t p u v = go (leb p.max_threads (active_threads p)) (ltb 0 p.idl_threads)
  where
    started : Bool → Bool → Bool × Pool
    started full idle =
        if full
        then (false, p)
        else (if idle
            then (true, enqueue (record p { idl_threads = sub32 p.idl_threads 1 }) u 0)
            else place_task true p u p.ret_threads)

    go :
        (full idle : Bool)
        → held t (started full idle).1
          ≡ (if (started full idle).0 then weight u t else 0) + held t p
    go true idle = omega arith
    go false true = held-enqueue t (record p { idl_threads = sub32 p.idl_threads 1 }) u 0
    go false false =
        rw (held-place_task_started p u p.ret_threads) (held-place_task t p u p.ret_threads v refl)

pub held-start :
    (t : ℕ) (p : Pool) (u a : ℕ)
    → IsCounted p
    → held t (start true p (some u) a).1 ≡ weight u t + held t p
unfolding start
held-start t p u a v = go (try_start true p u) (held-try_start t p u v)
  where
    go :
        (r : Bool × Pool)
        → held t r.1 ≡ (if r.0 then weight u t else 0) + held t p
        → held t (if◌then◌else◌ {A = Bool × Pool} r.0 (true, r.1) (true, enqueue r.1 u a)).1
          ≡ weight u t + held t p
    go (true, p') h = h
    go (false, p') h = omega (arith, h, held-enqueue t p' u a)

pub held-start_now :
    (t : ℕ) (p : Pool) (u : ℕ)
    → IsCounted p
    → held t (start_now true p (some u)).1
      ≡ (if (start_now true p (some u)).0 then weight u t else 0) + held t p
unfolding start_now
held-start_now t p u v = elim (Bool-cases (ltb p.max_threads (active_threads p))) [
  | inl e ↦ rw e (omega arith)
  | inr e ↦ rw e (held-try_start t p u v)
]

with_queue :
    (p : Pool) (queue : List (ℕ × ℕ)) → IsCounted p → IsCounted (record p { queue = queue })
with_queue p queue v = record {
  calm = v.calm;
  busy = v.busy;
  waits = v.waits;
  made = v.made;
  placed = v.placed;
  retired = v.retired;
  known = v.known;
}

held-unblock :
    (t : ℕ) (p : Pool) (queue : List (ℕ × ℕ))
    → IsCounted p
    → p.queue ≡ queue
    → held t (unblock true p queue) ≡ held t p
unfolding unblock
held-unblock t p [] v e = refl
held-unblock t p (x ∷ rest) v e =
    go (try_start true (record p { queue = rest }) x.0)
      (held-try_start t (record p { queue = rest }) x.0 (with_queue p rest v))
  where
    before : held t p ≡ weight x.0 t + held t (record p { queue = rest })
    before = omega (arith, ap (queued t) e)

    go :
        (r : Bool × Pool)
        → held t r.1 ≡ (if r.0 then weight x.0 t else 0) + held t (record p { queue = rest })
        → held t (if r.0 then r.1 else record r.1 { queue = push x r.1.queue }) ≡ held t p
    go (true, p') h = omega (arith, h, before)
    go (false, p') h = omega (arith, h, before, queued-push t x p'.queue)

pub held-reserve : (t : ℕ) (p : Pool) (n : ℕ) → IsCounted p → held t (reserve true p n) ≡ held t p
unfolding reserve
held-reserve t p n v = go (ltb n p.res_threads)
  where
    p' : Pool
    p' = record p { res_threads = if ltb p.max_threads n then p.max_threads else n }

    v' : IsCounted p'
    v' = record {
      calm = v.calm;
      busy = v.busy;
      waits = v.waits;
      made = v.made;
      placed = v.placed;
      retired = v.retired;
      known = v.known;
    }

    go : (fewer : Bool) → held t (if fewer then unblock true p' p.queue else p') ≡ held t p
    go true = held-unblock t p' p.queue v' refl
    go false = refl
