-- ===== src/ThreadPool/Counts.antt =====
-- The counters of a pool agree with its threads.
use ckcore.Base.{
  ℕ, ◌+◌, ◌%◌, ◌^◌, ◌<◌, ◌≡◌, refl, ap, sym, ◌∙◌, true, false, some, List, [], ◌∷◌, ◌==◌,
  if◌then◌else◌, length, arith, Bool-cases, inl, inr, length-append,
}
use ckcore.Sync.{Condition, signal_one}
use ckcore.ThreadPool.{Place, Pool, place_at, set_place, enqueue, spawn}
use ckcore.ThreadPool.Tally.{
  tally, is_busy, is_waiting, is_retired, occurs, retired_at, tally-set, tally-append, length-set,
  retired_at-set, retired_at-append, retired_at-place,
}

-- `pol_threads_` counts the threads with a task, `waiters_` those that wait, `all_threads_` all, and
-- `ret_threads_` holds the retired ones, each once. The pool is not exiting. Counters are 32 bits.
pub record IsCounted (p : Pool) : Type 0 where
  pub calm : p.exiting ≡ false
  pub busy : p.pol_threads ≡ tally is_busy p.threads % 2 ^ 32
  pub waits : p.task_ready.waiters ≡ tally is_waiting p.threads % 2 ^ 32
  pub made : length p.all_threads ≡ length p.threads
  pub placed :
      tally is_busy p.threads + tally is_waiting p.threads + tally is_retired p.threads
      ≡ length p.threads
  pub retired : length p.ret_threads ≡ tally is_retired p.threads
  pub known : (i : ℕ) → occurs i p.ret_threads ≡ retired_at p.threads i

pub enqueue-IsCounted : (p : Pool) (t a : ℕ) → IsCounted p → IsCounted (enqueue p t a)
unfolding enqueue signal_one
enqueue-IsCounted p t a v = record {
  calm = v.calm;
  busy = v.busy;
  waits = v.waits;
  made = v.made;
  placed = v.placed;
  retired = v.retired;
  known = v.known;
}

-- A change of the queue, the reservation, the time to retire, the idle count or the tasks that ran.
pub other-IsCounted :
    (p : Pool) (queue : List (ℕ × ℕ)) (res timeout idle : ℕ) (done : List ℕ)
    → IsCounted p
    → IsCounted (record p {
      queue = queue;
      res_threads = res;
      ret_timeout = timeout;
      idl_threads = idle;
      done = done;
    })
other-IsCounted p queue res timeout idle done v = record {
  calm = v.calm;
  busy = v.busy;
  waits = v.waits;
  made = v.made;
  placed = v.placed;
  retired = v.retired;
  known = v.known;
}

pub spawn-IsCounted : (p : Pool) (t : ℕ) → IsCounted p → IsCounted (spawn true p t).1
unfolding spawn
spawn-IsCounted p t v =
    let b = tally-append is_busy p.threads (Place.ready t) in
    let w = tally-append is_waiting p.threads (Place.ready t) in
    let r = tally-append is_retired p.threads (Place.ready t) in
    let l = length-append p.threads (Place.ready t ∷ []) in
    record {
      calm = v.calm;
      busy = omega (arith, b, v.busy);
      waits = omega (arith, w, v.waits);
      made = omega (arith, l, v.made);
      placed = omega (arith, b, w, r, l, v.placed);
      retired = omega (arith, r, v.retired);
      known = λ i. v.known i ∙ sym (retired_at-append p.threads (Place.ready t) i refl);
    }

-- A thread counts as one of the three.
abbrev pub IsPlaced : Place → Type 0
IsPlaced x = is_busy x + is_waiting x + is_retired x ≡ 1

-- Thread `i` goes from `old` to `q`, with the counters and the retired threads brought up to date.
pub moved-IsCounted :
    (p : Pool) (i : ℕ) (old q : Place) (pol : ℕ) (cond : Condition) (ret : List ℕ)
    → IsCounted p
    → place_at p.threads i ≡ some old
    → IsPlaced old × IsPlaced q
    → (pol < 2 ^ 32) × ((pol + is_busy old) % 2 ^ 32 ≡ (p.pol_threads + is_busy q) % 2 ^ 32)
    → (cond.waiters < 2 ^ 32)
      × ((cond.waiters + is_waiting old) % 2 ^ 32 ≡ (p.task_ready.waiters + is_waiting q) % 2 ^ 32)
    → length ret + is_retired old ≡ length p.ret_threads + is_retired q
    → ((j : ℕ) → occurs j ret ≡ (if i == j then is_retired q else occurs j p.ret_threads))
    → IsCounted (record p {
      pol_threads = pol;
      task_ready = cond;
      ret_threads = ret;
      threads = set_place p.threads i q;
    })
moved-IsCounted p i old q pol cond ret v at (one, one') (small, b) (small', w) r k =
    let tb = tally-set is_busy p.threads i old q at in
    let tw = tally-set is_waiting p.threads i old q at in
    let tr = tally-set is_retired p.threads i old q at in
    let l = length-set p.threads i q in
    record {
      calm = v.calm;
      busy = omega (arith, tb, v.busy, b, small);
      waits = omega (arith, tw, v.waits, w, small');
      made = omega (arith, l, v.made);
      placed = omega (arith, tb, tw, tr, l, v.placed, one, one');
      retired = omega (arith, tr, v.retired, r);
      known = λ j. known j;
    }
  where
    known : (j : ℕ) → occurs j ret ≡ retired_at (set_place p.threads i q) j
    known j = rw (retired_at-set p.threads i j old q at, k j, v.known j) refl

same :
    (p : Pool) (i j : ℕ) (old : Place)
    → IsCounted p
    → place_at p.threads i ≡ some old
    → is_retired old ≡ 0
    → occurs j p.ret_threads ≡ (if i == j then 0 else occurs j p.ret_threads)
same p i j old v at unretired = elim (Bool-cases (i == j)) [
  | inl e ↦
      let is : i ≡ j = ground (arith, e) in
      let here : occurs j p.ret_threads ≡ 0 =
        v.known j ∙ rw (sym is) (retired_at-place p.threads i old at ∙ unretired) in
      rw (e, here) refl
  | inr e ↦ rw e refl
]

abbrev pub IsBusy : Place → Type 0
IsBusy x = (is_busy x ≡ 1) × (is_waiting x ≡ 0) × (is_retired x ≡ 0)

pub retires :
    (p : Pool) (i : ℕ) (old : Place) (pol : ℕ) (cond : Condition)
    → IsCounted p
    → place_at p.threads i ≡ some old
    → IsPlaced old × (is_retired old ≡ 0)
    → (pol < 2 ^ 32) × ((pol + is_busy old) % 2 ^ 32 ≡ p.pol_threads % 2 ^ 32)
    → (cond.waiters < 2 ^ 32)
      × ((cond.waiters + is_waiting old) % 2 ^ 32 ≡ p.task_ready.waiters % 2 ^ 32)
    → IsCounted (record p {
      pol_threads = pol;
      task_ready = cond;
      ret_threads = i ∷ p.ret_threads;
      threads = set_place p.threads i Place.retired;
    })
retires p i old pol cond v at (one, none') (small, b) (small', w) =
    moved-IsCounted p i old Place.retired pol cond (i ∷ p.ret_threads) v at (one, refl)
      (small, omega (arith, b)) (small', omega (arith, w)) (omega (arith, none'))
      (λ j. known j (same p i j old v at none'))
  where
    known :
        (j : ℕ)
        → occurs j p.ret_threads ≡ (if i == j then 0 else occurs j p.ret_threads)
        → occurs j (i ∷ p.ret_threads) ≡ (if i == j then 1 else occurs j p.ret_threads)
    known j h = elim (Bool-cases (i == j)) [ inl e ↦ ground arith | inr e ↦ ground arith ]

-- The thread stays unretired.
pub changes :
    (p : Pool) (i : ℕ) (old q : Place) (pol : ℕ) (cond : Condition)
    → IsCounted p
    → place_at p.threads i ≡ some old
    → IsPlaced old × (is_retired old ≡ 0)
    → IsPlaced q × (is_retired q ≡ 0)
    → (pol < 2 ^ 32) × ((pol + is_busy old) % 2 ^ 32 ≡ (p.pol_threads + is_busy q) % 2 ^ 32)
    → (cond.waiters < 2 ^ 32)
      × ((cond.waiters + is_waiting old) % 2 ^ 32 ≡ (p.task_ready.waiters + is_waiting q) % 2 ^ 32)
    → IsCounted
        (record p { pol_threads = pol; task_ready = cond; threads = set_place p.threads i q })
changes p i old q pol cond v at (one, none') (one', none'') b w =
    moved-IsCounted p i old q pol cond p.ret_threads v at (one, one') b w
      (omega (arith, none', none''))
      (λ j.
        same p i j old v at none'
        ∙ ap (λ n. if i == j then n else occurs j p.ret_threads) (sym none''))
