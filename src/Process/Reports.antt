-- ===== src/Process/Reports.antt =====
-- What a round of the loop of `Process::listen` reports and keeps.
use ckcore.Base.{
  ℕ, ◌≡◌, refl, Bool, true, false, Option, none, some, List, [], ◌++◌, returns, Bool-cases, inl,
  inr, All, All-append,
}
use ckcore.Files.{Sys}
use ckcore.Process.{
  Process, Event, split_blocks, report, Status, exited, signaled, ended, Calls, close, fill,
  put_stdout, put_stderr,
}
use ckcore.Process.Blocks.{IsWhole, IsBlock, split_blocks-IsWhole, report-append}
use ckcore.Process.Listening.{
  Heard, watch, select_loop, heard, hear_stdout, hear_stderr, is_set, then_stderr, listen_round,
  arrive,
}

-- `select_loop` is not interrupted for ever.
abbrev pub Selects : {S : Type 0} → Calls S → ℕ → Type 0
Selects {S} calls tries =
    (fds : List ℕ) (s : S) → (r : List ℕ × S) × (select_loop calls tries fds s ≡ returns r)

module _ (delims : List ℕ) (invalid : Bool) where
  -- The delimiters are these, and what is kept has none of them.
  abbrev pub Keeps : Process → Type 0
  Keeps p =
      (p.block_delims ≡ delims)
      × (p.invalid_inheritor ≡ invalid)
      × IsWhole delims p.block_buffer_out
      × IsWhole delims p.block_buffer_err

  abbrev pub Blocks : List Event → Type 0
  Blocks events =
      (blocks : List (List ℕ)) × (events ≡ report invalid blocks) × All (IsBlock delims) blocks

  pub Blocks-nil : Blocks []
  unfolding report
  Blocks-nil = ([], refl, tt)

  pub Blocks-append : (e f : List Event) → Blocks e → Blocks f → Blocks (e ++ f)
  Blocks-append e f (bs, is, all) (bs', is', all') = (
    bs ++ bs',
    rw (is, is', report-append invalid bs bs') refl,
    All-append (IsBlock delims) bs bs' all all',
  )

  put_stdout-Keeps :
      (r : Option (List ℕ)) (p : Process)
      → Keeps p
      → Keeps (put_stdout r p).1 × Blocks (put_stdout r p).2
  unfolding put_stdout
  put_stdout-Keeps none p k = (k, Blocks-nil)
  put_stdout-Keeps (some bytes) p (ds, inv, out, err) =
      let split = split_blocks-IsWhole delims bytes p.block_buffer_out out in
      rw (ds, inv)
        (
          (refl, refl, split.0, err),
          ((split_blocks delims bytes p.block_buffer_out).1, refl, split.1),
        )

  put_stderr-Keeps :
      (r : Option (List ℕ)) (p : Process)
      → Keeps p
      → Keeps (put_stderr r p).1 × Blocks (put_stderr r p).2
  unfolding put_stderr
  put_stderr-Keeps none p k = (k, Blocks-nil)
  put_stderr-Keeps (some bytes) p (ds, inv, out, err) =
      let split = split_blocks-IsWhole delims bytes p.block_buffer_err err in
      rw (ds, inv)
        (
          (refl, refl, out, split.0),
          ((split_blocks delims bytes p.block_buffer_err).1, refl, split.1),
        )

  pub arrive-Keeps : (signal : Option Status) (p : Process) → Keeps p → Keeps (arrive signal p)
  unfolding arrive ended
  arrive-Keeps none p k = k
  arrive-Keeps (some (exited code)) p k = k
  arrive-Keeps (some signaled) p k = k

  module _ {S : Type 0} (sys : Sys S) (calls : Calls S) where
    abbrev pub Heeds : Heard S → Type 0
    Heeds h = Keeps h.process × Blocks h.events

    heard-Heeds :
        (b : Bool) (p : Process) (events : List Event) (s : S)
        → Keeps p
        → Blocks events
        → Heeds (heard sys (b, p, events) s)
    unfolding heard close
    heard-Heeds true p events s k blocks = (k, blocks)
    heard-Heeds false p events s k blocks = (k, blocks)

    hear_stdout-Heeds :
        (ready : List ℕ) (p : Process) (s : S) → Keeps p → Heeds (hear_stdout sys ready p s)
    unfolding hear_stdout
    hear_stdout-Heeds ready p s k = elim (Bool-cases (is_set p.pipe_stdout.read_end ready)) [
      | inl e ↦
          let r = fill sys p.pipe_stdout.read_end s in
          let put = put_stdout r.0 p in
          let kept = put_stdout-Keeps r.0 p k in
          rw e (heard-Heeds put.0 put.1 put.2 r.1 kept.0 kept.1)
      | inr e ↦ rw e (k, Blocks-nil)
    ]

    hear_stderr-Heeds :
        (ready : List ℕ) (p : Process) (s : S) → Keeps p → Heeds (hear_stderr sys ready p s)
    unfolding hear_stderr
    hear_stderr-Heeds ready p s k = elim (Bool-cases (is_set p.pipe_stderr.read_end ready)) [
      | inl e ↦
          let r = fill sys p.pipe_stderr.read_end s in
          let put = put_stderr r.0 p in
          let kept = put_stderr-Keeps r.0 p k in
          rw e (heard-Heeds put.0 put.1 put.2 r.1 kept.0 kept.1)
      | inr e ↦ rw e (k, Blocks-nil)
    ]

    then_stderr-Heeds : (ready : List ℕ) (h : Heard S) → Heeds h → Heeds (then_stderr sys ready h)
    unfolding then_stderr
    then_stderr-Heeds ready h (k, blocks) = elim (Bool-cases h.goes_on) [
      | inl e ↦
          let rest = hear_stderr-Heeds ready h.process h.system k in
          rw e (rest.0, Blocks-append h.events _ blocks rest.1)
      | inr e ↦ rw e (k, blocks)
    ]

    pub listen_round-Heeds :
        (tries : ℕ) (p : Process) (s : S)
        → Selects calls tries
        → Keeps p
        → (h : Heard S) × (listen_round sys calls tries p s ≡ returns h) × Heeds h
    unfolding listen_round
    listen_round-Heeds tries p s selects k = go (selects (watch _ (watch _ [])) s)
      where
        go :
            (r : List ℕ × S) × (select_loop calls tries
                  (watch p.pipe_stdout.read_end (watch p.pipe_stderr.read_end []))
                  s
                ≡ returns r)
            → (h : Heard S) × (listen_round sys calls tries p s ≡ returns h) × Heeds h
        go ((ready, s'), e) = (
          then_stderr sys ready (hear_stdout sys ready p s'),
          rw e refl,
          then_stderr-Heeds ready _ (hear_stdout-Heeds ready p s' k),
        )
