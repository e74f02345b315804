-- ===== src/Process/Listening.antt =====
-- `Process::listen`, the thread that reads what a process puts out.
use ckcore.Base.{
  ℕ, zero, suc, Bool, true, false, Option, none, some, List, [], ◌∷◌, ◌++◌, Outcome, returns, stuck,
  ◌>>=◌, ◌==◌, if◌then◌else◌,
}
use ckcore.Files.{Sys}
use ckcore.Process.{
  Process, Event, finished, is_running, Status, ended, Calls, close, fill, put_stdout, put_stderr,
}

-- Before the loop.
unfoldable pub listen_begin : Process → Process
listen_begin p = record p { block_buffer_out = []; block_buffer_err = []; started_event = true }

-- FD_SET and FD_ISSET.
unfoldable pub watch : Option ℕ → List ℕ → List ℕ
watch none fds = fds
watch (some fd) fds = fd ∷ fds

unfoldable pub has_fd : ℕ → List ℕ → Bool
has_fd fd [] = false
has_fd fd (x ∷ xs) = let rest = has_fd fd xs in if fd == x then true else rest

unfoldable pub is_set : Option ℕ → List ℕ → Bool
is_set none ready = false
is_set (some fd) ready = has_fd fd ready

unfoldable pub finish : Bool → List Event
finish invalid = if invalid then [] else finished ∷ []

-- What a round of the loop may come to: whether the loop goes on, and the events.
pub record Heard (S : Type 0) : Type 0 where
  pub goes_on : Bool
  pub process : Process
  pub system : S
  pub events : List Event

-- Before each test of the state the child may end, which its status then tells.
unfoldable pub arrive : Option Status → Process → Process
arrive none p = p
arrive (some status) p = ended status p

module _ {S : Type 0} (calls : Calls S) where
  -- select(2) is called again where a signal interrupts it.
  unfoldable pub select_loop : ℕ → List ℕ → S → Outcome (List ℕ × S)
  select_loop zero fds s = stuck
  select_loop (suc tries) fds s =
      let r = calls.select s fds in
      elim r.0 [ none ↦ select_loop tries fds r.1 | some ready ↦ returns (ready, r.1) ]

module _ {S : Type 0} (sys : Sys S) where
  -- After a read: one that failed closes the process and leaves the loop.
  unfoldable pub heard : Bool × Process × List Event → S → Heard S
  heard (true, p, events) s = record { goes_on = true; process = p; system = s; events = events }
  heard (false, p, events) s =
      let c = close sys p s in
      record { goes_on = false; process = c.0; system = c.1; events = events }

  unfoldable pub hear_stdout : List ℕ → Process → S → Heard S
  hear_stdout ready p s =
      if is_set p.pipe_stdout.read_end ready
      then (let r = fill sys p.pipe_stdout.read_end s in heard (put_stdout r.0 p) r.1)
      else record { goes_on = true; process = p; system = s; events = [] }

  unfoldable pub hear_stderr : List ℕ → Process → S → Heard S
  hear_stderr ready p s =
      if is_set p.pipe_stderr.read_end ready
      then (let r = fill sys p.pipe_stderr.read_end s in heard (put_stderr r.0 p) r.1)
      else record { goes_on = true; process = p; system = s; events = [] }

  unfoldable pub then_stderr : List ℕ → Heard S → Heard S
  then_stderr ready h =
      if h.goes_on
      then (let e = hear_stderr ready h.process h.system in
          record e { events = h.events ++ e.events })
      else h

module _ {S : Type 0} (sys : Sys S) (calls : Calls S) where
  unfoldable pub listen_round : ℕ → Process → S → Outcome (Heard S)
  listen_round tries p s = do
    (ready, s') ←
        select_loop calls tries (watch p.pipe_stdout.read_end (watch p.pipe_stderr.read_end [])) s
    returns (then_stderr sys ready (hear_stdout sys ready p s'))

  unfoldable pub listen_loop : List (Option Status) → ℕ → Process → S → Outcome (Heard S)
  listen_loop [] tries p s = stuck
  listen_loop (signal ∷ signals) tries p s = elim (is_running (arrive signal p)) [
    | false ↦
        returns (record { goes_on = false; process = arrive signal p; system = s; events = [] })
    | true ↦ do
      h ← listen_round tries (arrive signal p) s
      elim h.goes_on [
        | false ↦ returns h
        | true ↦ do
          rest ← listen_loop signals tries h.process h.system
          returns (record rest { events = h.events ++ rest.events })
      ]
  ]

  unfoldable pub listen :
      List (Option Status) → ℕ → Process → S → Outcome (Process × S × List Event)
  listen signals tries p s = do
    h ← listen_loop signals tries (listen_begin p) s
    let c = close sys h.process h.system
    returns (c.0, c.1, h.events ++ finish h.process.invalid_inheritor)
