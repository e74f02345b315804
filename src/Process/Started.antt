-- ===== src/Process/Started.antt =====
-- What `Process::create` leaves where it has registered its child.
use ckcore.Base.{
  ℕ, ◌≡◌, refl, Bool, true, false, Option, none, some, List, [], ◌∷◌, take, Bool-cases,
  Option-cases, inl, inr, arith, ◌==◌, ap, ◌∙◌,
}
use ckcore.Files.{Sys, exist_at}
use ckcore.Process.{
  Pipe, Process, running, is_running, max_arg_count, parse_cmd_line, register_process, registered,
  Calls, close,
}
use ckcore.Process.Creation.{
  Created, both_ends, open_pipe, open_pipes, register_child, launch, piped, execute, create_begin,
}

-- A process of which both ends of its three pipes are open.
abbrev pub HasPipes : Process → Type 0
HasPipes p =
    (i : ℕ × ℕ) × (o : ℕ × ℕ) × (e : ℕ × ℕ) × (p.pipe_stdin ≡ both_ends i)
    × (p.pipe_stdout ≡ both_ends o)
    × (p.pipe_stderr ≡ both_ends e)

-- A process that runs, known under its identifier.
abbrev pub IsStarted : {S : Type 0} → ℕ → Created S → Type 0
IsStarted self c =
    (pid : ℕ) × (c.process.pid ≡ some pid)
    × (is_running c.process ≡ true)
    × HasPipes c.process
    × (registered pid c.pid_map ≡ some self)

module _ {S : Type 0} (calls : Calls S) where
  open_pipe-ok :
      (put : Pipe → Process → Process) (r : Bool × Process × S)
      → (open_pipe calls put r).0 ≡ true
      → (fds : ℕ × ℕ) × (r.0 ≡ true) × ((open_pipe calls put r).1 ≡ put (both_ends fds) r.1)
  unfolding open_pipe
  open_pipe-ok put (false, p, s) ok = cc
  open_pipe-ok put (true, p, s) ok = elim (Option-cases (calls.pipe s).0) [
    | inl n ↦ absurd (ground (arith, n))
    | inr (fds, n) ↦ (fds, refl, rw (n, open_pipe) refl)
  ]

  open_pipes-ok :
      (p : Process) (s : S) → (open_pipes calls p s).0 ≡ true → HasPipes (open_pipes calls p s).1
  unfolding open_pipes
  open_pipes-ok p s ok =
      let (e, ok_out, is_err) = open_pipe-ok (λ pipe q. record q { pipe_stderr = pipe }) _ ok in
      let (o, ok_in, is_out) = open_pipe-ok (λ pipe q. record q { pipe_stdout = pipe }) _ ok_out in
      let (i, _, is_in) = open_pipe-ok (λ pipe q. record q { pipe_stdin = pipe }) _ ok_in in
      (
        i,
        o,
        e,
        ap (λ q. q.pipe_stdin) is_err
            ∙ ap (λ q. q.pipe_stdin) is_out
            ∙ ap (λ q. q.pipe_stdin) is_in,
        ap (λ q. q.pipe_stdout) is_err ∙ ap (λ q. q.pipe_stdout) is_out,
        ap (λ q. q.pipe_stderr) is_err,
      )

  register_child-ok :
      (self : ℕ) (child : Option ℕ) (p : Process) (pid_map : List (ℕ × ℕ)) (s : S)
      → is_running p ≡ true
      → HasPipes p
      → (register_child calls self child p pid_map s).ok ≡ true
      → IsStarted self (register_child calls self child p pid_map s)
  unfolding register_child register_process registered is_running
  register_child-ok self none p pid_map s runs pipes ok = cc
  register_child-ok self (some pid) p pid_map s runs pipes ok =
      let same : (pid == pid) ≡ true = ground arith in (pid, refl, runs, pipes, rw same refl)

module _ {S : Type 0} (sys : Sys S) (calls : Calls S) where
  piped-ok :
      (self : ℕ) (pid_map : List (ℕ × ℕ)) (r : Bool × Process × S)
      → (r.0 ≡ true → HasPipes r.1)
      → (piped sys calls self pid_map r).ok ≡ true
      → IsStarted self (piped sys calls self pid_map r)
  unfolding piped launch is_running
  piped-ok self pid_map (false, p, s) pipes ok = cc
  piped-ok self pid_map (true, p, s) pipes ok =
      register_child-ok calls self _ (record p { state = running; pid = none }) pid_map _ refl
        (pipes refl) ok

  execute-ok :
      (self : ℕ) (args : List (List ℕ)) (p : Process) (pid_map : List (ℕ × ℕ)) (s : S)
      → (execute sys calls self args p pid_map s).ok ≡ true
      → IsStarted self (execute sys calls self args p pid_map s)
  unfolding execute
  execute-ok self [] p pid_map s ok = cc
  execute-ok self (path ∷ args) p pid_map s ok = elim (Bool-cases (exist_at sys s path)) [
    | inl e ↦
        rw e (piped-ok self pid_map (open_pipes calls p s) (open_pipes-ok calls p s) (rw e at ok))
    | inr e ↦ absurd (ground (arith, e))
  ]

  -- `create` gets to register a child only for a process that was not running. The process is then
  -- running, has all its pipes, and is known under the identifier of the child.
  pub create_begin-IsStarted :
      (self : ℕ) (cmd_line : List ℕ) (p : Process) (pid_map : List (ℕ × ℕ)) (s : S)
      → (create_begin sys calls self cmd_line p pid_map s).ok ≡ true
      → (is_running p ≡ false) × IsStarted self (create_begin sys calls self cmd_line p pid_map s)
  unfolding create_begin
  create_begin-IsStarted self cmd_line p pid_map s ok = elim (Bool-cases (is_running p)) [
    | inl e ↦ absurd (ground (arith, e))
    | inr e ↦ (
      e,
      rw e (
          execute-ok self (take max_arg_count (parse_cmd_line cmd_line)) (close sys p s).0 pid_map
            (close sys p s).1 (rw e at ok)),
    )
  ]
