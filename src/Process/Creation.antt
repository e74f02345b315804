-- ===== src/Process/Creation.antt =====
-- `Process::create` and `kill`. `create` is cut where other threads or the handler of SIGCHLD may change
-- the process: behind the registration of the child, behind the creation of the thread of `listen`, and
-- where it goes on once that has set `started_event_`. What they do in between is not part of it.
use ckcore.Base.{ℕ, Bool, true, false, not, Option, none, some, List, [], ◌∷◌, if◌then◌else◌, take}
use ckcore.Files.{Sys, exist_at}
use ckcore.Process.{
  Pipe, Process, running, is_running, max_arg_count, parse_cmd_line, register_process, sigterm,
  sigkill, Calls, close,
}

-- What `create` leaves: its process, `pid_map_` and the system.
pub record Created (S : Type 0) : Type 0 where
  pub ok : Bool
  pub process : Process
  pub pid_map : List (ℕ × ℕ)
  pub system : S

abbrev pub both_ends : ℕ × ℕ → Pipe
both_ends fds = record { read_end = some fds.0; write_end = some fds.1 }

module _ {S : Type 0} (calls : Calls S) where
  -- The call of pipe(2) on an array that `put` writes to; one that fails leaves it.
  unfoldable pub open_pipe : (Pipe → Process → Process) → Bool × Process × S → Bool × Process × S
  open_pipe put (false, p, s) = (false, p, s)
  open_pipe put (true, p, s) =
      let r = calls.pipe s in
      elim r.0 [ none ↦ (false, p, r.1) | some fds ↦ (true, put (both_ends fds) p, r.1) ]

  unfoldable pub open_pipes : Process → S → Bool × Process × S
  open_pipes p s =
      open_pipe (λ pipe q. record q { pipe_stderr = pipe })
        (open_pipe (λ pipe q. record q { pipe_stdout = pipe })
          (open_pipe (λ pipe q. record q { pipe_stdin = pipe }) (true, p, s)))

  unfoldable pub set_nonblock : Option ℕ → S → S
  set_nonblock none s = s
  set_nonblock (some fd) s = calls.set_nonblock s fd

  unfoldable pub unblock_pipes : Process → S → S
  unblock_pipes p s = set_nonblock p.pipe_stderr.write_end (
      set_nonblock p.pipe_stderr.read_end
        (set_nonblock p.pipe_stdout.write_end (set_nonblock p.pipe_stdout.read_end s)))

  -- After the fork, up to the registration of the child.
  unfoldable pub register_child : ℕ → Option ℕ → Process → List (ℕ × ℕ) → S → Created S
  register_child self none p pid_map s = record {
    ok = false;
    process = p;
    pid_map = pid_map;
    system = s;
  }
  register_child self (some pid) p pid_map s = record {
    ok = true;
    process = record p { pid = some pid };
    pid_map = register_process pid self pid_map;
    system = s;
  }

  -- The creation of the thread of `listen`, in the state that the process has by then; `pid` is `pid_`.
  -- A thread that is not made has the child killed, and `create` returns false.
  unfoldable pub start_listening : ℕ → Created S → Created S
  start_listening pid c =
      let r = calls.create_thread c.system in
      record c { ok = r.0; system = if r.0 then r.1 else (calls.kill r.1 pid sigkill).1 }

  unfoldable pub launch : ℕ → Process → List (ℕ × ℕ) → S → Created S
  launch self p pid_map s =
      let r = calls.fork (unblock_pipes p s) in
      register_child self r.0 (record p { state = running; pid = none }) pid_map r.1

  unfoldable pub kill : Process → S → Bool × S
  kill p s = elim p.pid [
    | none ↦ (false, s)
    | some pid ↦ if not (is_running p) then (false, s) else calls.kill s pid sigterm
  ]

module _ {S : Type 0} (sys : Sys S) (calls : Calls S) where
  unfoldable pub piped : ℕ → List (ℕ × ℕ) → Bool × Process × S → Created S
  piped self pid_map (false, p, s) = record {
    ok = false;
    process = p;
    pid_map = pid_map;
    system = s;
  }
  piped self pid_map (true, p, s) = launch calls self p pid_map s

  -- With the arguments, of which the first is the path.
  unfoldable pub execute : ℕ → List (List ℕ) → Process → List (ℕ × ℕ) → S → Created S
  execute self [] p pid_map s = record { ok = false; process = p; pid_map = pid_map; system = s }
  execute self (path ∷ args) p pid_map s =
      if exist_at sys s path
      then piped self pid_map (open_pipes calls p s)
      else record { ok = false; process = p; pid_map = pid_map; system = s }

  -- `create` up to the registration of its child. Nothing else touches the process so far: the handler
  -- of SIGCHLD finds no entry for the child, and the thread of `listen` is not made yet. It is assumed
  -- that the one of an earlier run has ended.
  unfoldable pub create_begin : ℕ → List ℕ → Process → List (ℕ × ℕ) → S → Created S
  create_begin self cmd_line p pid_map s =
      let c = close sys p s in
      if is_running p
      then record { ok = false; process = p; pid_map = pid_map; system = s }
      else execute self (take max_arg_count (parse_cmd_line cmd_line)) c.0 pid_map c.1

-- `create` goes on once `started_event_` is set.
unfoldable pub create_end : Process → Process
create_end p = record p { exit_code = 0 }
