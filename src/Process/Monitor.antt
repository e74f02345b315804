-- ===== src/Process/Monitor.antt =====
-- The handler of SIGCHLD and the processes that `create` registered.
use ckcore.Base.{ℕ, ◌≡◌, ◌≢◌, refl, true, some, List, ◌==◌, arith, Bool-cases, inl, inr}
use ckcore.Files.{Sys}
use ckcore.Process.{
  Process, is_running, registered, get_exit_code, Status, exited, ended, sigchld_handler, Calls,
}
use ckcore.Process.Creation.{create_begin, create_end}
use ckcore.Process.Started.{create_begin-IsStarted}

module _ (pid self : ℕ) (pid_map : List (ℕ × ℕ)) (store : ℕ → Process) where
  handled_self :
      (status : Status)
      → registered pid pid_map ≡ some self
      → sigchld_handler pid status pid_map store self ≡ ended status (store self)
  unfolding sigchld_handler
  handled_self status e =
      let same : (self == self) ≡ true = ground arith in rw (e, sigchld_handler, same) refl

  handled_other :
      (status : Status) (other : ℕ)
      → registered pid pid_map ≡ some self
      → other ≢ self
      → sigchld_handler pid status pid_map store other ≡ store other
  unfolding sigchld_handler
  handled_other status other e ne = elim (Bool-cases (other == self)) [
    | inl same ↦ absurd (ne (ground (arith, same)))
    | inr differ ↦ rw (e, sigchld_handler, differ) refl
  ]

-- A process that `create` has registered is stopped by the handler, and no other, when its child ends
-- with an exit code, which the process then gives. Where this comes before `create` goes on behind its
-- wait, the code is lost: the process gives 0.
pub sigchld_handler-create_end :
    {S : Type 0} (sys : Sys S) (calls : Calls S) (self code : ℕ) (cmd_line : List ℕ) (p : Process)
    (pid_map : List (ℕ × ℕ)) (s : S) (store : ℕ → Process)
    → (create_begin sys calls self cmd_line p pid_map s).ok ≡ true
    → let c = create_begin sys calls self cmd_line p pid_map s in
      (pid : ℕ) × (c.process.pid ≡ some pid)
      × (get_exit_code (sigchld_handler pid (exited code) c.pid_map store self) ≡ some code)
      × ((other : ℕ)
          → other ≢ self
          → sigchld_handler pid (exited code) c.pid_map store other ≡ store other)
      × (get_exit_code (create_end (sigchld_handler pid (exited code) c.pid_map store self))
          ≡ some 0)
unfolding get_exit_code create_end is_running ended
sigchld_handler-create_end sys calls self code cmd_line p pid_map s store ok =
    let c = create_begin sys calls self cmd_line p pid_map s in
    let (_, (pid, known, _, _, entry)) =
      create_begin-IsStarted sys calls self cmd_line p pid_map s ok in
    let stops = handled_self pid self c.pid_map store (exited code) entry in
    (
      pid,
      known,
      rw stops refl,
      λ other ne. handled_other pid self c.pid_map store (exited code) other entry ne,
      rw stops refl,
    )
