-- ===== src/Process/Failure.antt =====
-- What a fork that fails makes of `Process::create`.
use ckcore.Base.{ℕ, ◌≡◌, refl, Bool, true, false, none, List, ◌∷◌, take}
use ckcore.Files.{Sys, exist_at}
use ckcore.Process.{Process, running, is_running, max_arg_count, parse_cmd_line, Calls, close}
use ckcore.Process.Creation.{
  open_pipes, unblock_pipes, register_child, launch, kill, piped, execute, create_begin,
}

module _ {S : Type 0} (sys : Sys S) (calls : Calls S) where
  piped-true :
      (self : ℕ) (pid_map : List (ℕ × ℕ)) (r : Bool × Process × S)
      → r.0 ≡ true
      → piped sys calls self pid_map r ≡ launch calls self r.1 pid_map r.2
  unfolding piped
  piped-true self pid_map (true, p, s) e = refl
  piped-true self pid_map (false, p, s) e = cc

  abbrev pub unforked : Process → Process
  unforked p = record p { state = running; pid = none }

  launch-none :
      (self : ℕ) (p : Process) (pid_map : List (ℕ × ℕ)) (s : S)
      → ((u : S) → (calls.fork u).0 ≡ none)
      → launch calls self p pid_map s ≡ record {
        ok = false;
        process = unforked p;
        pid_map = pid_map;
        system = (calls.fork (unblock_pipes calls p s)).1;
      }
  unfolding launch register_child
  launch-none self p pid_map s fails = rw (fails (unblock_pipes calls p s), register_child) refl

  unforked-refuses :
      (self : ℕ) (cmd_line : List ℕ) (p : Process) (pid_map : List (ℕ × ℕ)) (t : S)
      → (is_running (unforked p) ≡ true)
        × (kill calls (unforked p) t ≡ (false, t))
        × (create_begin sys calls self cmd_line (unforked p) pid_map t
            ≡ record { ok = false; process = unforked p; pid_map = pid_map; system = t })
  unfolding create_begin is_running kill
  unforked-refuses self cmd_line p pid_map t = (refl, refl, refl)

  -- Where no fork succeeds, a call of `create` that is not refused before, with the arguments, the file
  -- and the pipes that it needs, returns false and leaves a process that counts as running: it cannot
  -- be killed, and every later call of `create` returns false and changes nothing.
  pub fork_fails-create_begin :
      (self : ℕ) (path : List ℕ) (args : List (List ℕ)) (cmd_line later_line : List ℕ) (p : Process)
      (pid_map : List (ℕ × ℕ)) (s t : S)
      → ((u : S) → (calls.fork u).0 ≡ none)
      → is_running p ≡ false
      → take max_arg_count (parse_cmd_line cmd_line) ≡ path ∷ args
      → exist_at sys (close sys p s).1 path ≡ true
      → (open_pipes calls (close sys p s).0 (close sys p s).1).0 ≡ true
      → let c = create_begin sys calls self cmd_line p pid_map s in
        (c.ok ≡ false)
        × (is_running c.process ≡ true)
        × (kill calls c.process t ≡ (false, t))
        × (create_begin sys calls self later_line c.process pid_map t
            ≡ record { ok = false; process = c.process; pid_map = pid_map; system = t })
  fork_fails-create_begin self path args cmd_line later_line p pid_map s t fails idle words found
        pipes =
      let r = open_pipes calls (close sys p s).0 (close sys p s).1 in
      let e : create_begin sys calls self cmd_line p pid_map s ≡ launch calls self r.1 pid_map r.2 =
        unfold create_begin execute in rw (idle, words, found) (piped-true self pid_map r pipes) in
      let (runs, unkilled, refused) = unforked-refuses self later_line r.1 pid_map t in
      rw (e, launch-none self r.1 pid_map r.2 fails) (refl, runs, unkilled, refused)
