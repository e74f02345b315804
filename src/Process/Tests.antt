-- ===== src/Process/Tests.antt =====
-- The theorems on processes, over a system whose child writes `ab`, a line feed, and `c`.
use ckcore.Base.{
  ℕ, suc, ◌≡◌, ◌≢◌, refl, true, false, Option, none, some, List, [], ◌∷◌, ◌++◌, arith,
}
use ckcore.Files.{Sys, fails, gives, exist_at, is_plain}
use ckcore.Process.{
  Process, is_running, parse_cmd_line, parse_loop, flushed, report, completed, exited,
  sigchld_handler, Calls, close, create, get_exit_code,
}
use ckcore.Process.CommandLine.{solid, quoted, parse_cmd_line-quoted}
use ckcore.Process.Blocks.{cut, reads_out, reads_err, reads-cut}
use ckcore.Process.Creation.{
  Created, create_begin, create_end, kill, start_listening, open_pipe, open_pipes, register_child,
  launch, piped, execute,
}
use ckcore.Process.Failure.{fork_fails-create_begin}
use ckcore.Process.Monitor.{sigchld_handler-create_end}

-- The state of the system is the next descriptor.
abbrev linux : Sys ℕ
linux = record {
  open_file = λ s path flags. (fails 2, s);
  close = λ s fd. (true, s);
  set_lock = λ s fd to_write. (none, s);
  lseek = λ s fd d whence. (fails 29, s);
  read = λ s fd n. (some (b'a' ∷ b'b' ∷ b'\n' ∷ b'c' ∷ []), s);
  write = λ s fd bytes. (none, s);
  fstat = λ s fd. fails 9;
  stat = λ s path. gives (record { mode = 32768; size = 1 });
  access = λ s path mode. true;
  unlink = λ s path. (false, s);
  rename = λ s old_path new_path. (false, s);
}

abbrev unix : Option ℕ → Calls ℕ
unix child = record {
  pipe = λ s. (some (s, suc s), suc (suc s));
  set_nonblock = λ s fd. s;
  fork = λ s. (child, s);
  create_thread = λ s. (true, s);
  kill = λ s pid signal. (true, s);
  select = λ s fds. (some fds, s);
}

abbrev line : List ℕ
line = b'/' ∷ b'l' ∷ b's' ∷ b' ' ∷ b'"' ∷ b'a' ∷ b' ' ∷ b'b' ∷ b'"' ∷ []

two_arguments : parse_cmd_line line ≡ (b'/' ∷ b'l' ∷ b's' ∷ []) ∷ (b'a' ∷ b' ' ∷ b'b' ∷ []) ∷ []
unfolding parse_cmd_line parse_loop flushed
two_arguments = refl

abbrev started : Created ℕ
started = create_begin linux (unix (some 7)) 1 line create [] 3

abbrev listening : Process
listening = started.process

parse_cmd_line-quoted_example :
    parse_cmd_line (quoted ((b'a' ∷ b' ' ∷ []) ∷ (b'b' ∷ []) ∷ []))
    ≡ (b'a' ∷ b' ' ∷ []) ∷ (b'b' ∷ []) ∷ []
parse_cmd_line-quoted_example =
    parse_cmd_line-quoted ((b'a' ∷ b' ' ∷ []) ∷ (b'b' ∷ []) ∷ [])
      ((omega arith, (refl, (refl, tt))), ((omega arith, (refl, tt)), tt))

started_ok : started.ok ≡ true
unfolding create_begin execute exist_at is_plain piped launch open_pipes open_pipe register_child
    is_running create parse_cmd_line parse_loop flushed close
started_ok = refl

sigchld_handler-create_end_example :
    (pid : ℕ) × (started.process.pid ≡ some pid)
    × (get_exit_code (sigchld_handler pid (exited 3) started.pid_map (λ a. listening) 1) ≡ some 3)
    × ((other : ℕ)
        → other ≢ 1
        → sigchld_handler pid (exited 3) started.pid_map (λ a. listening) other ≡ listening)
    × (get_exit_code
          (create_end (sigchld_handler pid (exited 3) started.pid_map (λ a. listening) 1))
        ≡ some 0)
sigchld_handler-create_end_example =
    sigchld_handler-create_end linux (unix (some 7)) 1 3 line create [] 3 (λ a. listening)
      started_ok

ls_is_there : exist_at linux (close linux create 3).1 (b'/' ∷ b'l' ∷ b's' ∷ []) ≡ true
unfolding exist_at is_plain
ls_is_there = refl

pipes_open : (open_pipes (unix none) (close linux create 3).0 (close linux create 3).1).0 ≡ true
unfolding open_pipes open_pipe
pipes_open = refl

abbrev refused : Created ℕ
refused = create_begin linux (unix none) 1 line create [] 3

not_running : is_running create ≡ false
unfolding is_running create
not_running = refl

fork_fails-create_begin_example :
    (refused.ok ≡ false)
    × (is_running refused.process ≡ true)
    × (kill (unix none) refused.process 5 ≡ (false, 5))
    × (create_begin linux (unix none) 1 line refused.process [] 5
        ≡ record { ok = false; process = refused.process; pid_map = []; system = 5 })
unfolding parse_cmd_line parse_loop flushed
fork_fails-create_begin_example =
    fork_fails-create_begin linux (unix none) 1 (b'/' ∷ b'l' ∷ b's' ∷ [])
      ((b'a' ∷ b' ' ∷ b'b' ∷ []) ∷ []) line line create [] 3 5 (λ u. refl) not_running refl
      ls_is_there pipes_open

-- A thread that is not made has the child killed.
abbrev threadless : Calls ℕ
threadless = record (unix (some 7)) {
  create_thread = λ s. (false, s);
  kill = λ s pid signal. (true, pid);
}

kills_child :
    start_listening threadless 7 started
    ≡ record { ok = false; process = listening; pid_map = started.pid_map; system = 7 }
unfolding start_listening
kills_child = refl

-- Two reads cut a block in two.
reads-cut_example :
    (out : List (List ℕ)) × (err : List (List ℕ)) × ((reads_out
        ((b'a' ∷ []) ∷ (b'b' ∷ b'\n' ∷ []) ∷ [])
        create).1
      ≡ report create.invalid_inheritor out)
    × (out
          ++ completed
              (reads_out ((b'a' ∷ []) ∷ (b'b' ∷ b'\n' ∷ []) ∷ []) create).0.block_buffer_out
        ≡ completed
            (create.block_buffer_out ++ (cut create.block_delims (b'a' ∷ b'b' ∷ b'\n' ∷ [])).0)
          ++ solid (cut create.block_delims (b'a' ∷ b'b' ∷ b'\n' ∷ [])).1)
    × ((reads_err ((b'a' ∷ []) ∷ (b'b' ∷ b'\n' ∷ []) ∷ []) create).1
        ≡ report create.invalid_inheritor err)
    × (err
          ++ completed
              (reads_err ((b'a' ∷ []) ∷ (b'b' ∷ b'\n' ∷ []) ∷ []) create).0.block_buffer_err
        ≡ completed
            (create.block_buffer_err ++ (cut create.block_delims (b'a' ∷ b'b' ∷ b'\n' ∷ [])).0)
          ++ solid (cut create.block_delims (b'a' ∷ b'b' ∷ b'\n' ∷ [])).1)
reads-cut_example = reads-cut ((b'a' ∷ []) ∷ (b'b' ∷ b'\n' ∷ []) ∷ []) create
