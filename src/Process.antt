-- ===== src/Process.antt =====
-- `class Process` and `class ProcessMonitor` of src/unix/process.cc, over the system calls that they
-- make. A part during which `mutex_` is held is one function.
pub mod CommandLine
pub mod Blocks
pub mod Listening
pub mod Reports
pub mod Ending
pub mod Creation
pub mod Started
pub mod Failure
pub mod Monitor
mod Tests
use ckcore.Base.{
  ℕ, zero, suc, ◌-◌, Bool, true, false, not, ◌&&◌, ◌||◌, Option, none, some, List, [], ◌∷◌, ◌++◌,
  Outcome, returns, stuck, ◌>>=◌, ltb, ◌==◌, if◌then◌else◌, length, take,
}
use ckcore.Files.{Sys, exist_at}

-- `State`, and the two descriptors of a pipe; `none` is -1.
pub data State : Type 0 where
  stopped running : State

pub record Pipe : Type 0 where
  pub read_end : Option ℕ
  pub write_end : Option ℕ

abbrev pub no_pipe : Pipe
no_pipe = record { read_end = none; write_end = none }

pub record Process : Type 0 where
  pub invalid_inheritor : Bool
  pub pipe_stdin : Pipe
  pub pipe_stdout : Pipe
  pub pipe_stderr : Pipe
  pub pid : Option ℕ
  pub state : State
  pub exit_code : ℕ
  pub block_delims : List ℕ
  pub block_buffer_out : List ℕ
  pub block_buffer_err : List ℕ
  pub started_event : Bool

-- The calls of `event_output` and `event_finished`.
pub data Event : Type 0 where
  output : List ℕ → Event
  finished : Event

abbrev pub max_arg_count : ℕ
max_arg_count = 127

abbrev pub read_buffer_size : ℕ
read_buffer_size = 128

unfoldable pub create : Process
create = record {
  invalid_inheritor = false;
  pipe_stdin = no_pipe;
  pipe_stdout = no_pipe;
  pipe_stderr = no_pipe;
  pid = none;
  state = stopped;
  exit_code = 0;
  block_delims = b'\n' ∷ b'\r' ∷ [];
  block_buffer_out = [];
  block_buffer_err = [];
  started_event = false;
}

unfoldable pub is_running : Process → Bool
is_running p = elim p.state [ stopped ↦ false | running ↦ true ]

-- The loop over the set of delimiters, which is a list without repetitions.
unfoldable pub is_delim : List ℕ → ℕ → Bool
is_delim [] c = false
is_delim (d ∷ ds) c = if c == d then true else is_delim ds c

unfoldable pub add_block_delim : ℕ → Process → Process
add_block_delim d p =
    if is_delim p.block_delims d then p else record p { block_delims = d ∷ p.block_delims }

unfoldable pub without : ℕ → List ℕ → List ℕ
without d [] = []
without d (e ∷ es) = let rest = without d es in if d == e then rest else e ∷ rest

unfoldable pub remove_block_delim : ℕ → Process → Process
remove_block_delim d p = record p { block_delims = without d p.block_delims }

unfoldable pub get_exit_code : Process → Option ℕ
get_exit_code p = if is_running p then none else some p.exit_code

-- `parse_cmd_line`: an argument that is not empty is added to the result.
unfoldable pub flushed : List ℕ → List (List ℕ) → List (List ℕ)
flushed [] res = res
flushed (c ∷ cs) res = res ++ ((c ∷ cs) ∷ [])

unfoldable pub parse_loop : List ℕ → List ℕ → Bool → List (List ℕ) → List (List ℕ)
parse_loop [] cur_arg in_quote res = flushed cur_arg res
parse_loop (c ∷ cs) cur_arg in_quote res = elim (c == b'"') [
  | true ↦ parse_loop cs cur_arg (not in_quote) res
  | false ↦ elim ((c == b' ') && not in_quote) [
    | true ↦ parse_loop cs [] in_quote (flushed cur_arg res)
    | false ↦ parse_loop cs (cur_arg ++ (c ∷ [])) in_quote res
  ]
]

unfoldable pub parse_cmd_line : List ℕ → List (List ℕ)
parse_cmd_line cmd_line = parse_loop cmd_line [] false []

-- The body of the loop that splits what was read into blocks: the buffer, and the block that is
-- complete.
unfoldable pub completed : List ℕ → List (List ℕ)
completed [] = []
completed (c ∷ cs) = (c ∷ cs) ∷ []

unfoldable pub put_char : List ℕ → ℕ → List ℕ → List ℕ × List (List ℕ)
put_char delims c block =
    if is_delim delims c then ([], completed block) else (block ++ (c ∷ []), [])

unfoldable pub split_blocks : List ℕ → List ℕ → List ℕ → List ℕ × List (List ℕ)
split_blocks delims [] block = (block, [])
split_blocks delims (c ∷ cs) block =
    let r = put_char delims c block in
    let rest = split_blocks delims cs r.0 in (rest.0, r.1 ++ rest.1)

-- The calls of `event_output`.
unfoldable pub report : Bool → List (List ℕ) → List Event
report invalid [] = []
report invalid (b ∷ bs) = let rest = report invalid bs in if invalid then rest else output b ∷ rest

unfoldable pub put_stdout : Option (List ℕ) → Process → Bool × Process × List Event
put_stdout none p = (false, p, [])
put_stdout (some bytes) p =
    let r = split_blocks p.block_delims bytes p.block_buffer_out in
    (true, record p { block_buffer_out = r.0 }, report p.invalid_inheritor r.1)

unfoldable pub put_stderr : Option (List ℕ) → Process → Bool × Process × List Event
put_stderr none p = (false, p, [])
put_stderr (some bytes) p =
    let r = split_blocks p.block_delims bytes p.block_buffer_err in
    (true, record p { block_buffer_err = r.0 }, report p.invalid_inheritor r.1)

-- What `wait` says of a child that ended, and what the handler of SIGCHLD makes of it.
pub data Status : Type 0 where
  exited : ℕ → Status
  signaled : Status

unfoldable pub ended : Status → Process → Process
ended (exited code) p = record p { state = stopped; exit_code = code }
ended signaled p = record p { state = stopped }

-- `pid_map_`, from process identifiers to addresses.
unfoldable pub register_process : ℕ → ℕ → List (ℕ × ℕ) → List (ℕ × ℕ)
register_process pid address pid_map = (pid, address) ∷ pid_map

unfoldable pub registered : ℕ → List (ℕ × ℕ) → Option ℕ
registered pid [] = none
registered pid (entry ∷ entries) =
    let rest = registered pid entries in if pid == entry.0 then some entry.1 else rest

unfoldable pub sigchld_handler : ℕ → Status → List (ℕ × ℕ) → (ℕ → Process) → ℕ → Process
sigchld_handler pid status pid_map store address = elim (registered pid pid_map) [
  | none ↦ store address
  | some a ↦ if address == a then ended status (store address) else store address
]

-- The calls that `Sys` of Files has not: select(2) gives the descriptors that can be read, or `none`
-- where a signal interrupts it; fork(2) gives what the parent sees.
pub data Signal : Type 0 where
  sigterm sigkill : Signal

pub record Calls (S : Type 0) : Type 0 where
  pub pipe : S → Option (ℕ × ℕ) × S
  pub set_nonblock : S → ℕ → S
  pub fork : S → Option ℕ × S
  pub create_thread : S → Bool × S
  pub kill : S → ℕ → Signal → Bool × S
  pub select : S → List ℕ → Option (List ℕ) × S

module _ {S : Type 0} (sys : Sys S) where
  unfoldable pub close_end : Option ℕ → S → S
  close_end none s = s
  close_end (some fd) s = (sys.close s fd).1

  unfoldable pub close : Process → S → Process × S
  close p s =
      let s1 = close_end p.pipe_stdin.read_end s in
      let s2 = close_end p.pipe_stdout.read_end s1 in
      let s3 = close_end p.pipe_stderr.read_end s2 in
      let s4 = close_end p.pipe_stdin.write_end s3 in
      let s5 = close_end p.pipe_stdout.write_end s4 in
      let s6 = close_end p.pipe_stderr.write_end s5 in
      (
        record p {
          pipe_stdin = no_pipe;
          pipe_stdout = no_pipe;
          pipe_stderr = no_pipe;
          started_event = false;
          pid = none;
          state = stopped;
        },
        s6,
      )

  unfoldable pub write : Process → S → List ℕ → Option ℕ × S
  write p s bytes = elim p.pid [
    | none ↦ (none, s)
    | some _ ↦
        if not (is_running p)
        then (none, s)
        else elim p.pipe_stdin.write_end [ none ↦ (none, s) | some fd ↦ sys.write s fd bytes ]
  ]

  -- What read(2) gives for `buffer`, whose last byte is kept for the end of the string. `none`: an
  -- error, or the end of the data.
  unfoldable pub fill : Option ℕ → S → Option (List ℕ) × S
  fill none s = (none, s)
  fill (some fd) s =
      let r = sys.read s fd (read_buffer_size - 1) in
      (elim r.0 [ none ↦ none | some bytes ↦ if length bytes == 0 then none else some bytes ], r.1)
