-- ===== src/Windows/Process.antt =====
-- `class Process` of src/windows/process.cc, over the calls of Windows that it makes. NULL is `none`.
pub mod Handles
use ckcore.Base.{
  ℕ, zero, suc, ◌-◌, ◌^◌, Bool, true, false, not, Option, none, some, List, [], ◌∷◌, ◌++◌, Outcome,
  returns, stuck, ◌>>=◌, min, ◌==◌, if◌then◌else◌, length,
}
use ckcore.Process.{State, stopped, running, Event, split_blocks, report, read_buffer_size}

pub record Process : Type 0 where
  pub invalid_inheritor : Bool
  pub pipe_stdin : Option ℕ
  pub pipe_output : Option ℕ
  pub process_handle : Option ℕ
  pub thread_handle : Option ℕ
  pub state : State
  pub exit_code : ℕ
  pub block_delims : List ℕ
  pub block_buffer : List ℕ

-- The calls, over a state of the system. `create_process` gives the handles of the process and of its
-- thread; where it fails, what the structure for them held before. `peek` gives the bytes that can be
-- read, and `read_file` those that were.
pub record Calls (S : Type 0) : Type 0 where
  pub create_pipe : S → Option (ℕ × ℕ) × S
  pub duplicate_handle : S → ℕ → Option ℕ × S
  pub close_handle : S → ℕ → S
  pub create_process : S → List ℕ → Bool × Option ℕ × Option ℕ × S
  pub create_thread : S → Option ℕ × S
  pub stop_thread : S → ℕ → S
  pub exit_code_of : S → ℕ → Option ℕ × S
  pub terminate : S → ℕ → Bool × S
  pub peek : S → ℕ → Option ℕ × S
  pub read_file : S → ℕ → ℕ → Option (List ℕ) × S

unfoldable pub is_running : Process → Bool
is_running p = elim p.state [ stopped ↦ false | running ↦ true ]

unfoldable pub get_exit_code : Process → Option ℕ
get_exit_code p = if is_running p then none else some p.exit_code

module _ {S : Type 0} (calls : Calls S) where
  unfoldable pub close_field : Option ℕ → S → S
  close_field none s = s
  close_field (some h) s = calls.close_handle s h

  -- The thread of `listen` does not wait for itself. Of a process the exit code is kept, -1 for a failure.
  unfoldable pub close_thread : Bool → Option ℕ → S → S
  close_thread by_itself none s = s
  close_thread by_itself (some h) s =
      calls.close_handle (if by_itself then s else calls.stop_thread s h) h

  unfoldable pub close_process : Option ℕ → ℕ → S → ℕ × S
  close_process none code s = (code, s)
  close_process (some h) code s =
      let r = calls.exit_code_of s h in
      (elim r.0 [ none ↦ 2 ^ 32 - 1 | some c ↦ c ], calls.close_handle r.1 h)

  unfoldable pub close : Bool → Process → S → Process × S
  close by_itself p s =
      let s1 = close_thread by_itself p.thread_handle s in
      let s2 = close_field p.pipe_stdin s1 in
      let s3 = close_field p.pipe_output s2 in
      let r = close_process p.process_handle p.exit_code s3 in
      (
        record p {
          thread_handle = none;
          pipe_stdin = none;
          pipe_output = none;
          process_handle = none;
          exit_code = r.0;
          state = stopped;
        },
        r.1,
      )

  -- What `create` comes to: whether it succeeded.
  abbrev pub Made : Type 0
  Made = Bool × Process × S

  abbrev pub close_all : List ℕ → S → S
  close_all [] s = s
  close_all (h ∷ hs) s = close_all hs (calls.close_handle s h)

  -- From the creation of the thread on.
  unfoldable pub watch : Process → S → Made
  watch p s =
      let r = calls.create_thread s in
      elim r.0 [
        | none ↦ let c = close false p r.1 in (false, c.0, c.1)
        | some h ↦ (true, record p { thread_handle = some h; state = running }, r.1)
      ]

  -- From the creation of the process on, with the ends of the pipes that the child takes.
  unfoldable pub execute : List ℕ → List ℕ → ℕ → ℕ → Process → S → Made
  execute cmd_line child_ends output stdin p s =
      let r = calls.create_process s cmd_line in
      let s' = close_all child_ends (close_field r.2 r.3) in
      if r.0
      then watch
          (record p { pipe_output = some output; pipe_stdin = some stdin; process_handle = r.1 }) s'
      else (
        false,
        record p { pipe_output = none; pipe_stdin = none; process_handle = r.1 },
        close_all (stdin ∷ output ∷ []) s',
      )

  -- The handles are `output_read_temp`, `output_write`, `error_write`, `input_read` and
  -- `input_write_temp`, and what the calls give is the argument before the process.
  unfoldable pub with_stdin : List ℕ → ℕ → ℕ → ℕ → ℕ → ℕ → ℕ → Option ℕ → Process → S → Made
  with_stdin cmd_line ot ow ew ir it output none p s =
      (false, p, close_all (ot ∷ ow ∷ ew ∷ it ∷ ir ∷ output ∷ []) s)
  with_stdin cmd_line ot ow ew ir it output (some stdin) p s =
      execute cmd_line (ir ∷ ow ∷ ew ∷ []) output stdin p (close_all (ot ∷ it ∷ []) s)

  unfoldable pub with_output : List ℕ → ℕ → ℕ → ℕ → ℕ → ℕ → Option ℕ → Process → S → Made
  with_output cmd_line ot ow ew ir it none p s =
      (false, p, close_all (ot ∷ ow ∷ ew ∷ it ∷ ir ∷ []) s)
  with_output cmd_line ot ow ew ir it (some output) p s =
      let r = calls.duplicate_handle s it in
      with_stdin cmd_line ot ow ew ir it output r.0 (record p { pipe_output = some output }) r.1

  unfoldable pub with_input : List ℕ → ℕ → ℕ → ℕ → Option (ℕ × ℕ) → Process → S → Made
  with_input cmd_line ot ow ew none p s = (false, p, close_all (ot ∷ ow ∷ ew ∷ []) s)
  with_input cmd_line ot ow ew (some (ir, it)) p s =
      let r = calls.duplicate_handle s ot in with_output cmd_line ot ow ew ir it r.0 p r.1

  unfoldable pub with_error : List ℕ → ℕ → ℕ → Option ℕ → Process → S → Made
  with_error cmd_line ot ow none p s = (false, p, close_all (ot ∷ ow ∷ []) s)
  with_error cmd_line ot ow (some ew) p s =
      let r = calls.create_pipe s in with_input cmd_line ot ow ew r.0 p r.1

  unfoldable pub with_pipe : List ℕ → Option (ℕ × ℕ) → Process → S → Made
  with_pipe cmd_line none p s = (false, p, s)
  with_pipe cmd_line (some (ot, ow)) p s =
      let r = calls.duplicate_handle s ow in with_error cmd_line ot ow r.0 p r.1

  unfoldable pub create : List ℕ → Process → S → Made
  create cmd_line p s =
      if is_running p
      then (false, p, s)
      else (let c = close false p s in
          let r = calls.create_pipe c.1 in with_pipe cmd_line r.0 c.0 r.1)

  unfoldable pub kill : Process → S → Bool × S
  kill p s = elim p.process_handle [
    | none ↦ (false, s)
    | some h ↦ if not (is_running p) then (false, s) else calls.terminate s h
  ]

  -- `read_output`, with a round for each read and one more. `none` is a failed call, or the end of the
  -- data.
  unfoldable pub read_loop : ℕ → ℕ → Process → S → Outcome (Bool × Process × S × List Event)
  read_loop zero pipe p s = stuck
  read_loop (suc fuel) pipe p s =
      let avail = calls.peek s pipe in
      elim avail.0 [
        | none ↦ returns (false, p, avail.1, [])
        | some n ↦
            let r = calls.read_file avail.1 pipe (min n (read_buffer_size - 1)) in
            if n == 0 then returns (true, p, avail.1, []) else elim r.0 [
              | none ↦ returns (false, p, r.1, [])
              | some bytes ↦
                  let split = split_blocks p.block_delims bytes p.block_buffer in
                  do
                    rest ← read_loop fuel pipe (record p { block_buffer = split.0 }) r.1
                    returns (rest.0, rest.1, rest.2, report p.invalid_inheritor split.1 ++ rest.3)
            ]
      ]
