-- ===== src/Windows/Process/Handles.antt =====
-- Which handles `Process::create` leaves open on Windows.
use ckcore.Base.{
  ℕ, ◌+◌, ◌-◌, ◌≡◌, ◌≢◌, refl, ap, sym, Bool-cases, inl, inr, false, Option, none, some, List, [],
  ◌∷◌, ◌==◌, if◌then◌else◌, arith,
}
use ckcore.Windows.Process.{
  Process, Calls, is_running, close, close_field, close_all, execute, with_stdin, with_output,
  with_input, with_error, with_pipe, create,
}

-- How often `x` is among one, two or no handles.
unfoldable pub one : ℕ → ℕ → ℕ
one x h = if x == h then 1 else 0

abbrev pub opened : ℕ → Option ℕ → ℕ
opened x none = 0
opened x (some h) = one x h

abbrev pub opened_two : ℕ → Option (ℕ × ℕ) → ℕ
opened_two x none = 0
opened_two x (some (a, b)) = one x a + one x b

-- What the manual says of the calls: `held s x` is 1 where the handle `x` is open and 0 where it is not.
-- A handle that a call gives was not open before.
pub record Counts {S : Type 0} (calls : Calls S) : Type 0 where
  pub held : S → ℕ → ℕ
  pub close_lem : (s : S) (h x : ℕ) → held (calls.close_handle s h) x ≡ held s x - one x h
  pub pipe_lem :
      (s : S) (x : ℕ)
      → held (calls.create_pipe s).1 x ≡ held s x + opened_two x (calls.create_pipe s).0
  pub duplicate_lem :
      (s : S) (h x : ℕ)
      → held (calls.duplicate_handle s h).1 x ≡ held s x + opened x (calls.duplicate_handle s h).0

-- The same for a call that is to make the process and fails: it opens and closes nothing.
abbrev pub NoProcess : {S : Type 0} {calls : Calls S} → Counts calls → Type 0
NoProcess {S} {calls} counts =
    (s : S) (cmd_line : List ℕ)
    → ((calls.create_process s cmd_line).0 ≡ false)
      × ((x : ℕ) → counts.held (calls.create_process s cmd_line).3 x ≡ counts.held s x)

-- `x` is not what `pi.hThread` holds by chance where CreateProcess has not set it.
abbrev pub IsMissed : {S : Type 0} → Calls S → ℕ → Type 0
IsMissed {S} calls x = (s : S) (cmd_line : List ℕ) → (calls.create_process s cmd_line).2 ≢ some x

one_other : (x h : ℕ) → x ≢ h → one x h ≡ 0
unfolding one
one_other x h ne = elim (Bool-cases (x == h)) [
  | inl same ↦ absurd (ne (ground (arith, same)))
  | inr other ↦ rw other refl
]

module _ {S : Type 0} (calls : Calls S) (counts : Counts calls) (fails : NoProcess counts) (x : ℕ)
    (missed : IsMissed calls x) where
  abbrev held : S → ℕ
  held s = counts.held s x

  close_two : (a b : ℕ) (s : S) → held (close_all calls (a ∷ b ∷ []) s) ≡ held s - one x a - one x b
  close_two a b s =
      omega (arith, counts.close_lem s a x, counts.close_lem (calls.close_handle s a) b x)

  close_three :
      (a b c : ℕ) (s : S)
      → held (close_all calls (a ∷ b ∷ c ∷ []) s) ≡ held s - one x a - one x b - one x c
  close_three a b c s =
      omega (arith, close_two a b s, counts.close_lem (close_all calls (a ∷ b ∷ []) s) c x)

  close_field-held : (h : Option ℕ) (s : S) → h ≢ some x → held (close_field calls h s) ≡ held s
  unfolding close_field
  close_field-held none s ne = refl
  close_field-held (some h) s ne =
      omega (arith, counts.close_lem s h x, one_other x h (λ e. ne (ap some (sym e))))

  execute-held :
      (cmd_line : List ℕ) (a b c output stdin : ℕ) (p : Process) (s : S)
      → held (execute calls cmd_line (a ∷ b ∷ c ∷ []) output stdin p s).2
        ≡ held s - one x a - one x b - one x c - one x stdin - one x output
  unfolding execute
  execute-held cmd_line a b c output stdin p s =
      let (failed, same) = fails s cmd_line in
      let t = (calls.create_process s cmd_line).3 in
      let t' = close_field calls (calls.create_process s cmd_line).2 t in
      rw failed (
        omega (
          arith,
          same x,
          close_field-held (calls.create_process s cmd_line).2 t (missed s cmd_line),
          close_three a b c t',
          close_two stdin output (close_all calls (a ∷ b ∷ c ∷ []) t'),
        ))

  with_stdin-held :
      (cmd_line : List ℕ) (ot ow ew ir it output : ℕ) (r : Option ℕ) (p : Process) (s : S) (n : ℕ)
      → held s
        ≡ n + one x ot + one x ow + one x ew + one x ir + one x it + one x output + opened x r
      → held (with_stdin calls cmd_line ot ow ew ir it output r p s).2 ≡ n
  unfolding with_stdin
  with_stdin-held cmd_line ot ow ew ir it output none p s n e =
      let t = close_all calls (ot ∷ ow ∷ ew ∷ []) s in
      omega (arith, e, close_three ot ow ew s, close_three it ir output t)
  with_stdin-held cmd_line ot ow ew ir it output (some stdin) p s n e =
      let t = close_all calls (ot ∷ it ∷ []) s in
      omega (arith, e, close_two ot it s, execute-held cmd_line ir ow ew output stdin p t)

  with_output-held :
      (cmd_line : List ℕ) (ot ow ew ir it : ℕ) (r : Option ℕ) (p : Process) (s : S) (n : ℕ)
      → held s ≡ n + one x ot + one x ow + one x ew + one x ir + one x it + opened x r
      → held (with_output calls cmd_line ot ow ew ir it r p s).2 ≡ n
  unfolding with_output
  with_output-held cmd_line ot ow ew ir it none p s n e =
      let t = close_all calls (ot ∷ ow ∷ ew ∷ []) s in
      omega (arith, e, close_three ot ow ew s, close_two it ir t)
  with_output-held cmd_line ot ow ew ir it (some output) p s n e =
      let d = calls.duplicate_handle s it in
      with_stdin-held cmd_line ot ow ew ir it output d.0 (record p { pipe_output = some output })
        d.1 n (omega (arith, e, counts.duplicate_lem s it x))

  with_input-held :
      (cmd_line : List ℕ) (ot ow ew : ℕ) (r : Option (ℕ × ℕ)) (p : Process) (s : S) (n : ℕ)
      → held s ≡ n + one x ot + one x ow + one x ew + opened_two x r
      → held (with_input calls cmd_line ot ow ew r p s).2 ≡ n
  unfolding with_input
  with_input-held cmd_line ot ow ew none p s n e = omega (arith, e, close_three ot ow ew s)
  with_input-held cmd_line ot ow ew (some (ir, it)) p s n e =
      let d = calls.duplicate_handle s ot in
      with_output-held cmd_line ot ow ew ir it d.0 p d.1 n
        (omega (arith, e, counts.duplicate_lem s ot x))

  with_error-held :
      (cmd_line : List ℕ) (ot ow : ℕ) (r : Option ℕ) (p : Process) (s : S) (n : ℕ)
      → held s ≡ n + one x ot + one x ow + opened x r
      → held (with_error calls cmd_line ot ow r p s).2 ≡ n
  unfolding with_error
  with_error-held cmd_line ot ow none p s n e = omega (arith, e, close_two ot ow s)
  with_error-held cmd_line ot ow (some ew) p s n e =
      let d = calls.create_pipe s in
      with_input-held cmd_line ot ow ew d.0 p d.1 n (omega (arith, e, counts.pipe_lem s x))

  with_pipe-held :
      (cmd_line : List ℕ) (r : Option (ℕ × ℕ)) (p : Process) (s : S) (n : ℕ)
      → held s ≡ n + opened_two x r
      → held (with_pipe calls cmd_line r p s).2 ≡ n
  unfolding with_pipe
  with_pipe-held cmd_line none p s n e = omega (arith, e)
  with_pipe-held cmd_line (some (ot, ow)) p s n e =
      let d = calls.duplicate_handle s ow in
      with_error-held cmd_line ot ow d.0 p d.1 n (omega (arith, e, counts.duplicate_lem s ow x))

-- Where CreateProcess fails whenever it is called, and opens and closes nothing then, `create` of a
-- process that is not running on Windows leaves a handle open exactly if it was open after `create` had
-- closed what it had from before, whichever of its calls fails. This is said of every handle but the one
-- that `pi.hThread`, which nothing has set, holds by chance, and which `create` closes.
pub create-held :
    {S : Type 0} (calls : Calls S) (counts : Counts calls) (cmd_line : List ℕ) (p : Process) (s : S)
    (x : ℕ)
    → NoProcess counts
    → IsMissed calls x
    → is_running p ≡ false
    → counts.held (create calls cmd_line p s).2 x ≡ counts.held (close calls false p s).1 x
unfolding create
create-held calls counts cmd_line p s x fails missed idle =
    let c = close calls false p s in
    let r = calls.create_pipe c.1 in
    rw idle (
      with_pipe-held calls counts fails x missed cmd_line r.0 c.0 r.1 (counts.held c.1 x)
        (counts.pipe_lem c.1 x))
