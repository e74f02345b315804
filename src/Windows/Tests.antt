-- ===== src/Windows/Tests.antt =====
-- A file on Windows whose position and size do not fit in 32 bits.
use ckcore.Base.{
  ℕ, suc, ◌+◌, ◌-◌, ◌*◌, ◌/◌, ◌%◌, ◌^◌, ◌<◌, ◌≡◌, refl, ap, true, false, none, some, List, [], ◌∷◌,
  arith, returns,
}
use ckcore.Files.{value, File, FileWhence, file_current, file_begin, file_end}
use ckcore.Windows.{Large, Win, seek2, tell2, size2, exist_at, has_bit}
use ckcore.Windows.Condition as Condition
use ckcore.Windows.Condition.{Condition, enter, awake, expire, signal_all_begin}
use ckcore.Process.{stopped}
use ckcore.Windows.Process as Process
use ckcore.Windows.Process.{Calls}
use ckcore.Windows.Process.Handles.{one, Counts, IsMissed, create-held}
use ckcore.Directory as Directory
use ckcore.Directory.Entries.{visible, first, others}
use ckcore.PathName.Str.{at}
use ckcore.Windows.Directory.{DirCalls, Iterator, pattern_of, open_first}
use ckcore.Windows.Directory.Entries.{Finds, Shows, open_first-visible}
use ckcore.Windows.Positions.{halves, Points, seek2-tell2}

abbrev big : ℕ
big = 5 * 2 ^ 32

-- The state is the position.
abbrev move : ℕ → ℕ → FileWhence → Large × ℕ
move s d file_current = (halves (s + d), s + d)
move s d file_begin = (halves d, d)
move s d file_end = (halves (big + d), big + d)

abbrev windows : Win ℕ
windows = record {
  create_file = λ s path access share disposition. (some 3, s);
  close_handle = λ s h. (true, s);
  set_file_pointer = λ s h low high whence. move s (low + high * 2 ^ 32) whence;
  get_file_size = λ s h. halves big;
  read_file = λ s h n. (none, s);
  write_file = λ s h bytes. (none, s);
  get_file_attributes = λ s path. 16;
  delete_file = λ s path. (false, s);
  move_file = λ s old_path new_path. (false, s);
}

directory_is_no_file : exist_at windows 0 [] ≡ false
unfolding exist_at has_bit
directory_is_no_file = refl

same_move : (s n m : ℕ) (whence : FileWhence) → n ≡ m → move s n whence ≡ move s m whence
same_move s n m whence e = ap (λ k. move s k whence) e

begin_move :
    (s d : ℕ)
    → d < 2 ^ 63
    → (t : ℕ) × (windows.set_file_pointer s 3 (d % 2 ^ 32) (d / 2 ^ 32) file_begin ≡ (halves d, t))
      × (t ≡ d)
      × (big ≡ big)
begin_move s d small =
    (d, same_move s (d % 2 ^ 32 + d / 2 ^ 32 * 2 ^ 32) d file_begin (omega arith), refl, refl)

current_move : (s : ℕ) → windows.set_file_pointer s 3 0 0 file_current ≡ (halves s, s)
current_move s = ap (λ k. (halves k, k)) (omega arith)

abbrev points : Points windows 3
points = record {
  pos = λ s. s;
  len = λ s. big;
  current_lem = current_move;
  begin_lem = begin_move;
  size_lem = λ s. refl;
}

abbrev file : File
file = record { handle = some 3; path = b'f' ∷ [] }

-- A position whose lower half is 2^32 - 1.
seek2-tell2_example :
    (t : ℕ) × (seek2 windows file 0 (3 * 2 ^ 32 - 1) file_begin ≡ (value (3 * 2 ^ 32 - 1), t))
    × (tell2 windows file t ≡ (value (3 * 2 ^ 32 - 1), t))
    × (size2 windows file t ≡ (value big, t))
seek2-tell2_example = seek2-tell2 windows 3 points file 0 (3 * 2 ^ 32 - 1) refl (omega arith)

-- One waits, and all are signalled.
abbrev signalled : Condition
signalled = signal_all_begin (enter Condition.create)

last_waiter_tells : (awake signalled).waiters_done ≡ true
unfolding awake signal_all_begin enter Condition.create
last_waiter_tells = refl

-- A waiter whose time is over does not.
expired_waiter_tells_not : (expire signalled).waiters_done ≡ false
unfolding expire signal_all_begin enter Condition.create
expired_waiter_tells_not = refl

-- The next handle, and how often each is held.
abbrev Table : Type 0
Table = ℕ × (ℕ → ℕ)

abbrev calls : Calls Table
calls = record {
  create_pipe =
      λ s. (some (s.0, suc s.0), (suc (suc s.0), λ x. s.1 x + (one x s.0 + one x (suc s.0))));
  duplicate_handle = λ s h. (some s.0, (suc s.0, λ x. s.1 x + one x s.0));
  close_handle = λ s h. (s.0, λ x. s.1 x - one x h);
  create_process = λ s cmd_line. (false, none, some 1, s);
  create_thread = λ s. (none, s);
  stop_thread = λ s h. s;
  exit_code_of = λ s h. (some 0, s);
  terminate = λ s h. (false, s);
  peek = λ s pipe. (none, s);
  read_file = λ s pipe n. (none, s);
}

abbrev counts : Counts calls
counts = record {
  held = λ s x. s.1 x;
  close_lem = λ s h x. refl;
  pipe_lem = λ s x. refl;
  duplicate_lem = λ s h x. refl;
}

abbrev fresh : Process.Process
fresh = record {
  invalid_inheritor = false;
  pipe_stdin = none;
  pipe_output = none;
  process_handle = none;
  thread_handle = none;
  state = stopped;
  exit_code = 0;
  block_delims = [];
  block_buffer = [];
}

fresh_idle : Process.is_running fresh ≡ false
unfolding Process.is_running
fresh_idle = refl

-- The thread's handle, which is not set, holds 1 by chance.
one_is_not_five : IsMissed calls 5
one_is_not_five s cmd_line e = cc

create-held_example :
    (Process.create calls (b'a' ∷ []) fresh (4, λ x. 0)).2.1 5
    ≡ (Process.close calls false fresh (4, λ x. 0)).1.1 5
create-held_example =
    create-held calls counts (b'a' ∷ []) fresh (4, λ x. 0) 5 (λ s cmd_line. (refl, λ x. refl))
      one_is_not_five fresh_idle

-- The entries that are to come.
abbrev dir_calls : DirCalls (List (List ℕ))
dir_calls = record {
  find_first = λ s pattern. (some (4, b'.' ∷ []), s);
  find_next = λ s handle. (first s, others s);
  find_close = λ s handle. s;
  get_file_attributes = λ s path. 16;
  create_directory = λ s path. (false, s);
  remove_directory = λ s path. (false, s);
}

abbrev finds : Finds dir_calls
finds = record { rest = λ s handle. s; next_lem = λ s handle. (refl, refl) }

abbrev home : Directory.Directory
home = record { dir_path = b'h' ∷ []; dir_handles = [] }

home_pattern : pattern_of home.dir_path ≡ returns (b'h' ∷ b'/' ∷ b'*' ∷ [])
unfolding pattern_of at
home_pattern = refl

open_first-visible_example :
    (it : Iterator) × (dir' : Directory.Directory) × (s' : List (List ℕ)) × (open_first dir_calls 9
        1 home
        ((b'.' ∷ b'.' ∷ []) ∷ (b'a' ∷ []) ∷ [])
      ≡ returns (it, dir', s'))
    × Shows dir_calls 9 (visible ((b'.' ∷ []) ∷ (b'.' ∷ b'.' ∷ []) ∷ (b'a' ∷ []) ∷ [])) it s'
open_first-visible_example =
    open_first-visible dir_calls finds 9 1 4 home (b'h' ∷ b'/' ∷ b'*' ∷ []) (b'.' ∷ [])
      ((b'.' ∷ b'.' ∷ []) ∷ (b'a' ∷ []) ∷ []) ((b'.' ∷ b'.' ∷ []) ∷ (b'a' ∷ []) ∷ []) home_pattern
      refl (omega arith)
