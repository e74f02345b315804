-- ===== src/Text.antt =====
-- src/string.cc and src/exception.cc as compiled for Unix: copies between buffers of characters, and the
-- messages of exceptions. A string holds the characters before its terminating 0.
pub mod Copies
mod Tests
use ckcore.Base.{
  ℕ, zero, suc, ◌+◌, ◌-◌, ◌%◌, ◌^◌, Bool, true, false, Option, none, some, List, [], ◌∷◌, ◌++◌,
  Outcome, returns, fault, ◌>>=◌, leb, ltb, ◌==◌, if◌then◌else◌, length, take, replicate, load,
  store,
}

-- `out_len`: `utf_len - 1` is an `int` that becomes a `size_t`.
unfoldable pub out_len : ℕ → ℕ → ℕ
out_len len size = if leb size len then (size + 2 ^ 64 - 1) % 2 ^ 64 else len

-- The conversions of one character: a `char` keeps its sign as a `wchar_t`, and the lowest byte of a
-- `wchar_t` makes a `char`.
unfoldable pub widened : ℕ → ℕ
widened c = if ltb c (2 ^ 7) then c else c + (2 ^ 32 - 2 ^ 8)

unfoldable pub narrowed : ℕ → ℕ
narrowed c = c % 2 ^ 8

module _ (convert : ℕ → ℕ) where
  -- The character at a place of the string, put into the buffer.
  unfoldable pub put_char : List ℕ → List ℕ → ℕ → Outcome (List ℕ)
  put_char text buf i = do
    c ← load (text ++ (0 ∷ [])) i 1
    elim c [ [] ↦ fault | x ∷ xs ↦ store buf i (convert x ∷ []) ]

  -- The loop, with `n` characters to go.
  unfoldable pub text_loop : ℕ → ℕ → List ℕ → List ℕ → Outcome (List ℕ)
  text_loop zero i text buf = returns buf
  text_loop (suc n) i text buf = do buf' ← put_char text buf i; text_loop n (i + 1) text buf'

  -- The loop, and the 0 behind what it copied.
  unfoldable pub copy_text : List ℕ → List ℕ → Outcome (List ℕ)
  copy_text text buf = do
    let n = out_len (length text) (length buf)
    buf' ← text_loop n 0 text buf
    store buf' n (0 ∷ [])

unfoldable pub ansi_to_utf16 : List ℕ → List ℕ → Outcome (List ℕ)
ansi_to_utf16 ansi utf = copy_text widened ansi utf

unfoldable pub utf16_to_ansi : List ℕ → List ℕ → Outcome (List ℕ)
utf16_to_ansi utf ansi = copy_text narrowed utf ansi

-- `vformatstr`, over what vsnprintf(3) gives for a size: the number of characters, and what it writes.
unfoldable pub vformatstr : (ℕ → ℕ × List ℕ) → Outcome (List ℕ)
vformatstr vsnprintf =
    let char_cnt = (vsnprintf 0).0 in
    let second = vsnprintf (char_cnt + 1) in
    if char_cnt == 0 then returns [] else (do
      buf ← store (replicate (char_cnt + 1) 0) 0 second.1
      (if char_cnt == second.0 then returns (take char_cnt buf) else fault))

-- `Exception2`, and the other exceptions by what their `what` gives.
pub data Exception : Type 0 where
  exception2 : List ℕ → Exception
  other : List ℕ → Exception

unfoldable pub get_except_msg : Exception → List ℕ
get_except_msg (exception2 err_msg) = err_msg
get_except_msg (other what) = what

-- The exception that `rethrow_with_pfx` throws.
unfoldable pub rethrow_with_pfx : Exception → (ℕ → ℕ × List ℕ) → Outcome Exception
rethrow_with_pfx e vsnprintf = do
  msg ← vformatstr vsnprintf
  returns (exception2 (msg ++ get_except_msg e))

-- The exception that `throw_from_errno` throws; `strerror` gives the text of a code, and the prefix may
-- be null.
unfoldable pub throw_from_errno : (ℕ → List ℕ) → ℕ → Option (ℕ → ℕ × List ℕ) → Outcome Exception
throw_from_errno strerror errno_code none = returns (exception2 (strerror errno_code))
throw_from_errno strerror errno_code (some vsnprintf) = do
  msg ← vformatstr vsnprintf
  returns (exception2 (msg ++ strerror errno_code))
