-- ===== src/Files/Naming.antt =====
-- `File::temp` of src/unix/file.cc: names for temporary files, by what tmpnam(3) and rand(3) give.
pub mod Place
mod Plain
mod Tests
use mathlib.Core.List.{reverse, reverse-cons}
use ckcore.Base.{
  ℕ, zero, suc, ◌+◌, ◌*◌, ◌/◌, ◌%◌, ◌^◌, ◌≤◌, ◌<◌, ◌≡◌, refl, ap, sym, ◌∙◌, Bool, true, false,
  Option, none, some, List, [], ◌∷◌, ◌++◌, Outcome, returns, fault, stuck, ◌>>=◌, leb, ◌==◌,
  if◌then◌else◌, length, length-append, arith, Bool-cases, pos→eq_zero, Option-cases, inl, inr,
}
use ckcore.Convert.{ui64_to_str2, digits_loop}
use ckcore.Convert.Decimal.{ui64_to_str2-read_decimal}
use ckcore.PathName.{delim, dir_name, base_name, append_name}
use ckcore.PathName.Str.{npos, index_of, last_index_of}
use ckcore.PathName.Components.{components, pieces, pieces-none}
use ckcore.PathName.Names.{dir_name-base_name}
use ckcore.PathName.Join.{concat-components}
use ckcore.Files.{File, create}

-- The prefix, with the one that stands in for NULL.
abbrev pub prefix_or : Option (List ℕ) → List ℕ
prefix_or none = b'f' ∷ b'i' ∷ b'l' ∷ b'e' ∷ []
prefix_or (some prefix) = prefix

abbrev pub path_max : ℕ
path_max = 4096

-- What is put together in `tmp_name2`, which has room for `PATH_MAX` characters and the 0.
unfoldable pub in_buffer : List ℕ → Outcome (List ℕ)
in_buffer text = if leb (length text) path_max then returns text else fault

abbrev pub tmp_suffix : List ℕ
tmp_suffix = b'.' ∷ b't' ∷ b'm' ∷ b'p' ∷ []

unfoldable pub temp : Option (List ℕ) → Option (List ℕ) → ℕ → Outcome File
temp prefix (some name) number = do
  base ← base_name name
  dir ← dir_name name
  path ← append_name dir (prefix_or prefix ++ base)
  returns (create path)
temp prefix none number = do
  digits ← ui64_to_str2 number
  path ←
      in_buffer
        ((b'/' ∷ b't' ∷ b'm' ∷ b'p' ∷ b'/' ∷ []) ++ (prefix_or prefix ++ (digits ++ tmp_suffix)))
  returns (create path)

-- The form that takes the directory.
unfoldable pub temp_at : List ℕ → Option (List ℕ) → Option (List ℕ) → ℕ → Outcome File
temp_at file_path prefix (some name) number = do
  base ← base_name name
  path ← append_name file_path (prefix_or prefix ++ base)
  returns (create path)
temp_at file_path prefix none number = do
  digits ← ui64_to_str2 number
  file_name ← in_buffer (prefix_or prefix ++ (digits ++ tmp_suffix))
  path ← append_name file_path file_name
  returns (create path)
