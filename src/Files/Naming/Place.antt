-- ===== src/Files/Naming/Place.antt =====
-- Where the files of `File::temp` of src/unix/file.cc are.
use ckcore.Base.{
  ℕ, ◌^◌, ◌≤◌, ◌<◌, ◌≡◌, refl, ap, ◌∙◌, true, Option, none, some, List, [], ◌∷◌, ◌++◌, Outcome,
  returns, ◌>>=◌, leb, length, length-append, arith,
}
use ckcore.Convert.Decimal.{ui64_to_str2-read_decimal}
use ckcore.PathName.{append_name}
use ckcore.PathName.Str.{npos, index_of}
use ckcore.PathName.Components.{components}
use ckcore.PathName.Names.{dir_name-base_name}
use ckcore.PathName.Join.{concat-components}
use ckcore.Files.{File, create}
use ckcore.Files.Naming.{prefix_or, path_max, in_buffer, tmp_suffix, temp_at}
use ckcore.Files.Naming.Plain.{
  IsPlain, append-IsPlain, last-IsPlain, ui64_to_str2-IsPlain, components-plain,
}

suffix-IsPlain : IsPlain tmp_suffix
unfolding index_of
suffix-IsPlain = refl

-- A path whose last part is `part`, behind the parts of `path`.
abbrev pub IsIn : List ℕ → Outcome File → Type 0
IsIn path run =
    (f : File) × (part : List ℕ) × (run ≡ returns f)
    × (components f.path ≡ components path ++ part ∷ [])
    × IsPlain part
    × (f ≡ create f.path)

append-IsIn :
    (path part : List ℕ)
    → length path < npos
    → 0 < length path
    → 0 < length part
    → IsPlain part
    → IsIn path (append_name path part >>= λ r. returns (create r))
unfolding create
append-IsIn path part w l m p =
    let (r, both, run, parts) = concat-components path part w l m in
    (
      create r,
      part,
      rw run refl,
      parts ∙ ap (λ ps. components path ++ ps) (components-plain part m p),
      p,
      refl,
    )

-- `File::temp` in a directory whose name is not empty, with a prefix that is not empty and has no
-- delimiter, ends without a fault, and gives a closed file directly in that directory: the parts of its
-- path are those of the directory and one more, which has no delimiter. So it is where tmpnam(3) gives
-- a name, and, for a prefix of at most 4072 characters, where it gives none.
pub temp_at-IsIn :
    (path : List ℕ) (prefix : Option (List ℕ)) (tmp : Option (List ℕ)) (number : ℕ)
    → length path < npos
    → 0 < length path
    → 0 < length (prefix_or prefix)
    → IsPlain (prefix_or prefix)
    → ((name : List ℕ) → tmp ≡ some name → length name < npos)
    → (tmp ≡ none → (length (prefix_or prefix) ≤ 4072) × (number < 2 ^ 64))
    → IsIn path (temp_at path prefix tmp number)
unfolding temp_at in_buffer
temp_at-IsIn path prefix (some name) number w l m p short fits =
    let (dir, base, e, e', joined, is_dir, last) = dir_name-base_name name (short name refl) in
    let part = prefix_or prefix ++ base in
    let some_part : 0 < length part = omega (arith, length-append (prefix_or prefix) base) in
    rw e' (
      append-IsIn path part w l some_part
        (append-IsPlain (prefix_or prefix) base p (last-IsPlain base last)))
temp_at-IsIn path prefix none number w l m p short fits =
    let (few, small) = fits refl in
    let (digits, run, _, reads, short_digits, some_digit) =
      ui64_to_str2-read_decimal number small in
    let part = prefix_or prefix ++ (digits ++ tmp_suffix) in
    let size = length-append (prefix_or prefix) (digits ++ tmp_suffix) in
    let size' = length-append digits tmp_suffix in
    let some_part : 0 < length part = omega (arith, size) in
    let room : leb (length part) path_max ≡ true = ground (arith, size, size', few, short_digits) in
    let plain =
      append-IsPlain (prefix_or prefix) (digits ++ tmp_suffix) p (
        append-IsPlain digits tmp_suffix (ui64_to_str2-IsPlain number digits run) suffix-IsPlain) in
    rw (run, room) (append-IsIn path part w l some_part plain)
