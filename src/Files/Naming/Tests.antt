-- ===== src/Files/Naming/Tests.antt =====
-- The names of temporary files in "/t".
use ckcore.Base.{ℕ, ◌<◌, ◌≡◌, refl, ap, none, some, List, [], ◌∷◌, returns, length, arith}
use ckcore.PathName.{base_name, append_name}
use ckcore.PathName.Str.{npos, index_of, rfind, last_index_of, substr, at}
use ckcore.Files.{create}
use ckcore.Files.Naming.{prefix_or, temp_at}
use ckcore.Files.Naming.Place.{IsIn, temp_at-IsIn}

abbrev directory : List ℕ
directory = b'/' ∷ b't' ∷ []

abbrev given : List ℕ
given = b'/' ∷ b'a' ∷ b'/' ∷ b'b' ∷ []

names_file :
    temp_at directory none (some given) 7
    ≡ returns (create (b'/' ∷ b't' ∷ b'/' ∷ b'f' ∷ b'i' ∷ b'l' ∷ b'e' ∷ b'b' ∷ []))
unfolding temp_at base_name append_name rfind last_index_of substr at create
names_file = refl

short : (name : List ℕ) → some given ≡ some name → length name < npos
short name e = let same : given ≡ name = cc in omega (arith, ap length same)

prefix_plain : index_of b'/' (prefix_or none) ≡ none
unfolding index_of
prefix_plain = refl

temp_at-IsIn_example : IsIn directory (temp_at directory none (some given) 7)
temp_at-IsIn_example =
    temp_at-IsIn directory none (some given) 7 (omega arith) (omega arith) (omega arith)
      prefix_plain short (λ e. cc)
