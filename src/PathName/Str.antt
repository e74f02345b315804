-- ===== src/PathName/Str.antt =====
-- What `class Path` uses of `std::string`: a string is the list of its characters, and npos is the
-- greatest 64-bit number.
use ckcore.Base.{
  ℕ, zero, suc, ◌+◌, ◌^◌, Option, none, some, List, [], ◌∷◌, ◌-◌, Outcome, returns, fault, leb,
  ◌==◌, if◌then◌else◌, length, take, drop,
}

abbrev pub npos : ℕ
npos = 2 ^ 64 - 1

abbrev pub shift : Option ℕ → Option ℕ
shift none = none
shift (some i) = some (suc i)

-- Where `c` stands first.
unfoldable pub index_of : ℕ → List ℕ → Option ℕ
index_of c [] = none
index_of c (x ∷ xs) = if x == c then some 0 else shift (index_of c xs)

-- Where `c` stands last.
unfoldable pub last_index_of : ℕ → List ℕ → Option ℕ
last_index_of c [] = none
last_index_of c (x ∷ xs) = elim (last_index_of c xs) [
  | some i ↦ some (suc i)
  | none ↦ if x == c then some 0 else none
]

abbrev pub or_npos : ℕ → Option ℕ → ℕ
or_npos start none = npos
or_npos start (some i) = start + i

-- `s.find(c, start)`.
unfoldable pub find : List ℕ → ℕ → ℕ → ℕ
find s c start = or_npos start (index_of c (drop start s))

-- `s.rfind(c, last)`: the last place up to `last`.
unfoldable pub rfind : List ℕ → ℕ → ℕ → ℕ
rfind s c last = or_npos 0 (last_index_of c (take (suc last) s))

-- `s.substr(start, count)`, which throws when `start` is past the end.
unfoldable pub substr : List ℕ → ℕ → ℕ → Outcome (List ℕ)
substr s start count = if leb start (length s) then returns (take count (drop start s)) else fault

-- `s[i]`, which is 0 at the end.
unfoldable pub at : List ℕ → ℕ → Outcome ℕ
at [] i = if i == 0 then returns 0 else fault
at (x ∷ xs) zero = returns x
at (x ∷ xs) (suc i) = at xs i
