-- ===== src/PathName/Cut.antt =====
-- Where `dir_name` and `base_name` cut a path.
use ckcore.Base.{
  ℕ, zero, suc, ◌+◌, ◌<◌, ◌≤◌, ◌≡◌, refl, ap, ◌∙◌, sym, true, false, Option, none, some, List, [],
  ◌∷◌, ◌++◌, ◌==◌, returns, length, take, drop, arith, Option-cases, inl, inr, take-all, leb,
  length-take, length-drop, drop-take, List-cases, sub64, take-take, if◌then◌else◌, dec_lt, add64,
}
use ckcore.PathName.{delim, dir_name, base_name}
use ckcore.PathName.Str.{npos, last_index_of, rfind, substr, or_npos}

last-bound : (c : ℕ) (s : List ℕ) (i : ℕ) → last_index_of c s ≡ some i → i < length s
unfolding last_index_of
last-bound c [] i h = ground arith
last-bound c (x ∷ s) i h = elim (Option-cases (last_index_of c s)) [
  | inl n ↦ ground (arith, n)
  | inr (j, n) ↦ ground (arith, n, last-bound c s j n)
]

-- Behind its last place, a character does not stand.
pub last-behind :
    (c : ℕ) (s : List ℕ) (i : ℕ)
    → last_index_of c s ≡ some i
    → last_index_of c (drop (suc i) s) ≡ none
unfolding last_index_of
last-behind c [] i h = cc
last-behind c (x ∷ s) i h = elim (Option-cases (last_index_of c s)) [
  | inl n ↦ let zero : i ≡ 0 = ground (arith, n) in rw (zero, n) refl
  | inr (j, n) ↦ let next : i ≡ suc j = ground (arith, n) in rw next (last-behind c s j n)
]

-- At its last place, a character stands.
pub last-here :
    (c : ℕ) (s : List ℕ) (i : ℕ)
    → last_index_of c s ≡ some i
    → take (suc i) s ≡ take i s ++ (c ∷ [])
unfolding last_index_of
last-here c [] i h = cc
last-here c (x ∷ s) i h = elim (Option-cases (last_index_of c s)) [
  | inl n ↦
      let zero : i ≡ 0 = ground (arith, n) in let e : x ≡ c = ground (arith, n) in rw (zero, e) refl
  | inr (j, n) ↦
      let next : i ≡ suc j = ground (arith, n) in rw next (ap (λ l. x ∷ l) (last-here c s j n))
]

-- The part of a name that `dir_name` and `base_name` cut: all but a delimiter at its end, unless it
-- is the whole name.
abbrev body_cut : List ℕ → Option ℕ → List ℕ
body_cut name none = name
body_cut name (some zero) = name
body_cut name (some (suc i)) = if suc (suc i) == length name then take (suc i) name else name

abbrev pub body : List ℕ → List ℕ
body name = body_cut name (last_index_of delim name)

abbrev pub dir_cut : List ℕ → Option ℕ → List ℕ
dir_cut s none = []
dir_cut s (some i) = take (suc i) s

abbrev pub base_cut : List ℕ → Option ℕ → List ℕ
base_cut s none = s
base_cut s (some i) = drop (suc i) s

rfind-all : (s : List ℕ) (c : ℕ) → length s < npos → rfind s c npos ≡ or_npos 0 (last_index_of c s)
unfolding rfind
rfind-all s c w = ap (λ l. or_npos 0 (last_index_of c l)) (take-all (suc npos) s (omega arith))

substr-all :
    (s : List ℕ) (start count : ℕ)
    → start ≤ length s
    → length s ≤ start + count
    → substr s start count ≡ returns (drop start s)
unfolding substr
substr-all s start count h c =
    let within : leb start (length s) ≡ true = ground arith in
    rw (within, take-all count (drop start s) (omega (arith, length-drop start s))) refl

substr-front : (s : List ℕ) (count : ℕ) → substr s 0 count ≡ returns (take count s)
unfolding substr
substr-front s count = let within : leb 0 (length s) ≡ true = ground arith in rw within refl

not_npos : (j n : ℕ) → j < n → n < npos → (j == npos) ≡ false
not_npos j n h w = ground arith

substr-inner :
    (s : List ℕ) (start count stop : ℕ)
    → start + count ≡ stop
    → stop ≤ length s
    → substr s start count ≡ returns (drop start (take stop s))
unfolding substr
substr-inner s start count stop e h =
    let within : leb start (length s) ≡ true = ground arith in
    rw (within, sym e, drop-take start count s) refl

-- Both functions cut the body behind its last delimiter.
abbrev Cuts : List ℕ → List ℕ → Type 0
Cuts name s =
    (dir_name name ≡ returns (dir_cut s (last_index_of delim s)))
    × (base_name name ≡ returns (base_cut s (last_index_of delim s)))

Cuts-nil : Cuts [] []
unfolding dir_name base_name rfind last_index_of substr
Cuts-nil = (refl, refl)

Cuts-none :
    (name : List ℕ)
    → length name < npos
    → 0 < length name
    → last_index_of delim name ≡ none
    → Cuts name name
unfolding dir_name base_name
Cuts-none name w l n =
    let r : rfind name delim npos ≡ npos = rfind-all name delim w ∙ ap (or_npos 0) n in
    let e : (npos == sub64 (length name) 1) ≡ false = ground arith in
    let c : add64 (sub64 (length name) 1) 1 ≡ length name = omega arith in
    rw (r, n, e, c, substr-front name (length name), take-all (length name) name (omega arith))
      (refl, refl)

Cuts-inner :
    (name : List ℕ) (i : ℕ)
    → length name < npos
    → last_index_of delim name ≡ some i
    → suc i < length name
    → Cuts name name
unfolding dir_name base_name
Cuts-inner name i w n l =
    let r : rfind name delim npos ≡ i = rfind-all name delim w ∙ ap (or_npos 0) n ∙ omega arith in
    let e : (i == sub64 (length name) 1) ≡ false = ground arith in
    let f : (i == npos) ≡ false = ground arith in
    let c : add64 i 1 ≡ suc i = omega arith in
    rw
      (
        r,
        n,
        e,
        f,
        c,
        substr-front name (suc i),
        substr-all name (suc i) (sub64 (sub64 (length name) 1) i) (omega arith) (omega arith),
      )
      (refl, refl)

Cuts-root : (name : List ℕ) → last_index_of delim name ≡ some 0 → length name ≡ 1 → Cuts name name
unfolding dir_name base_name rfind last_index_of substr
Cuts-root [] n l = cc
Cuts-root (x ∷ []) n l = let e : x ≡ delim = ground arith in rw e (refl, refl)
Cuts-root (x ∷ y ∷ s) n l = absurd (omega arith)

-- The body without a delimiter at the name's end.
Cuts-last :
    (name : List ℕ) (i : ℕ)
    → length name < npos
    → last_index_of delim name ≡ some (suc i)
    → suc (suc i) ≡ length name
    → Cuts name (take (suc i) name)
unfolding dir_name base_name rfind
Cuts-last name i w n l =
    let s = take (suc i) name in
    let len : length s ≡ suc i = omega (arith, length-take (suc i) name) in
    let end : sub64 (length name) 1 ≡ suc i = omega arith in
    let before : sub64 (suc i) 1 ≡ i = omega arith in
    let self : (suc i == suc i) ≡ true = ground arith in
    let whole = take-all (suc npos) name (omega arith) in
    let place : 0 + suc i ≡ suc i = omega arith in
    let count : add64 i 1 ≡ suc i = omega arith in
    elim (Option-cases (last_index_of delim s)) [
      | inl m ↦
          rw (whole, n, place, end, self, before, m, count, substr-front name (suc i)) (refl, refl)
      | inr (j, m) ↦
          let few = last-bound delim s j m in
          let found : 0 + j ≡ j = omega arith in
          let inside = not_npos j (length s) few (omega arith) in
          let behind : add64 j 1 ≡ suc j = omega arith in
          let rest = substr-inner name (suc j) (sub64 i j) (suc i) (omega arith) (omega arith) in
          rw
            (
              whole,
              n,
              place,
              end,
              self,
              before,
              m,
              found,
              inside,
              behind,
              substr-front name (suc j),
              rest,
              take-take (suc j) (suc i) name (omega arith),
            )
            (refl, refl)
    ]

pub cuts : (name : List ℕ) → length name < npos → Cuts name (body name)
unfolding last_index_of
cuts name w = elim (List-cases name) [
  | inl e ↦ rw e Cuts-nil
  | inr l ↦ go (last_index_of delim name) refl l
]
  where
    go :
        (o : Option ℕ)
        → last_index_of delim name ≡ o
        → 0 < length name
        → Cuts name (body_cut name o)
    go none n l = Cuts-none name w l n
    go (some zero) n l = elim (dec_lt 1 (length name)) [
      | yes lt ↦ Cuts-inner name 0 w n lt
      | no ge ↦ Cuts-root name n (omega arith)
    ]
    go (some (suc i)) n l = elim (dec_lt (suc (suc i)) (length name)) [
      | yes lt ↦
          let e : (suc (suc i) == length name) ≡ false = ground arith in
          rw e (Cuts-inner name (suc i) w n lt)
      | no ge ↦
          let last = last-bound delim name (suc i) n in
          let l : suc (suc i) ≡ length name = omega arith in
          let e : (suc (suc i) == length name) ≡ true = ground arith in
          rw e (Cuts-last name i w n l)
    ]
