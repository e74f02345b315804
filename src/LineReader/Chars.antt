-- ===== src/LineReader/Chars.antt =====
-- The first line of a text, and what `LineReader` of include/ckcore/linereader.hh does by the
-- character that it has read.
use ckcore.Base.{
  ℕ, ◌≤◌, ◌<◌, ◌≡◌, refl, sym, inl, inr, true, false, Option, some, List, [], ◌∷◌, ◌++◌, Outcome,
  returns, length, Bool-cases, arith, ◌==◌, if◌then◌else◌,
}
use ckcore.Stream.{InStream}
use ckcore.LineReader.{take_char, kept, is_feed, is_return}

-- A line feed right at the beginning is dropped.
abbrev pub drop_feed : List ℕ → List ℕ
drop_feed [] = []
drop_feed (c ∷ text) = if c == b'\n' then text else c ∷ text

-- The first line of a text, up to a line feed, a carriage return, both in that order, or its end.
abbrev pub first_line : List ℕ → List ℕ
first_line [] = []
first_line (c ∷ text) =
    let rest = first_line text in if c == b'\n' then [] else (if c == b'\r' then [] else c ∷ rest)

-- The text behind the first line and what ends it.
abbrev pub behind : List ℕ → List ℕ
behind [] = []
behind (c ∷ text) =
    let rest = behind text in
    if c == b'\n' then text else (if c == b'\r' then drop_feed text else rest)

module _ {S : Type 0} (from : InStream S) where
  -- What is kept behind a carriage return, and the rest, are the text without a line feed in front.
  pub kept_rest :
      (bytes all later : List ℕ)
      → all ≡ bytes ++ later
      → length bytes ≤ 1
      → (0 < length all → 0 < length bytes)
      → kept from (some bytes) ++ later ≡ drop_feed all
  kept_rest [] [] later e few some_left = e'
    where
      e' : later ≡ []
      e' = sym e
  kept_rest [] (c ∷ all) later e few some_left = absurd (omega (arith, some_left (omega arith)))
  kept_rest (c ∷ []) all later e few some_left = elim (Bool-cases (c == b'\n')) [
    | inl is ↦ rw (e, is) refl
    | inr is ↦ rw (e, is) refl
  ]
  kept_rest (c ∷ d ∷ bytes) all later e few some_left = absurd (omega arith)

  pub kept-short : (bytes : List ℕ) → length (kept from (some bytes)) ≤ 1
  kept-short [] = omega arith
  kept-short (c ∷ bytes) = ground arith

  pub take-feed :
      (later : List ℕ → S → Outcome (List ℕ × List ℕ × S)) (line : List ℕ) (c : ℕ) (s : S)
      → is_feed c ≡ true
      → take_char from later line (c ∷ []) s ≡ returns (line, [], s)
  unfolding take_char
  take-feed later line c s feed = rw (feed, take_char) refl

  pub take-return :
      (later : List ℕ → S → Outcome (List ℕ × List ℕ × S)) (line : List ℕ) (c : ℕ) (s s' : S)
      (next : Option (List ℕ))
      → is_feed c ≡ false
      → is_return c ≡ true
      → from.read s 1 ≡ returns (next, s')
      → take_char from later line (c ∷ []) s ≡ returns (line, kept from next, s')
  unfolding take_char
  take-return later line c s s' next no_feed ret e = rw (no_feed, take_char, ret, e) refl

  pub take-other :
      (later : List ℕ → S → Outcome (List ℕ × List ℕ × S)) (line : List ℕ) (c : ℕ) (s : S)
      → is_feed c ≡ false
      → is_return c ≡ false
      → take_char from later line (c ∷ []) s ≡ later (line ++ (c ∷ [])) s
  unfolding take_char
  take-other later line c s no_feed no_return = rw (no_feed, take_char, no_return) refl
