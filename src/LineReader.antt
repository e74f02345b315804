-- ===== src/LineReader.antt =====
-- `LineReader<char>` of include/ckcore/linereader.hh: lines and the mark of the encoding.
mod Chars
pub mod Lines
mod Tests
use ckcore.Base.{
  ℕ, zero, suc, Bool, true, false, ◌&&◌, Option, none, some, List, [], ◌∷◌, ◌++◌, Outcome, returns,
  stuck, ◌>>=◌, ◌==◌, if◌then◌else◌, length,
}
use ckcore.Stream.{InStream, Whence, current, begin}

-- `LineReader::Encoding`.
pub data Encoding : Type 0 where
  ansi utf1 utf7 utf8 utf16be utf16le utf32be utf32le utfebcdic scsu bocu1 : Encoding

pub record LineReader (S : Type 0) : Type 0 where
  pub encoding : Encoding
  pub stream : S
  pub next_str : List ℕ

-- The tests of the static `encoding`, in its order: the bytes that are asked for, what a match makes
-- of the result, and how far it seeks. A test of `n` bytes is made only where that many were read.
pub record Mark : Type 0 where
  pub bytes : List ℕ
  pub found : Option Encoding
  pub skip : ℕ

abbrev pub marks : List Mark
marks =
    record { bytes = 0xfe ∷ 0xff ∷ []; found = some utf16be; skip = 2 }
    ∷ record { bytes = 0xff ∷ 0xfe ∷ []; found = some utf16le; skip = 2 }
    ∷ record { bytes = 0xf7 ∷ 0x64 ∷ 0x4c ∷ []; found = some utf1; skip = 3 }
    ∷ record { bytes = 0xef ∷ 0xbb ∷ 0xbf ∷ []; found = some utf8; skip = 3 }
    ∷ record { bytes = 0x0e ∷ 0xfe ∷ 0xff ∷ []; found = some scsu; skip = 3 }
    ∷ record { bytes = 0xfb ∷ 0xee ∷ 0x28 ∷ []; found = some bocu1; skip = 3 }
    ∷ record { bytes = 0x00 ∷ 0x00 ∷ 0xfe ∷ 0xff ∷ []; found = some utf32be; skip = 4 }
    ∷ record { bytes = 0xff ∷ 0xfe ∷ 0x00 ∷ 0x00 ∷ []; found = some utf32le; skip = 2 }
    ∷ record { bytes = 0xdd ∷ 0x73 ∷ 0x66 ∷ 0x73 ∷ []; found = some utfebcdic; skip = 4 }
    ∷ record { bytes = 0xfb ∷ 0xee ∷ 0x28 ∷ 0xff ∷ []; found = none; skip = 1 }
    ∷ []

-- Whether the bytes that were read begin with those of a mark.
unfoldable pub begins : List ℕ → List ℕ → Bool
begins [] bom = true
begins (m ∷ ms) [] = false
begins (m ∷ ms) (b ∷ bs) = (m == b) && begins ms bs

abbrev pub or_else : Option Encoding → Encoding → Encoding
or_else none e = e
or_else (some found) e = found

unfoldable pub is_feed : ℕ → Bool
is_feed c = c == b'\n'

unfoldable pub is_return : ℕ → Bool
is_return c = c == b'\r'

module _ {S : Type 0} (from : InStream S) where
  unfoldable pub test_marks : List Mark → List ℕ → Encoding → S → Outcome (Encoding × S)
  test_marks [] bom result s = returns (result, s)
  test_marks (m ∷ ms) bom result s = elim (begins m.bytes bom) [
    | true ↦ do (_, s') ← from.seek s m.skip current; test_marks ms bom (or_else m.found result) s'
    | false ↦ test_marks ms bom result s
  ]

  abbrev pub or_empty : Option (List ℕ) → List ℕ
  or_empty none = []
  or_empty (some bytes) = bytes

  -- The static `encoding`.
  unfoldable pub detect : S → Outcome (Encoding × S)
  detect s = do
    (res, s') ← from.read s 4
    (_, s'') ← from.seek s' 0 begin
    test_marks marks (or_empty res) ansi s''

  unfoldable pub create : S → Outcome (LineReader S)
  create s = do
    (encoding, s') ← detect s
    returns (record { encoding = encoding; stream = s'; next_str = [] })

  unfoldable pub end : LineReader S → Bool
  end r = from.end r.stream && (length r.next_str == 0)

  -- What is kept of the character behind a carriage return.
  abbrev pub kept : Option (List ℕ) → List ℕ
  kept none = []
  kept (some []) = []
  kept (some (next ∷ _)) = if next == b'\n' then [] else next ∷ []

  -- What the loop does with the characters of a read, of which there is one or none: `later` are the
  -- rounds that follow.
  unfoldable pub take_char :
      (List ℕ → S → Outcome (List ℕ × List ℕ × S))
      → List ℕ
      → List ℕ
      → S
      → Outcome (List ℕ × List ℕ × S)
  take_char later line [] s = returns (line, [], s)
  take_char later line (c ∷ _) s = elim (is_feed c) [
    | true ↦ returns (line, [], s)
    | false ↦ elim (is_return c) [
      | true ↦ do (next, s') ← from.read s 1; returns (line, kept next, s')
      | false ↦ later (line ++ (c ∷ [])) s
    ]
  ]

  -- The loop of `read_line`: the line, and what it leaves in `next_str_`.
  unfoldable pub line_loop : ℕ → List ℕ → S → Outcome (List ℕ × List ℕ × S)
  line_loop zero line s = stuck
  line_loop (suc fuel) line s = elim (from.end s) [
    | true ↦ returns (line, [], s)
    | false ↦ do (res, s') ← from.read s 1; take_char (line_loop fuel) line (or_empty res) s'
  ]

  unfoldable pub read_line : ℕ → LineReader S → Outcome (List ℕ × LineReader S)
  read_line fuel r = do
    (line, next_str, s) ← line_loop fuel r.next_str r.stream
    returns (line, record r { next_str = next_str; stream = s })
