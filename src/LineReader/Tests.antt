-- ===== src/LineReader/Tests.antt =====
-- Lines of a text in memory, and the theorem at that text.
use ckcore.Base.{◌≤◌, ◌≡◌, refl, [], ◌∷◌, ◌++◌, returns, load, length, arith}
use ckcore.MemoryStream.In
use ckcore.MemoryStream.In.{MemoryIn, memory}
use ckcore.MemoryStream.In.Contract.{memory_source}
use ckcore.LineReader.{
  LineReader, ansi, utf8, begins, test_marks, detect, create, take_char, line_loop, read_line,
  is_feed, is_return,
}
use ckcore.LineReader.Chars.{first_line, behind}
use ckcore.LineReader.Lines.{read_line-first_line}

-- A mark of UTF-8 and a character.
finds_utf8 :
    create memory (In.create (0xef ∷ 0xbb ∷ 0xbf ∷ 65 ∷ []) 4)
    ≡ returns (record {
      encoding = utf8;
      stream = record { bytes = 0xef ∷ 0xbb ∷ 0xbf ∷ 65 ∷ []; count = 4; pos = 3 };
      next_str = [];
    })
unfolding create detect test_marks begins memory In.create In.read In.seek load
finds_utf8 = refl

-- "a", two carriage returns, and "b".
abbrev returns_text : LineReader MemoryIn
returns_text = record {
  encoding = ansi;
  stream = record { bytes = 97 ∷ 13 ∷ 13 ∷ 98 ∷ []; count = 4; pos = 0 };
  next_str = [];
}

abbrev after_return : LineReader MemoryIn
after_return = record returns_text {
  stream = record { bytes = 97 ∷ 13 ∷ 13 ∷ 98 ∷ []; count = 4; pos = 3 };
  next_str = 13 ∷ [];
}

keeps_return : read_line memory 5 returns_text ≡ returns (97 ∷ [], after_return)
unfolding read_line line_loop take_char is_feed is_return memory In.read In.end load
keeps_return = refl

-- The second carriage return, which was kept, is taken for a part of the next line.
joins_lines :
    read_line memory 5 after_return
    ≡ returns (
      13 ∷ 98 ∷ [],
      record returns_text {
        stream = record { bytes = 97 ∷ 13 ∷ 13 ∷ 98 ∷ []; count = 4; pos = 4 };
      },
    )
unfolding read_line line_loop take_char is_feed is_return memory In.read In.end load
joins_lines = refl

read_line-first_line_example :
    (r : LineReader MemoryIn) × (read_line memory 5 returns_text
      ≡ returns ([] ++ first_line (97 ∷ 13 ∷ 13 ∷ 98 ∷ []), r))
    × (memory_source 8).Ok r.stream
    × (r.next_str ++ (memory_source 8).rest r.stream ≡ behind (97 ∷ 13 ∷ 13 ∷ 98 ∷ []))
    × (length r.next_str ≤ 1)
read_line-first_line_example =
    read_line-first_line (memory_source 8) (λ st f. f) (omega arith) 5 returns_text (omega arith)
      (omega arith)
