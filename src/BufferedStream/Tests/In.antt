-- ===== src/BufferedStream/Tests/In.antt =====
-- A `BufferedInStream` with a buffer of 2 bytes over an array of 5.
use ckcore.Base.{ℕ, ◌≡◌, refl, ◌↔◌, true, Option, List, [], ◌∷◌, returns, stuck, load, store, arith}
use ckcore.Stream.{current}
use ckcore.MemoryStream.In
use ckcore.MemoryStream.In.{MemoryIn, memory}
use ckcore.MemoryStream.In.Contract.{memory_source}
use ckcore.Stream.Contract.{Delivers}
use ckcore.BufferedStream.In.Contract.{buffered-Delivers}
use ckcore.BufferedStream.In.{
  BufferedIn, Result, got, buffered, refill, read_loop, read, end, seek_on_fuel, seek,
}
use ckcore.BufferedStream.In.Pending.{to_come, IsValid, Ended}
use ckcore.BufferedStream.In.Read.{read-Ended}
use ckcore.BufferedStream.In.Client.{read-take, end-to_come}
use ckcore.BufferedStream.In.Seek.{seek-drop, seek-stuck}

abbrev five : MemoryIn
five = record { bytes = 10 ∷ 11 ∷ 12 ∷ 13 ∷ 14 ∷ []; count = 5; pos = 2 }

-- Byte 11 is buffered, and 12, 13 and 14 are still in the array.
abbrev halfway : BufferedIn MemoryIn
halfway = record {
  stream = five;
  buffer = 10 ∷ 11 ∷ [];
  buffer_size = 2;
  buffer_pos = 1;
  buffer_data = 1;
}

halfway-IsValid : IsValid (memory_source 4096) halfway
halfway-IsValid = record {
  stream_ok = omega arith;
  allocated = omega arith;
  served = omega arith;
  word = omega arith;
  storage = refl;
  within = omega arith;
}

reads_across_refills :
    read memory halfway 3
    ≡ returns (
      got (11 ∷ 12 ∷ 13 ∷ []),
      record {
        stream = record five { pos = 4 };
        buffer = 12 ∷ 13 ∷ [];
        buffer_size = 2;
        buffer_pos = 2;
        buffer_data = 0;
      },
    )
unfolding read read_loop refill memory In.read In.end load store
reads_across_refills = refl

read-Ended_example :
    (r : Result) × (b : BufferedIn MemoryIn) × (read memory halfway 3 ≡ returns (r, b))
    × Ended (memory_source 4096) (11 ∷ 12 ∷ 13 ∷ 14 ∷ []) 3 r b
read-Ended_example = read-Ended (memory_source 4096) halfway 3 halfway-IsValid (omega arith)

read-take_run :
    (b : BufferedIn MemoryIn) × (read memory halfway 3 ≡ returns (got (11 ∷ 12 ∷ 13 ∷ []), b))
    × IsValid (memory_source 4096) b
    × (to_come (memory_source 4096) b ≡ 14 ∷ [])
read-take_run = read-take (memory_source 4096) halfway 3 (λ st h. h) halfway-IsValid (omega arith)

end_of_data : (end memory halfway ≡ true) ↔ (to_come (memory_source 4096) halfway ≡ [])
end_of_data = end-to_come (memory_source 4096) halfway halfway-IsValid

seek-drop_example :
    (b : BufferedIn MemoryIn) × (seek memory halfway 3 current ≡ returns (true, b))
    × IsValid (memory_source 4096) b
    × (to_come (memory_source 4096) b ≡ 14 ∷ [])
seek-drop_example =
    seek-drop (memory_source 4096) halfway 3 (λ st h. h) halfway-IsValid (omega arith) (omega arith)

seek-stuck_example : seek_on_fuel memory 1000 halfway 5 current ≡ stuck
seek-stuck_example =
    seek-stuck (memory_source 4096) 1000 halfway 5 (λ st h. h) halfway-IsValid (omega arith)
      (omega arith)

buffered-Delivers_example :
    (r : Option (List ℕ)) × (b : BufferedIn MemoryIn) × ((buffered memory).read halfway 3
      ≡ returns (r, b))
    × IsValid (memory_source 4096) b
    × Delivers ⊥ 3 (11 ∷ 12 ∷ 13 ∷ 14 ∷ []) r (to_come (memory_source 4096) b)
buffered-Delivers_example =
    buffered-Delivers (memory_source 4096) halfway 3 (λ st h. h) halfway-IsValid (omega arith)
      (omega arith)
