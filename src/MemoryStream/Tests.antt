-- ===== src/MemoryStream/Tests.antt =====
-- Runs of the streams in memory, and their theorems at concrete inputs.
use ckcore.Base.{
  ℕ, ◌+◌, ◌*◌, ◌^◌, ◌≤◌, ◌<◌, ◌≡◌, refl, ◌⊎◌, ◌↔◌, Bool, true, some, [], ◌∷◌, returns, fault, load,
  store, arith,
}
use ckcore.Stream.{current, begin}
use ckcore.MemoryStream.In.{MemoryIn, end, seek, read}
use ckcore.MemoryStream.In.Read.{
  IsValid, rest, read-rest, read-fault_iff, end-rest, seek_lem, seek_past_end-read,
}
use ckcore.MemoryStream.Out.{MemoryOut, grow, write, write_into, allocate}
use ckcore.MemoryStream.Out.Write
use ckcore.MemoryStream.Out.Write.{contents, write-contents}

abbrev five : MemoryIn
five = record { bytes = 10 ∷ 11 ∷ 12 ∷ 13 ∷ 14 ∷ []; count = 5; pos = 2 }

five-IsValid : IsValid five
five-IsValid = omega arith

read_short : read five 9 ≡ returns (some (12 ∷ 13 ∷ 14 ∷ []), record five { pos = 5 })
unfolding read load
read_short = refl

read_wraps : read five 0xffff_ffff ≡ fault
unfolding read load
read_wraps = refl

reads_two :
    (m : MemoryIn) × (read five 2 ≡ returns (some (12 ∷ 13 ∷ []), m))
    × IsValid m
    × (rest m ≡ 14 ∷ [])
    × (m.count ≡ 5)
reads_two = read-rest five 2 five-IsValid (omega arith)

read-fault_iff_example : (read five 0xffff_ffff ≡ fault) ↔ (5 < 2) ⊎ (2 ^ 32 ≤ 2 + 0xffff_ffff)
read-fault_iff_example =
    read-fault_iff five 0xffff_ffff refl (omega arith) (omega arith) (omega arith)

end_of_five : (end five ≡ true) ↔ (rest five ≡ [])
end_of_five = end-rest five five-IsValid

seeks_in_five :
    (1 ≤ 5
      → (m : MemoryIn) × (seek five 1 begin ≡ returns (true, m))
        × IsValid m
        × (rest m ≡ 11 ∷ 12 ∷ 13 ∷ 14 ∷ []))
    × (2 + 1 ≤ 5
        → (m : MemoryIn) × (seek five 1 current ≡ returns (true, m))
          × IsValid m
          × (rest m ≡ 13 ∷ 14 ∷ []))
seeks_in_five = seek_lem five 1 five-IsValid

seek_past_end-read_run :
    (m : MemoryIn) × (seek five 4 current ≡ returns (true, m)) × (read m 1 ≡ fault)
seek_past_end-read_run =
    seek_past_end-read five 4 1 five-IsValid (omega arith) (omega arith) (omega arith)

abbrev always : ℕ → Bool
always n = true

abbrev two : MemoryOut
two = record { buffer = some (7 ∷ 0 ∷ []); buffer_size = 2; buffer_pos = 1 }

two-IsValid : Write.IsValid two
two-IsValid = record {
  array = 7 ∷ 0 ∷ [];
  allocated = refl;
  storage = refl;
  some_size = omega arith;
  word = omega arith;
  within = omega arith;
}

write_grows :
    write always two (8 ∷ 9 ∷ [])
    ≡ returns
        (some 2, record { buffer = some (7 ∷ 8 ∷ 9 ∷ 0 ∷ []); buffer_size = 4; buffer_pos = 3 })
unfolding write write_into grow allocate load store
write_grows = refl

write-contents_example :
    (m : MemoryOut) × (write always two (8 ∷ 9 ∷ []) ≡ returns (some 2, m))
    × Write.IsValid m
    × (contents m ≡ 7 ∷ 8 ∷ 9 ∷ [])
    × ((m.buffer_size ≡ 2) ⊎ (m.buffer_size < 2 * (1 + 2)))
write-contents_example =
    write-contents always two (8 ∷ 9 ∷ []) (λ n. refl) two-IsValid (omega arith)
