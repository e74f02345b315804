-- ===== src/Crc/Tests.antt =====
-- The known checksums of "123456789".
use ckcore.Base.{
  ℕ, ◌+◌, ◌^◌, ◌<◌, ◌≡◌, refl, true, some, List, [], ◌∷◌, ◌++◌, returns, ◌>>=◌, length, arith,
}
use ckcore.Crc.{
  CrcType, CrcStream, crc_16, crc_32, crc_ccitt, create, build, fill_table, entry, divide, reflect,
  reflect_loop, table_at, next_checksum, write_bytes, write, checksum, crc_stream,
}
use ckcore.Crc.Bounds.{write-returns}
use ckcore.Crc.Division.{at_checksum, divided_all, write-divided}
use ckcore.Crc.Copied.{copy-divided}
use ckcore.Stream.Copy.{copy}
use ckcore.Stream.Copy.Tests.{three}
use ckcore.MemoryStream.In.{MemoryIn, memory}
use ckcore.MemoryStream.In.Contract.{memory_source}
use ckcore.Crc.Incremental.{recount, write-append_twice}

abbrev digits : List ℕ
digits = 49 ∷ 50 ∷ 51 ∷ 52 ∷ 53 ∷ 54 ∷ 55 ∷ 56 ∷ 57 ∷ []

crc_32_of_digits :
    (write_bytes (create crc_32) digits >>= λ s. returns (checksum s)) ≡ returns 0xcbf4_3926
unfolding create build fill_table entry divide reflect reflect_loop table_at next_checksum
    write_bytes checksum
crc_32_of_digits = refl

crc_ccitt_of_digits :
    (write_bytes (create crc_ccitt) digits >>= λ s. returns (checksum s)) ≡ returns 0x31c3
unfolding create build fill_table entry divide reflect reflect_loop table_at next_checksum
    write_bytes checksum
crc_ccitt_of_digits = refl

write-append_twice_run :
    write (create crc_16) ((1 ∷ 2 ∷ []) ++ (3 ∷ []))
    ≡ (write (create crc_16) (1 ∷ 2 ∷ []) >>= λ r. recount (2 + 1) (write r.1 (3 ∷ [])))
write-append_twice_run = write-append_twice (create crc_16) (1 ∷ 2 ∷ []) (3 ∷ [])

abbrev plain : CrcStream
plain = record {
  is_reflected = true;
  order = 32;
  mask = 0xffff_ffff;
  initial = 0;
  final = 0;
  checksum = 0;
  table = fill_table 256 0 (λ i. i);
}

plain-length : length plain.table ≡ 256
unfolding fill_table
plain-length = refl

write-returns_run :
    (s : CrcStream) × (write plain (1 ∷ 255 ∷ []) ≡ returns (some 2, s))
    × (s.table ≡ plain.table)
    × ((t : CrcType) → length (create t).table ≡ 256)
write-returns_run = write-returns plain (1 ∷ 255 ∷ []) plain-length refl

width_32 : 0xffff_ffff < 2 ^ (create crc_32).order
unfolding create build
width_32 = omega arith

write-divided_example :
    write (at_checksum crc_32 0xffff_ffff) digits ≡ returns (some 9, at_checksum crc_32 0x340b_c6d9)
write-divided_example = write-divided crc_32 0xffff_ffff digits width_32 refl

copy-divided_example :
    (s : MemoryIn) × (copy memory crc_stream 4 true three (at_checksum crc_32 0xffff_ffff)
      ≡ returns (true, s, at_checksum crc_32 (divided_all crc_32 0xffff_ffff (1 ∷ 2 ∷ 3 ∷ []))))
    × ((memory_source 8192).rest s ≡ [])
copy-divided_example =
    copy-divided (memory_source 8192) (λ st f. f) (omega arith) crc_32 4 three 0xffff_ffff
      (omega arith) (omega arith) refl width_32
