-- ===== src/BufferedStream/Tests/Out.antt =====
-- A `BufferedOutStream` with a buffer of 4 bytes, over a stream that takes all and one that fails.
use ckcore.Base.{
  ℕ, ◌^◌, ◌≡◌, refl, Option, none, some, List, [], ◌∷◌, ◌++◌, returns, fault, load, store, length,
  replicate, length-replicate, arith,
}
use ckcore.Stream.{OutStream}
use ckcore.Stream.Contract.{Sink}
use ckcore.BufferedStream.Out.{BufferedOut, write_loop, write, flush, destroy}
use ckcore.BufferedStream.Out.Pending.{accepted, IsValid, Wrote}
use ckcore.BufferedStream.Out.Write.{write-Wrote}
use ckcore.BufferedStream.Out.Flush.{write-append, Flushed, flush-Flushed, destroy-written}
use ckcore.BufferedStream.Out.Failure.{write-overflow, write_loses_reported}

-- The bytes written are the state.
abbrev log : OutStream (List ℕ)
log = record { write = λ st bytes. returns (some (length bytes), st ++ bytes) }

abbrev log_sink : Sink log
log_sink = record {
  Ok = λ _. Unit {0};
  Failing = λ _. ⊥;
  written = λ st. st;
  limit = 2 ^ 32;
  write_lem = λ st bytes ok few. (some (length bytes), st ++ bytes, refl, tt, (refl, refl));
}

abbrev broken : OutStream (List ℕ)
broken = record { write = λ st bytes. returns (none, st) }

abbrev broken_sink : Sink broken
broken_sink = record {
  Ok = λ _. Unit {0};
  Failing = λ _. Unit {0};
  written = λ st. st;
  limit = 2 ^ 32;
  write_lem = λ st bytes ok few. (none, st, refl, tt, (refl, tt));
}

-- 5 was written below, and 6 and 7 are buffered.
abbrev halfway : BufferedOut (List ℕ)
halfway = record { stream = 5 ∷ []; buffer = 6 ∷ 7 ∷ 0 ∷ 0 ∷ []; buffer_size = 4; buffer_pos = 2 }

halfway-IsValid : IsValid log_sink halfway
halfway-IsValid = record {
  stream_ok = tt;
  allocated = omega arith;
  served = omega arith;
  word = omega arith;
  storage = refl;
  within = omega arith;
}

halfway-IsValid_broken : IsValid broken_sink halfway
halfway-IsValid_broken = record {
  stream_ok = tt;
  allocated = omega arith;
  served = omega arith;
  word = omega arith;
  storage = refl;
  within = omega arith;
}

writes_when_full :
    write log halfway (1 ∷ 2 ∷ 3 ∷ [])
    ≡ returns (
      some 3,
      record {
        stream = 5 ∷ 6 ∷ 7 ∷ 1 ∷ 2 ∷ [];
        buffer = 3 ∷ 7 ∷ 1 ∷ 2 ∷ [];
        buffer_size = 4;
        buffer_pos = 1;
      },
    )
unfolding write write_loop load store
writes_when_full = refl

write-Wrote_example :
    (r : Option ℕ) × (b : BufferedOut (List ℕ)) × (write broken halfway (1 ∷ 2 ∷ 3 ∷ [])
      ≡ returns (r, b))
    × Wrote broken_sink (5 ∷ 6 ∷ 7 ∷ []) (1 ∷ 2 ∷ 3 ∷ []) 0 r b
write-Wrote_example =
    write-Wrote broken_sink halfway (1 ∷ 2 ∷ 3 ∷ []) halfway-IsValid_broken (omega arith)

write-append_run :
    (b : BufferedOut (List ℕ)) × (write log halfway (1 ∷ 2 ∷ 3 ∷ []) ≡ returns (some 3, b))
    × IsValid log_sink b
    × (accepted log_sink b ≡ 5 ∷ 6 ∷ 7 ∷ 1 ∷ 2 ∷ 3 ∷ [])
write-append_run =
    write-append log_sink halfway (1 ∷ 2 ∷ 3 ∷ []) (λ st h. h) halfway-IsValid (omega arith)

flush-Flushed_example :
    (r : Option ℕ) × (b : BufferedOut (List ℕ)) × (flush log halfway ≡ returns (r, b))
    × IsValid log_sink b
    × Flushed log_sink halfway r b
flush-Flushed_example = flush-Flushed log_sink halfway halfway-IsValid

destroy-written_run : (st : List ℕ) × (destroy log halfway ≡ returns st) × (st ≡ 5 ∷ 6 ∷ 7 ∷ [])
destroy-written_run = destroy-written log_sink halfway (λ st h. h) halfway-IsValid

write_loses_reported_run :
    (b : BufferedOut (List ℕ)) × (write broken halfway (1 ∷ 2 ∷ 3 ∷ []) ≡ returns (some 2, b))
    × (accepted broken_sink b ≡ 5 ∷ 6 ∷ 7 ∷ [])
write_loses_reported_run =
    write_loses_reported broken_sink halfway (1 ∷ 2 ∷ 3 ∷ []) (5 ∷ []) halfway-IsValid_broken
      (omega arith) (omega arith) (omega arith) refl refl

zeros : ℕ → List ℕ
zeros n = replicate n 0

length-zeros : (n : ℕ) → length (zeros n) ≡ n
unfolding zeros
length-zeros n = length-replicate n 0

-- A write of 2^32 - 1 bytes.
write-overflow_run : write log halfway (zeros 0xffff_ffff) ≡ fault
write-overflow_run =
    write-overflow log_sink halfway (zeros 0xffff_ffff) halfway-IsValid
      (omega (arith, length-zeros 0xffff_ffff)) (omega (arith, length-zeros 0xffff_ffff))
