-- ===== src/Stream/Canex.antt =====
-- The checked streams of src/canexstream.cc, which throw where the streams below return -1.
pub mod Agreement
mod Tests
use ckcore.Base.{
  ℕ, zero, suc, Bool, true, false, not, ◌&&◌, Option, none, some, List, Outcome, returns, stuck,
  ◌>>=◌, ltb, ◌==◌, if◌then◌else◌, length, replicate, sub64,
}
use ckcore.Stream.{InStream, OutStream, Whence}
use ckcore.Stream.Progress.{Progress, Progresser, cancelled, update, chunk_of}
use ckcore.Stream.Copy.{buffer_size}

-- What a call comes to that may throw.
pub data Checked (A : Type 0) : Type 0 where
  fine : A → Checked A
  thrown : Checked A

abbrev pub or_thrown : Option (List ℕ) → Checked (List ℕ)
or_thrown none = thrown
or_thrown (some bytes) = fine bytes

module _ {S : Type 0} (stream : InStream S) where
  -- `CanexInStream`; true says that nothing was thrown.
  unfoldable pub seek : S → ℕ → Whence → Outcome (Bool × S)
  seek s distance whence = stream.seek s distance whence

  unfoldable pub read : S → ℕ → Outcome (Checked (List ℕ) × S)
  read s count = do (res, s') ← stream.read s count; returns (or_thrown res, s')

  unfoldable pub end : S → Bool
  end s = stream.end s

module _ {T : Type 0} (stream : OutStream T) where
  -- `CanexOutStream::write`, which wants every byte to be written.
  unfoldable pub write : T → List ℕ → Outcome (Bool × T)
  write t bytes = do
    (res, t') ← stream.write t bytes
    returns (elim res [ none ↦ false | some n ↦ n == length bytes ], t')

module _ {S T P : Type 0} (from : InStream S) (to : OutStream T) (interface : Progress P)
    (percent : ℕ → ℕ → ℕ) where
  -- `canexstream::copy`: false stands for an exception. A copy that is cancelled just returns.
  unfoldable pub copy : ℕ → S → T → Progresser P → Outcome (Bool × S × T × Progresser P)
  copy zero source target g = stuck
  copy (suc fuel) source target g = elim (end from source) [
    | true ↦ returns (true, source, target, g)
    | false ↦ elim ((cancelled interface percent g).0) [
      | true ↦ returns (true, source, target, (cancelled interface percent g).1)
      | false ↦ do
        (res, source') ← read from source buffer_size
        elim res [
          | thrown ↦ returns (false, source', target, (cancelled interface percent g).1)
          | fine bytes ↦ do
            (written, target') ← write to target bytes
            elim written [
              | false ↦ returns (false, source', target', (cancelled interface percent g).1)
              | true ↦
                  copy fuel source' target'
                    (update interface percent (cancelled interface percent g).1 (length bytes))
            ]
        ]
    ]
  ]

  -- The padding, where each round reports `res`, the size of the last read.
  unfoldable pub pad : ℕ → ℕ → ℕ → T → Progresser P → Outcome (Bool × T × Progresser P)
  pad zero res size target g = stuck
  pad (suc fuel) res size target g = elim (ltb 0 size) [
    | false ↦ returns (true, target, g)
    | true ↦ do
      (written, target') ← write to target (replicate (chunk_of size) 0)
      elim written [
        | false ↦ returns (false, target', g)
        | true ↦ pad fuel res (sub64 size (chunk_of size)) target' (update interface percent g res)
      ]
  ]

  -- The sized copy, with the last `res`, which is 0 at first.
  unfoldable pub sized : ℕ → ℕ → ℕ → S → T → Progresser P → Outcome (Bool × S × T × Progresser P)
  sized zero res size source target g = stuck
  sized (suc fuel) res size source target g = elim (not (end from source) && ltb 0 size) [
    | false ↦ do
      (done, target', g') ← pad (suc fuel) res size target g
      returns (done, source, target', g')
    | true ↦ elim ((cancelled interface percent g).0) [
      | true ↦ returns (true, source, target, (cancelled interface percent g).1)
      | false ↦ do
        (got, source') ← read from source (chunk_of size)
        elim got [
          | thrown ↦ returns (false, source', target, (cancelled interface percent g).1)
          | fine bytes ↦ do
            (written, target') ← write to target bytes
            elim written [
              | false ↦ returns (false, source', target', (cancelled interface percent g).1)
              | true ↦
                  sized fuel (length bytes) (sub64 size (length bytes)) source' target'
                    (update interface percent (cancelled interface percent g).1 (length bytes))
            ]
        ]
    ]
  ]
