-- ===== src/Stream/Copy.antt =====
-- `stream::copy` of src/stream.cc, in its form without progress.
pub mod Exact
pub mod Tests
use ckcore.Base.{
  ℕ, zero, suc, Bool, true, false, Option, none, some, Outcome, returns, stuck, ◌>>=◌,
  if◌then◌else◌,
}
use ckcore.Stream.{InStream, OutStream}

abbrev pub buffer_size : ℕ
buffer_size = 8192

module _ {S T : Type 0} (from : InStream S) (to : OutStream T) where
  -- The loop: what it returns, with the streams as it leaves them.
  unfoldable pub copy_loop : ℕ → S → T → Outcome (Bool × S × T)
  copy_loop zero source target = stuck
  copy_loop (suc fuel) source target = elim (from.end source) [
    | true ↦ returns (true, source, target)
    | false ↦ do
      (res, source') ← from.read source buffer_size
      elim res [
        | none ↦ returns (false, source', target)
        | some bytes ↦ do
          (written, target') ← to.write target bytes
          elim written [
            | none ↦ returns (false, source', target')
            | some _ ↦ copy_loop fuel source' target'
          ]
      ]
  ]

  -- `allocated` is whether the allocation of the buffer gave memory.
  unfoldable pub copy : ℕ → Bool → S → T → Outcome (Bool × S × T)
  copy fuel allocated source target =
      if allocated then copy_loop fuel source target else returns (false, source, target)
