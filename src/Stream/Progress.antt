-- ===== src/Stream/Progress.antt =====
-- The copies of src/stream.cc that report progress, with include/ckcore/progress.hh and
-- src/progresser.cc.
pub mod Forget
mod Filled
mod Padding
pub mod Padded
mod Tests
use ckcore.Base.{
  ℕ, zero, suc, ◌*◌, ◌/◌, ◌%◌, ◌^◌, Bool, true, false, not, ◌&&◌, Option, none, some, List, Outcome,
  returns, fault, stuck, ◌>>=◌, ltb, leb, ◌==◌, if◌then◌else◌, length, replicate, add64, sub64,
}
use ckcore.Stream.{InStream, OutStream}
use ckcore.Stream.Copy.{buffer_size}

-- `class Progress`.
pub record Progress (P : Type 0) : Type 0 where
  pub set_progress : P → ℕ → P
  pub set_marquee : P → Bool → P
  pub cancelled : P → Bool × P

-- `class Progresser`: `progress` is the state of the interface that it refers to.
pub record Progresser (P : Type 0) : Type 0 where
  pub progress : P
  pub total : ℕ
  pub count : ℕ

unfoldable pub create : {P : Type 0} → P → ℕ → Progresser P
create p total = record { progress = p; total = total; count = 0 }

-- `percent` is the floating-point computation of the percentage of a count in a total.
module _ {P : Type 0} (interface : Progress P) (percent : ℕ → ℕ → ℕ) where
  unfoldable pub update : Progresser P → ℕ → Progresser P
  update g n =
      let now = add64 g.count n in
      record g { count = now; progress = interface.set_progress g.progress (percent now g.total) }

  unfoldable pub cancelled : Progresser P → Bool × Progresser P
  cancelled g = let r = interface.cancelled g.progress in (r.0, record g { progress = r.1 })

-- The share of `written` in `total`, as `unsigned char`. A division by 0 and a product that `tint64`
-- does not hold are undefined.
unfoldable pub share : ℕ → ℕ → Outcome ℕ
share written total =
    if (total == 0)
    then fault
    else (if leb (2 ^ 63) (written * 100) then fault else returns (((written * 100) / total) % 256))

-- How much of `size` one round takes.
abbrev pub chunk_of : ℕ → ℕ
chunk_of size = if ltb size buffer_size then size else buffer_size

module _ {S T P : Type 0} (from : InStream S) (to : OutStream T) (interface : Progress P) where
  unfoldable pub report : Option ℕ → ℕ → P → Outcome P
  report none written p = returns p
  report (some total) written p = do
    percent ← share written total
    returns (interface.set_progress p percent)

  -- The loop of the copy with a `Progress`, and what follows it.
  unfoldable pub progress_loop : ℕ → Option ℕ → ℕ → S → T → P → Outcome (Bool × S × T × P)
  progress_loop zero total written source target p = stuck
  progress_loop (suc fuel) total written source target p = elim (from.end source) [
    | true ↦
        returns
          (true, source, target, elim total [ none ↦ p | some _ ↦ interface.set_progress p 100 ])
    | false ↦ elim ((interface.cancelled p).0) [
      | true ↦ returns (false, source, target, (interface.cancelled p).1)
      | false ↦ do
        (res, source') ← from.read source buffer_size
        elim res [
          | none ↦ returns (false, source', target, (interface.cancelled p).1)
          | some bytes ↦ do
            (result, target') ← to.write target bytes
            elim result [
              | none ↦ returns (false, source', target', (interface.cancelled p).1)
              | some n ↦ do
                p' ← report total (add64 written n) (interface.cancelled p).1
                progress_loop fuel total (add64 written n) source' target' p'
            ]
        ]
    ]
  ]

  unfoldable pub copy_progress : ℕ → Bool → S → T → P → Outcome (Bool × S × T × P)
  copy_progress fuel allocated source target p =
      if not allocated
      then returns (false, source, target, p)
      else (let total = from.size source in
          let unknown : Bool = elim total [ none ↦ true | some _ ↦ false ] in
          progress_loop fuel total 0 source target (interface.set_marquee p unknown))

  module _ (percent : ℕ → ℕ → ℕ) where
    -- The loop of the copy with a `Progresser`.
    unfoldable pub progresser_loop :
        ℕ → S → T → Progresser P → Outcome (Bool × S × T × Progresser P)
    progresser_loop zero source target g = stuck
    progresser_loop (suc fuel) source target g = elim (from.end source) [
      | true ↦ returns (true, source, target, g)
      | false ↦ elim ((cancelled interface percent g).0) [
        | true ↦ returns (false, source, target, (cancelled interface percent g).1)
        | false ↦ do
          (res, source') ← from.read source buffer_size
          elim res [
            | none ↦ returns (false, source', target, (cancelled interface percent g).1)
            | some bytes ↦ do
              (result, target') ← to.write target bytes
              elim result [
                | none ↦ returns (false, source', target', (cancelled interface percent g).1)
                | some n ↦
                    progresser_loop fuel source' target'
                      (update interface percent (cancelled interface percent g).1 n)
              ]
          ]
      ]
    ]

    unfoldable pub copy_progresser :
        ℕ → Bool → S → T → Progresser P → Outcome (Bool × S × T × Progresser P)
    copy_progresser fuel allocated source target g =
        if allocated
        then progresser_loop fuel source target g
        else returns (false, source, target, g)

    -- The padding of the sized copy.
    unfoldable pub pad_loop : ℕ → ℕ → T → Progresser P → Outcome (Bool × T × Progresser P)
    pad_loop zero size target g = stuck
    pad_loop (suc fuel) size target g = elim (ltb 0 size) [
      | false ↦ returns (true, target, g)
      | true ↦ do
        (result, target') ← to.write target (replicate (chunk_of size) 0)
        elim result [
          | none ↦ returns (false, target', g)
          | some n ↦ pad_loop fuel (sub64 size n) target' (update interface percent g n)
        ]
    ]

    -- The sized copy, from its first loop on.
    unfoldable pub sized_loop : ℕ → ℕ → S → T → Progresser P → Outcome (Bool × S × T × Progresser P)
    sized_loop zero size source target g = stuck
    sized_loop (suc fuel) size source target g = elim (not (from.end source) && ltb 0 size) [
      | false ↦ do
        (done, target', g') ← pad_loop (suc fuel) size target g
        returns (done, source, target', g')
      | true ↦ elim ((cancelled interface percent g).0) [
        | true ↦ returns (false, source, target, (cancelled interface percent g).1)
        | false ↦ do
          (res, source') ← from.read source (chunk_of size)
          elim res [
            | none ↦ returns (false, source', target, (cancelled interface percent g).1)
            | some bytes ↦ do
              (result, target') ← to.write target bytes
              elim result [
                | none ↦ returns (false, source', target', (cancelled interface percent g).1)
                | some n ↦
                    sized_loop fuel (sub64 size n) source' target'
                      (update interface percent (cancelled interface percent g).1 n)
              ]
          ]
      ]
    ]

    unfoldable pub copy_sized :
        ℕ → Bool → ℕ → S → T → Progresser P → Outcome (Bool × S × T × Progresser P)
    copy_sized fuel allocated size source target g =
        if allocated
        then sized_loop fuel size source target g
        else returns (false, source, target, g)
