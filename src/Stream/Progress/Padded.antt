-- ===== src/Stream/Progress/Padded.antt =====
-- The sized copy writes exactly as many bytes as it is to, with zeros where the source is too short.
use ckcore.Base.{
  ℕ, zero, suc, ◌+◌, ◌-◌, ◌^◌, ◌≤◌, ◌<◌, ◌≡◌, refl, sym, ap, ◌∙◌, not, ◌&&◌, inl, inr, true, false,
  Option, none, some, List, [], ◌++◌, append_assoc, returns, length, length-append, replicate,
  Bool-cases, List-cases, arith, ltb, sub64, ltb→le, ltb→lt,
}
use ckcore.Stream.{InStream, OutStream}
use ckcore.Stream.Contract.{Source, Sink, Delivers, Accepts, IsReliable, TakesAll}
use ckcore.Stream.Copy.{buffer_size}
use ckcore.Stream.Progress.{
  Progress, Progresser, cancelled, update, chunk_of, sized_loop, copy_sized,
}
use ckcore.Stream.Progress.Forget.{NeverCancels}
use ckcore.Stream.Progress.Filled.{
  filled, filled-append, filled-nil, filled-zero, length-filled, chunk-bounds,
}
use ckcore.Stream.Progress.Padding.{Pads, pad}

module _ {S T P : Type 0} {from : InStream S} {to : OutStream T} (interface : Progress P)
    (percent : ℕ → ℕ → ℕ) (src : Source from) (sink : Sink to) (all : TakesAll sink)
    (room : buffer_size ≤ sink.limit) where
  open src use {rest}
  open sink use {written}

  module _ (reliable : IsReliable src) (served : buffer_size ≤ src.limit)
      (never : NeverCancels interface) where
    abbrev Fills : ℕ → ℕ → S → T → Progresser P → Type 0
    Fills fuel size source target g =
        (source' : S) × (target' : T) × (g' : Progresser P) × (sized_loop from to interface percent
            fuel size source target g
          ≡ returns (true, source', target', g'))
        × (written target' ≡ written target ++ filled size (rest source))

    not_cancelled : (g : Progresser P) → (cancelled interface percent g).0 ≡ false
    unfolding cancelled
    not_cancelled g = never g.progress

    fill-end :
        (fuel size : ℕ) (source : S) (target : T) (g : Progresser P)
        → (not (from.end source) && ltb 0 size) ≡ false
        → filled size (rest source) ≡ replicate size 0
        → Pads interface percent src sink all room (suc fuel) size target g
        → Fills (suc fuel) size source target g
    unfolding sized_loop
    fill-end fuel size source target g over same (target', g', run, done) = (
      source,
      target',
      g',
      rw (over, sized_loop, run) refl,
      done ∙ ap (λ l. written target ++ l) (sym same),
    )

    fill-write :
        (fuel size chunk : ℕ) (source source' : S) (target : T) (g : Progresser P) (bytes : List ℕ)
        → (not (from.end source) && ltb 0 size) ≡ true
        → chunk_of size ≡ chunk
        → from.read source chunk ≡ returns (some bytes, source')
        → rest source ≡ bytes ++ rest source'
        → length bytes ≤ size
        → size < 2 ^ 64
        → ((t : T) (g' : Progresser P) → sink.Ok t → Fills fuel (size - length bytes) source' t g')
        → (r : Option ℕ) × (t : T) × (to.write target bytes ≡ returns (r, t))
          × sink.Ok t
          × Accepts (sink.Failing t) bytes (written target) r (written t)
        → Fills (suc fuel) size source target g
    unfolding sized_loop
    fill-write fuel size chunk source source' target g bytes more is read split few w rec
          (none, t, e, ok, (same, failing)) =
        absurd (all t failing)
    fill-write fuel size chunk source source' target g bytes more is read split few w rec
          (some n, t, e, ok, (count, now)) =
        let left : sub64 size n ≡ size - length bytes = omega arith in
        let later = (cancelled interface percent g).1 in
        let (s', t', g', run, done) = rec t (update interface percent later n) ok in
        (
          s',
          t',
          g',
          rw (more, sized_loop, not_cancelled g, is, read, e, left) run,
          done
              ∙ ap (λ l. l ++ filled (size - length bytes) (rest source')) now
              ∙ append_assoc (written target) bytes (filled (size - length bytes) (rest source'))
              ∙ ap (λ l. written target ++ l)
                  (sym (filled-append bytes (rest source') size few)
                    ∙ ap (filled size) (sym split)),
        )

    fill-read :
        (fuel size chunk : ℕ) (source : S) (target : T) (g : Progresser P)
        → (not (from.end source) && ltb 0 size) ≡ true
        → chunk_of size ≡ chunk
        → (chunk ≤ size) × (chunk ≤ buffer_size)
        → 0 < length (rest source)
        → length (rest source) + size < suc fuel
        → size < 2 ^ 64
        → sink.Ok target
        → ((s : S) (t : T) (g' : Progresser P) (left : ℕ)
            → src.Ok s
            → sink.Ok t
            → length (rest s) + left < fuel
            → left < 2 ^ 64
            → Fills fuel left s t g')
        → (r : Option (List ℕ)) × (s : S) × (from.read source chunk ≡ returns (r, s))
          × src.Ok s
          × Delivers (src.Failing s) chunk (rest source) r (rest s)
        → Fills (suc fuel) size source target g
    fill-read fuel size chunk source target g more is (few, fits) some_left f w ok rec
          (none, s, e, ok', (same, failing)) =
        absurd (reliable s failing)
    fill-read fuel size chunk source target g more is (few, fits) some_left f w ok rec
          (some bytes, s, e, ok', (split, short, progress)) =
        let some_bytes : 0 < length bytes = progress some_left in
        let len : length (rest source) ≡ length bytes + length (rest s) =
          ap length split ∙ length-append bytes (rest s) in
        fill-write fuel size chunk source s target g bytes more is e split (omega arith) w
          (λ t g' ok''. rec s t g' (size - length bytes) ok' ok'' (omega arith) (omega arith))
          (sink.write_lem target bytes ok (omega arith))

    fill :
        (fuel size : ℕ) (source : S) (target : T) (g : Progresser P)
        → length (rest source) + size < fuel
        → size < 2 ^ 64
        → src.Ok source
        → sink.Ok target
        → Fills fuel size source target g
    fill zero size source target g f w ok ok' = absurd (omega arith)
    fill (suc fuel) size source target g f w ok ok' =
        let padded =
          pad interface percent src sink all room (suc fuel) size target g (omega arith) w ok' in
        elim (Bool-cases (from.end source)) [
          | inl e ↦
              let none_left : rest source ≡ [] = (src.end_lem source ok).0 e in
              fill-end fuel size source target g (rw e refl) (rw none_left (filled-nil size)) padded
          | inr e ↦ elim (Bool-cases (ltb 0 size)) [
            | inl some_size ↦
                let (few, some_chunk, fits) = chunk-bounds size (ltb→lt 0 size some_size) in
                let chunk = chunk_of size in
                elim (List-cases (rest source)) [
                  | inl none_left ↦ absurd (cc ((src.end_lem source ok).1 none_left))
                  | inr some_left ↦
                      fill-read fuel size chunk source target g (rw (e, some_size) refl) refl
                        (few, fits) some_left f w ok'
                        (λ s t g' left o o' f' w'. fill fuel left s t g' f' w' o o')
                        (src.read_lem source chunk ok some_chunk (omega arith))
                ]
            | inr no_size ↦
                let zero : size ≡ 0 = omega (arith, ltb→le 0 size no_size) in
                fill-end fuel size source target g (rw (e, no_size) refl)
                  (rw zero (filled-zero (rest source))) padded
          ]
        ]

    -- Over a source whose reads do not fail and a sink each of whose writes takes all of its bytes
    -- (stream.hh also allows short writes, which are excluded), which both serve calls of the buffer's
    -- size, with an interface that never asks to cancel and a buffer that is allocated: the
    -- sized copy returns true, within a round for each byte of the source and of the size and one more,
    -- and has written exactly `size` bytes, the first of the source, and zeros where it has fewer.
    pub copy_sized-filled :
        (fuel size : ℕ) (source : S) (target : T) (g : Progresser P)
        → length (rest source) + size < fuel
        → size < 2 ^ 64
        → src.Ok source
        → sink.Ok target
        → (source' : S) × (target' : T) × (g' : Progresser P) × (copy_sized from to interface
              percent fuel true size source target g
            ≡ returns (true, source', target', g'))
          × (written target' ≡ written target ++ filled size (rest source))
          × (length (filled size (rest source)) ≡ size)
    unfolding copy_sized
    copy_sized-filled fuel size source target g f w ok ok' =
        let (source', target', g', run, done) = fill fuel size source target g f w ok ok' in
        (source', target', g', run, done, length-filled size (rest source))
