-- ===== src/Stream/Progress/Padding.antt =====
-- The padding of the sized `stream::copy` of src/stream.cc writes as many zeros as it is to.
use ckcore.Base.{
  ℕ, zero, suc, ◌+◌, ◌-◌, ◌^◌, ◌≤◌, ◌<◌, ◌≡◌, refl, sym, ap, ◌∙◌, inl, inr, true, Option, none,
  some, ◌++◌, append-nil, append_assoc, returns, length-replicate, replicate, Bool-cases, arith,
  ltb, sub64, ltb→le, ltb→lt,
}
use ckcore.Stream.{InStream, OutStream}
use ckcore.Stream.Contract.{Source, Sink, Accepts, TakesAll}
use ckcore.Stream.Copy.{buffer_size}
use ckcore.Stream.Progress.{Progress, Progresser, update, chunk_of, pad_loop}
use ckcore.Stream.Progress.Filled.{replicate-add, chunk-bounds}

module _ {S T P : Type 0} {from : InStream S} {to : OutStream T} (interface : Progress P)
    (percent : ℕ → ℕ → ℕ) (src : Source from) (sink : Sink to) (all : TakesAll sink)
    (room : buffer_size ≤ sink.limit) where
  open src use {rest}
  open sink use {written}

  abbrev pub Pads : ℕ → ℕ → T → Progresser P → Type 0
  Pads fuel size target g =
      (target' : T) × (g' : Progresser P) × (pad_loop from to interface percent fuel size target g
        ≡ returns (true, target', g'))
      × (written target' ≡ written target ++ replicate size 0)

  pad-round :
      (fuel size chunk : ℕ) (target : T) (g : Progresser P)
      → ltb 0 size ≡ true
      → chunk_of size ≡ chunk
      → chunk ≤ size
      → size < 2 ^ 64
      → ((t : T) (g' : Progresser P) → sink.Ok t → Pads fuel (size - chunk) t g')
      → (r : Option ℕ) × (t : T) × (to.write target (replicate chunk 0) ≡ returns (r, t))
        × sink.Ok t
        × Accepts (sink.Failing t) (replicate chunk 0) (written target) r (written t)
      → Pads (suc fuel) size target g
  unfolding pad_loop
  pad-round fuel size chunk target g some_left is few w rec (none, t, e, ok, (same, failing)) =
      absurd (all t failing)
  pad-round fuel size chunk target g some_left is few w rec (some n, t, e, ok, (count, now)) =
      let m : n ≡ chunk = count ∙ length-replicate chunk 0 in
      let left : sub64 size chunk ≡ size - chunk = omega arith in
      let (t', g', run, done) = rec t (update interface percent g n) ok in
      let sum : chunk + (size - chunk) ≡ size = omega arith in
      (
        t',
        g',
        rw (some_left, pad_loop, is, e) (rw (sym left, sym m) at run),
        done
            ∙ ap (λ l. l ++ replicate (size - chunk) 0) now
            ∙ append_assoc (written target) (replicate chunk 0) (replicate (size - chunk) 0)
            ∙ ap (λ l. written target ++ l)
                (replicate-add chunk (size - chunk) ∙ ap (λ k. replicate k 0) sum),
      )

  pub pad :
      (fuel size : ℕ) (target : T) (g : Progresser P)
      → size < fuel
      → size < 2 ^ 64
      → sink.Ok target
      → Pads fuel size target g
  unfolding pad_loop
  pad zero size target g f w ok = absurd (omega arith)
  pad (suc fuel) size target g f w ok = elim (Bool-cases (ltb 0 size)) [
    | inl e ↦
        let (few, some_chunk, fits) = chunk-bounds size (ltb→lt 0 size e) in
        let chunk = chunk_of size in
        pad-round fuel size chunk target g e refl few w
          (λ t g' ok'. pad fuel (size - chunk) t g' (omega arith) (omega arith) ok')
          (sink.write_lem target (replicate chunk 0) ok
            (omega (arith, length-replicate {A = ℕ} chunk 0)))
    | inr e ↦
        let none_left : size ≡ 0 = omega (arith, ltb→le 0 size e) in
        (target, g, rw (e, pad_loop) refl, rw none_left (sym (append-nil (written target))))
  ]
