-- ===== src/Stream/Copy/Exact.antt =====
-- `stream::copy` passes on every byte once, in order.
use ckcore.Base.{
  ℕ, zero, suc, ◌≤◌, ◌<◌, ◌≡◌, sym, ap, ◌∙◌, ◌⊎◌, inl, inr, Bool, true, false, Option, none, some,
  List, [], ◌++◌, append-nil, append_assoc, returns, length, length-append, Bool-cases, List-cases,
  arith,
}
use ckcore.Stream.{InStream, OutStream}
use ckcore.Stream.Contract.{Source, Sink, Delivers, Accepts}
use ckcore.Stream.Copy.{buffer_size, copy_loop, copy}

module _ {S T : Type 0} {from : InStream S} {to : OutStream T} (src : Source from)
    (sink : Sink to) where
  open src use {rest}
  open sink use {written}

  -- What a copy has done when it returns: all that was `coming` follows what was `there`, or a stream
  -- has failed, a first part was passed on, and at most one chunk behind it was read and lost.
  abbrev pub Copied : List ℕ → List ℕ → Bool → S → T → Type 0
  Copied coming there true source target = (rest source ≡ []) × (written target ≡ there ++ coming)
  Copied coming there false source target =
      (src.Failing source ⊎ sink.Failing target)
      × (moved : List ℕ) × (lost : List ℕ) × (length lost ≤ buffer_size)
      × (coming ≡ moved ++ (lost ++ rest source))
      × (written target ≡ there ++ moved)

  abbrev Copies : ℕ → S → T → Type 0
  Copies fuel source target =
      (done : Bool) × (source' : S) × (target' : T) × (copy_loop from to fuel source target
        ≡ returns (done, source', target'))
      × Copied (rest source) (written target) done source' target'

  -- A chunk that was passed on goes before what the later rounds pass on.
  Copied-chunk :
      (chunk coming later there now : List ℕ) (done : Bool) (source : S) (target : T)
      → coming ≡ chunk ++ later
      → now ≡ there ++ chunk
      → Copied later now done source target
      → Copied coming there done source target
  Copied-chunk chunk coming later there now true source target e n (over, w) = (
    over,
    w ∙ ap (λ l. l ++ later) n ∙ append_assoc there chunk later ∙ ap (λ l. there ++ l) (sym e),
  )
  Copied-chunk chunk coming later there now false source target e n
        (bad, moved, lost, few, split, w) =
      (
        bad,
        chunk ++ moved,
        lost,
        few,
        e ∙ ap (λ l. chunk ++ l) split ∙ sym (append_assoc chunk moved (lost ++ rest source)),
        w ∙ ap (λ l. l ++ moved) n ∙ append_assoc there chunk moved,
      )

  module _ (fuel : ℕ) (source : S) (target : T) (more : from.end source ≡ false) where
    copy-write :
        (chunk : List ℕ) (source' : S)
        → from.read source buffer_size ≡ returns (some chunk, source')
        → rest source ≡ chunk ++ rest source'
        → length chunk ≤ buffer_size
        → ((target' : T) → sink.Ok target' → Copies fuel source' target')
        → (r : Option ℕ) × (target' : T) × (to.write target chunk ≡ returns (r, target'))
          × sink.Ok target'
          × Accepts (sink.Failing target') chunk (written target) r (written target')
        → Copies (suc fuel) source target
    unfolding copy_loop
    copy-write chunk source' e split few rec (none, target', w, ok, (same, failing)) = (
      false,
      source',
      target',
      rw (more, copy_loop, e, w),
      (inr failing, [], chunk, few, split, same ∙ sym (append-nil (written target))),
    )
    copy-write chunk source' e split few rec (some n, target', w, ok, (all, now)) =
        let (done, source'', target'', run, copied) = rec target' ok in
        (
          done,
          source'',
          target'',
          rw (more, copy_loop, e, w) run,
          Copied-chunk chunk (rest source) (rest source') (written target) (written target') done
              source'' target'' split now copied,
        )

    copy-read :
        sink.Ok target
        → buffer_size ≤ sink.limit
        → length (rest source) < suc fuel
        → 0 < length (rest source)
        → ((source' : S) (target' : T)
            → src.Ok source'
            → sink.Ok target'
            → length (rest source') < fuel
            → Copies fuel source' target')
        → (r : Option (List ℕ)) × (source' : S) × (from.read source buffer_size
            ≡ returns (r, source'))
          × src.Ok source'
          × Delivers (src.Failing source') buffer_size (rest source) r (rest source')
        → Copies (suc fuel) source target
    unfolding copy_loop
    copy-read ok room f some_left rec (none, source', e, ok', (same, failing)) = (
      false,
      source',
      target,
      rw (more, copy_loop, e),
      (inl failing, [], [], omega arith, same, sym (append-nil (written target))),
    )
    copy-read ok room f some_left rec (some chunk, source', e, ok', (split, few, progress)) =
        let some_chunk : 0 < length chunk = progress some_left in
        let shorter : length (rest source') < fuel =
          omega (arith, ap length split, length-append chunk (rest source')) in
        copy-write chunk source' e split few (λ target' ok''. rec source' target' ok' ok'' shorter)
          (sink.write_lem target chunk ok (omega arith))

  loop-Copies :
      (fuel : ℕ) (source : S) (target : T)
      → buffer_size ≤ src.limit
      → buffer_size ≤ sink.limit
      → src.Ok source
      → sink.Ok target
      → length (rest source) < fuel
      → Copies fuel source target
  unfolding copy_loop
  loop-Copies zero source target l l' ok ok' f = absurd (omega arith)
  loop-Copies (suc fuel) source target l l' ok ok' f = elim (Bool-cases (from.end source)) [
    | inl over ↦
        let none_left : rest source ≡ [] = (src.end_lem source ok).0 over in
        (
          true,
          source,
          target,
          rw (over, copy_loop),
          (
            none_left,
            sym (append-nil (written target)) ∙ ap (λ l. written target ++ l) (sym none_left),
          ),
        )
    | inr more ↦ elim (List-cases (rest source)) [
      | inl none_left ↦ absurd (cc ((src.end_lem source ok).1 none_left))
      | inr some_left ↦
          copy-read fuel source target more ok' l' f some_left
            (λ source' target' o o' f'. loop-Copies fuel source' target' l l' o o' f')
            (src.read_lem source buffer_size ok (omega arith) l)
    ]
  ]

  -- Into a stream each of whose writes takes all of its bytes or fails (stream.hh also allows short
  -- writes, which are excluded), with a round for each byte and one more, the copy returns. It returns
  -- true when every byte of the
  -- source was written, in order, behind what the target had, and the source is at its end. It returns
  -- false when one of the streams has failed: then a first part was written, and at most the chunk
  -- read last is lost. The buffer is allocated, and both streams serve calls of its size.
  pub copy-Copied :
      (fuel : ℕ) (source : S) (target : T)
      → buffer_size ≤ src.limit
      → buffer_size ≤ sink.limit
      → src.Ok source
      → sink.Ok target
      → length (rest source) < fuel
      → (done : Bool) × (source' : S) × (target' : T) × (copy from to fuel true source target
          ≡ returns (done, source', target'))
        × Copied (rest source) (written target) done source' target'
  unfolding copy
  copy-Copied fuel source target l l' ok ok' f = loop-Copies fuel source target l l' ok ok' f
