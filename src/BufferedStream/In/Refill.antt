-- ===== src/BufferedStream/In/Refill.antt =====
-- One round of the loop in `BufferedInStream::read`.
use ckcore.Base.{
  ℕ, ◌+◌, ◌%◌, ◌^◌, ◌≤◌, ◌<◌, ◌≡◌, refl, sym, ap, ◌∙◌, inl, inr, true, false, Option, none, some,
  List, ◌++◌, append_assoc, returns, load, load_in_range, store_in_range, length, drop,
  length-append, length-drop, take-append, List-cases, Bool-cases, arith,
}
use ckcore.Stream.{InStream}
use ckcore.Stream.Contract.{Source, Delivers}
use ckcore.BufferedStream.In.{BufferedIn, Round, got, wrapped, finished, again, refill}
use ckcore.BufferedStream.In.Pending.{pending, to_come, IsValid, Ended, length-pending}

module _ {S : Type 0} {s : InStream S} (src : Source s) where
  open src use {Ok, Failing, rest, limit, end_lem, read_lem}

  -- What a round of the loop does to the bytes stored and those to come.
  abbrev pub Refilled : BufferedIn S → List ℕ → ℕ → Round S → Type 0
  Refilled b out wanted (finished r b') = Ended src (out ++ to_come src b) wanted r b'
  Refilled b out wanted (again out' b') =
      IsValid src b'
      × (out ++ to_come src b ≡ out' ++ to_come src b')
      × (length out' ≡ length out + b.buffer_data)
      × (0 < b'.buffer_data)

  module _ (b : BufferedIn S) (out : List ℕ) (v : IsValid src b) where
    loaded : load b.buffer b.buffer_pos b.buffer_data ≡ returns (pending b)
    loaded = load_in_range b.buffer b.buffer_pos b.buffer_data (omega (arith, v))

    -- The buffer after it was emptied, over the stream in state `st`.
    abbrev emptied : S → BufferedIn S
    emptied st = record b { stream = st; buffer_pos = 0; buffer_data = 0 }

    emptied-IsValid : (st : S) → Ok st → IsValid src (emptied st)
    emptied-IsValid st ok = record {
      stream_ok = ok;
      allocated = v.allocated;
      served = v.served;
      word = v.word;
      storage = v.storage;
      within = omega arith;
    }

    -- The buffer after `chunk` was read into it.
    abbrev filled : List ℕ → S → BufferedIn S
    filled chunk st = record b {
      stream = st;
      buffer = chunk ++ drop (0 + length chunk) b.buffer;
      buffer_pos = 0;
      buffer_data = length chunk % 2 ^ 32;
    }

    filled-IsValid :
        (chunk : List ℕ) (st : S)
        → Ok st
        → length chunk ≤ b.buffer_size
        → IsValid src (filled chunk st)
    filled-IsValid chunk st ok few = record {
      stream_ok = ok;
      allocated = v.allocated;
      served = v.served;
      word = v.word;
      storage = omega (
        arith,
        v,
        length-append chunk (drop (0 + length chunk) b.buffer),
        length-drop (0 + length chunk) b.buffer,
      );
      within = omega (arith, v);
    }

    pending-filled :
        (chunk : List ℕ) (st : S) → length chunk ≤ b.buffer_size → pending (filled chunk st) ≡ chunk
    pending-filled chunk st few =
        take-append chunk (drop (0 + length chunk) b.buffer) (length chunk % 2 ^ 32)
          (omega (arith, v))

    regroup : (st : S) → out ++ (pending b ++ rest st) ≡ out ++ pending b ++ rest st
    regroup st = sym (append_assoc out (pending b) (rest st))

    length-stored : length (out ++ pending b) ≡ length out + b.buffer_data
    length-stored = omega (arith, length-append out (pending b), length-pending src b v)

    -- The stream below is at its end: what the buffer held is all that `read` returns.
    refill-end :
        (wanted : ℕ)
        → length out + b.buffer_data ≤ wanted
        → s.end b.stream ≡ true
        → (r : Round S) × (refill s b out ≡ returns r) × Refilled b out wanted r
    unfolding refill
    refill-end wanted h over = (
      finished (got (out ++ pending b)) (emptied b.stream),
      rw (loaded, over),
      (
        emptied-IsValid b.stream v.stream_ok,
        regroup b.stream,
        omega (arith, length-stored),
        λ _. inl ((end_lem b.stream v.stream_ok).0 over),
      ),
    )

    -- The stream below fails: `read` returns 4294967295 if nothing was stored.
    refill-failed :
        (wanted : ℕ) (st : S)
        → length out + b.buffer_data < wanted
        → s.end b.stream ≡ false
        → s.read b.stream b.buffer_size ≡ returns (none, st)
        → Ok st
        → rest b.stream ≡ rest st
        → Failing st
        → (r : Round S) × (refill s b out ≡ returns r) × Refilled b out wanted r
    unfolding refill
    refill-failed wanted st h more e ok same failing = elim (List-cases (out ++ pending b)) [
      | inl nothing ↦ (
        finished wrapped (emptied st),
        rw (loaded, more, e, nothing),
        (emptied-IsValid st ok, rw same (regroup st) ∙ ap (λ l. l ++ rest st) nothing, failing),
      )
      | inr something ↦ (
        finished (got (out ++ pending b)) (emptied st),
        rw (loaded, more, e) (ground arith),
        (
          emptied-IsValid st ok,
          rw same (regroup st),
          omega (arith, length-stored),
          λ _. inr (something, failing, refl),
        ),
      )
    ]

    -- The stream below delivers: the loop goes on with its bytes in the buffer.
    refill-chunk :
        (wanted : ℕ) (chunk : List ℕ) (st : S)
        → s.end b.stream ≡ false
        → s.read b.stream b.buffer_size ≡ returns (some chunk, st)
        → Ok st
        → Delivers (Failing st) b.buffer_size (rest b.stream) (some chunk) (rest st)
        → (r : Round S) × (refill s b out ≡ returns r) × Refilled b out wanted r
    unfolding refill
    refill-chunk wanted chunk st more e ok (split, few, some_if) = (
      again (out ++ pending b) (filled chunk st),
      rw (loaded, more, e, store_in_range b.buffer 0 chunk (omega (arith, v))),
      (
        filled-IsValid chunk st ok few,
        rw (pending-filled chunk st few, ← split) (regroup b.stream),
        length-stored,
        elim (List-cases (rest b.stream)) [
          | inl none_left ↦ absurd (cc ((end_lem b.stream v.stream_ok).1 none_left))
          | inr some_left ↦ omega (arith, v, some_if some_left)
        ],
      ),
    )

    pub refill-Refilled :
        (wanted : ℕ)
        → length out + b.buffer_data < wanted
        → (r : Round S) × (refill s b out ≡ returns r) × Refilled b out wanted r
    refill-Refilled wanted h = elim (Bool-cases (s.end b.stream)) [
      | inl over ↦ refill-end wanted (omega arith) over
      | inr more ↦ go more (read_lem b.stream b.buffer_size v.stream_ok v.allocated v.served)
    ]
      where
        go :
            s.end b.stream ≡ false
            → (r : Option (List ℕ)) × (st : S) × (s.read b.stream b.buffer_size ≡ returns (r, st))
              × Ok st
              × Delivers (Failing st) b.buffer_size (rest b.stream) r (rest st)
            → (r : Round S) × (refill s b out ≡ returns r) × Refilled b out wanted r
        go more (none, st, e, ok, (same, failing)) =
            refill-failed wanted st h more e ok same failing
        go more (some chunk, st, e, ok, d) = refill-chunk wanted chunk st more e ok d
