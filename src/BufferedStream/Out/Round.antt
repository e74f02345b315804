-- ===== src/BufferedStream/Out/Round.antt =====
-- One round of the loop in `BufferedOutStream::write`.
use ckcore.Base.{
  ℕ, suc, ◌+◌, ◌-◌, ◌^◌, ◌≤◌, ◌<◌, ◌≡◌, refl, sym, ap, ◌∙◌, inl, inr, true, false, Option, none,
  some, List, [], ◌++◌, append-nil, append_assoc, Outcome, returns, load_in_range, store_in_range,
  stored, length-stored, take-stored, take-stored_before, ltb, length, take, drop, length-append,
  length-take, length-drop, take-append-drop, take-add, arith, ltb→lt, ltb→le, sub32, add32, ◌==◌,
  add32_small, sub32_small, dec_lt, if◌then◌else◌,
}
use ckcore.Stream.{OutStream}
use ckcore.Stream.Contract.{Sink, Accepts}
use ckcore.BufferedStream.Out.{BufferedOut, write_loop, unsigned_or_failed}
use ckcore.BufferedStream.Out.Pending.{accepted, IsValid, Reported, Wrote}

-- Bytes reported by a later round, as the earlier one sees them.
Reported-shift :
    {S : Type 0} {s : OutStream S} (sink : Sink s) (pos n kept rest total : ℕ) (r : Option ℕ)
    → n + rest ≡ total
    → Reported sink (pos + n) kept rest r
    → Reported sink pos (n + kept) total r
Reported-shift sink pos n kept rest total none e h = elim h [ ]
Reported-shift sink pos n kept rest total (some m) e (inl (k, p)) = inl (omega arith, omega arith)
Reported-shift sink pos n kept rest total (some m) e (inr (k, p, q)) =
    inr (omega arith, omega arith, q)

module _ {S : Type 0} {s : OutStream S} (sink : Sink s) where
  open sink use {Ok, Failing, written, limit, write_lem}

  abbrev pub Writes : ℕ → BufferedOut S → List ℕ → ℕ → Type 0
  Writes fuel b bytes pos =
      (r : Option ℕ) × (b' : BufferedOut S) × (write_loop s fuel b bytes pos ≡ returns (r, b'))
      × Wrote sink (accepted sink b) bytes pos r b'

  module _ (b : BufferedOut S) (bytes : List ℕ) (pos : ℕ) (v : IsValid sink b) where
    -- What fits into the buffer.
    abbrev pub remain : ℕ
    remain = sub32 b.buffer_size b.buffer_pos

    abbrev pub head : List ℕ
    head = take remain bytes

    abbrev pub full : List ℕ
    full = take b.buffer_pos b.buffer ++ head

    abbrev pub flushed : S → BufferedOut S
    flushed st = record b {
      stream = st;
      buffer = stored b.buffer b.buffer_pos head;
      buffer_pos = 0;
    }

    module _ (w : b.buffer_pos + length bytes < 2 ^ 32) (w' : pos + length bytes < 2 ^ 32) where
      pub loop-fits :
          (fuel : ℕ)
          → ltb b.buffer_size (add32 b.buffer_pos (length bytes)) ≡ false
          → Writes (suc fuel) b bytes pos
      unfolding write_loop
      loop-fits fuel fits =
          let le : b.buffer_pos + length bytes ≤ b.buffer_size = omega (arith, ltb→le _ _ fits) in
          let room : b.buffer_pos + length bytes ≤ length b.buffer = omega (arith, v) in
          (
            some (pos + length bytes),
            record b {
              buffer = stored b.buffer b.buffer_pos bytes;
              buffer_pos = b.buffer_pos + length bytes;
            },
            rw (fits, write_loop, store_in_range b.buffer b.buffer_pos bytes room)
                (rw (add32_small pos (length bytes) w', add32_small b.buffer_pos (length bytes) w)),
            (
              record {
                stream_ok = v.stream_ok;
                allocated = v.allocated;
                served = v.served;
                word = v.word;
                storage = omega (arith, v, length-stored b.buffer b.buffer_pos bytes room);
                within = le;
              },
              inl (
                refl,
                ap (λ l. written b.stream ++ l)
                      (take-stored b.buffer b.buffer_pos bytes _ room refl)
                    ∙ sym (append_assoc (written b.stream) (take b.buffer_pos b.buffer) bytes),
              ),
            ),
          )

      module _ (overfull : ltb b.buffer_size (add32 b.buffer_pos (length bytes)) ≡ true) where
        pub more : b.buffer_size < b.buffer_pos + length bytes
        more = omega (arith, ltb→lt _ _ overfull)

        pub remain_lem : remain ≡ b.buffer_size - b.buffer_pos
        remain_lem = sub32_small b.buffer_size b.buffer_pos v.within v.word

        length-head : length head ≡ remain
        length-head = omega (arith, more, remain_lem, length-take remain bytes)

        room : b.buffer_pos + length head ≤ length b.buffer
        room = omega (arith, v, length-head, remain_lem)

        full_lem : take b.buffer_size (stored b.buffer b.buffer_pos head) ≡ full
        full_lem =
            take-stored b.buffer b.buffer_pos head b.buffer_size room
              (omega (arith, v, length-head, remain_lem))

        pub length-full : length full ≡ b.buffer_size
        length-full = omega (
          arith,
          v,
          length-head,
          remain_lem,
          length-append (take b.buffer_pos b.buffer) head,
          length-take b.buffer_pos b.buffer,
        )

        pos_lem : add32 pos remain ≡ pos + remain
        pos_lem = add32_small pos remain (omega (arith, more, remain_lem))

        pub flushed-IsValid : (st : S) → Ok st → IsValid sink (flushed st)
        flushed-IsValid st ok = record {
          stream_ok = ok;
          allocated = v.allocated;
          served = v.served;
          word = v.word;
          storage = omega (arith, v, length-stored b.buffer b.buffer_pos head room);
          within = omega arith;
        }

        -- The buffer after a write that failed: its bytes past `buffer_pos` are not counted.
        abbrev pub dropped : S → BufferedOut S
        dropped st = record b { stream = st; buffer = stored b.buffer b.buffer_pos head }

        dropped-IsValid : (st : S) → Ok st → IsValid sink (dropped st)
        dropped-IsValid st ok = record {
          stream_ok = ok;
          allocated = v.allocated;
          served = v.served;
          word = v.word;
          storage = omega (arith, v, length-stored b.buffer b.buffer_pos head room);
          within = v.within;
        }

        -- One round of the loop, by what the write of the full buffer returns.
        abbrev pub after_round : ℕ → Option ℕ → S → Outcome (Option ℕ × BufferedOut S)
        after_round fuel none st = returns (some (unsigned_or_failed (pos + remain)), dropped st)
        after_round fuel (some n) st =
            write_loop s fuel (flushed st) (drop remain bytes) (pos + remain)

        pub round_lem :
            (fuel : ℕ) (r : Option ℕ) (st : S)
            → s.write b.stream full ≡ returns (r, st)
            → write_loop s (suc fuel) b bytes pos ≡ after_round fuel r st
        unfolding write_loop
        round_lem fuel none st e = rw (
          overfull,
          write_loop,
          load_in_range bytes 0 remain (omega (arith, more, remain_lem)),
          store_in_range b.buffer b.buffer_pos head room,
          load_in_range (stored b.buffer b.buffer_pos head) 0 b.buffer_size
              (omega (arith, v, length-stored b.buffer b.buffer_pos head room)),
          full_lem,
          e,
          pos_lem,
        )
        round_lem fuel (some n) st e = rw (
          overfull,
          write_loop,
          load_in_range bytes 0 remain (omega (arith, more, remain_lem)),
          store_in_range b.buffer b.buffer_pos head room,
          load_in_range (stored b.buffer b.buffer_pos head) 0 b.buffer_size
              (omega (arith, v, length-stored b.buffer b.buffer_pos head room)),
          full_lem,
          e,
          pos_lem,
        )

        pub accepted-dropped :
            (st : S) → written st ≡ written b.stream → accepted sink (dropped st) ≡ accepted sink b
        accepted-dropped st same =
            ap (λ l. l ++ take b.buffer_pos (stored b.buffer b.buffer_pos head)) same
            ∙ ap (λ l. written b.stream ++ l)
                (take-stored_before b.buffer b.buffer_pos head (omega (arith, v)))

        accepted-flushed :
            (st : S)
            → written st ≡ written b.stream ++ full
            → accepted sink (flushed st) ≡ accepted sink b ++ head
        accepted-flushed st more_written =
            append-nil (written st)
            ∙ more_written
            ∙ sym (append_assoc (written b.stream) (take b.buffer_pos b.buffer) head)

        reported_lem : Reported sink pos 0 (length bytes) (some (unsigned_or_failed (pos + remain)))
        unfolding unsigned_or_failed
        reported_lem = elim (dec_lt 0 (pos + remain)) [
          | yes p ↦
              let e : (if pos + remain == 0 then 2 ^ 32 - 1 else pos + remain) ≡ pos + remain =
                ground arith in
              inl (omega (arith, e), omega (arith, e, more, remain_lem))
          | no p ↦
              let e : (if pos + remain == 0 then 2 ^ 32 - 1 else pos + remain) ≡ 2 ^ 32 - 1 =
                ground arith in
              inr (omega arith, refl, e)
        ]

        -- The write of the full buffer fails: `pos + remain` is reported, `pos` is kept.
        round-failed :
            (fuel : ℕ) (st : S)
            → s.write b.stream full ≡ returns (none, st)
            → Ok st
            → written st ≡ written b.stream
            → Failing st
            → Writes (suc fuel) b bytes pos
        round-failed fuel st e ok same failing = (
          some (unsigned_or_failed (pos + remain)),
          dropped st,
          round_lem fuel none st e,
          (dropped-IsValid st ok, inr (failing, (0, unchanged, reported_lem))),
        )
          where
            unchanged : accepted sink (dropped st) ≡ accepted sink b ++ []
            unchanged = accepted-dropped st same ∙ sym (append-nil (accepted sink b))

        left : remain + length (drop remain bytes) ≡ length bytes
        left = omega (arith, more, remain_lem, length-drop remain bytes)

        joined :
            {st : S} {now : List ℕ} (xs ys : List ℕ)
            → written st ≡ written b.stream ++ full
            → now ≡ accepted sink (flushed st) ++ xs
            → head ++ xs ≡ ys
            → now ≡ accepted sink b ++ ys
        joined {st} xs ys more_written acc e =
            acc
            ∙ ap (λ l. l ++ xs) (accepted-flushed st more_written)
            ∙ append_assoc (accepted sink b) head xs
            ∙ ap (λ l. accepted sink b ++ l) e

        -- The write of the full buffer succeeds: what the later rounds do is what this one starts.
        round-went_on :
            (fuel n : ℕ) (st : S)
            → s.write b.stream full ≡ returns (some n, st)
            → written st ≡ written b.stream ++ full
            → Writes fuel (flushed st) (drop remain bytes) (pos + remain)
            → Writes (suc fuel) b bytes pos
        round-went_on fuel n st e more_written (r, b', e', (v', inl (all, acc))) = (
          r,
          b',
          round_lem fuel (some n) st e ∙ e',
          (
            v',
            inl (
              all ∙ ap some (omega (arith, left)),
              joined (drop remain bytes) bytes more_written acc (take-append-drop remain bytes),
            ),
          ),
        )
        round-went_on fuel n st e more_written
              (r, b', e', (v', inr (failing, (kept, acc, reported)))) =
            (
              r,
              b',
              round_lem fuel (some n) st e ∙ e',
              (
                v',
                inr (
                  failing,
                  (
                    remain + kept,
                    joined (take kept (drop remain bytes)) (take (remain + kept) bytes) more_written
                        acc (sym (take-add remain kept bytes)),
                    Reported-shift sink pos remain kept _ _ r left reported,
                  ),
                ),
              ),
            )

        pub round-Writes :
            (fuel : ℕ)
            → ((st : S) → Ok st → Writes fuel (flushed st) (drop remain bytes) (pos + remain))
            → (r : Option ℕ) × (st : S) × (s.write b.stream full ≡ returns (r, st))
              × Ok st
              × Accepts (Failing st) full (written b.stream) r (written st)
            → Writes (suc fuel) b bytes pos
        round-Writes fuel rec (none, st, e, ok, (same, failing)) =
            round-failed fuel st e ok same failing
        round-Writes fuel rec (some n, st, e, ok, (all, more_written)) =
            round-went_on fuel n st e more_written (rec st ok)
