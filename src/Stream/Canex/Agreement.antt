-- ===== src/Stream/Canex/Agreement.antt =====
-- The checked copies of src/canexstream.cc beside those of src/stream.cc.
use ckcore.Base.{
  ℕ, zero, suc, ◌≡◌, refl, Bool, true, false, not, ◌&&◌, Option, none, some, List, Outcome, returns,
  fault, stuck, ◌>>=◌, Bool-cases, inl, inr, ltb, ◌==◌, eq_iff, length, replicate, length-replicate,
  sub64, arith,
}
use ckcore.Stream.{InStream, OutStream}
use ckcore.Stream.Copy.{buffer_size}
use ckcore.Stream.Progress.{
  Progress, Progresser, cancelled, update, chunk_of, progresser_loop, copy_progresser, pad_loop,
  sized_loop, copy_sized,
}
use ckcore.Stream.Progress.Forget.{NeverCancels, forget}
use ckcore.Stream.Canex.{fine, thrown, or_thrown, copy, pad, sized, read, write, end}

module _ {T : Type 0} where
  -- A write of `n` bytes that either fails or takes all of them.
  abbrev pub IsWhole : ℕ → Outcome (Option ℕ × T) → Type 0
  IsWhole n (returns (none, t)) = Unit
  IsWhole n (returns (some m, t)) = m ≡ n
  IsWhole n fault = Unit
  IsWhole n stuck = Unit

  -- What `CanexOutStream::write` makes of it.
  abbrev checked : ℕ → Outcome (Option ℕ × T) → Outcome (Bool × T)
  checked n w = do (res, t) ← w; returns (elim res [ none ↦ false | some m ↦ m == n ], t)

module _ {T B C : Type 0} (view : Outcome B → C) where
  -- Where a write is whole, and what follows agrees in `view`, the checked write agrees with the other.
  checked-then :
      (n : ℕ) (w : Outcome (Option ℕ × T)) (failed failed' : T → Outcome B)
      (next next' : T → ℕ → Outcome B)
      → IsWhole n w
      → ((t : T) → view (failed t) ≡ view (failed' t))
      → ((t : T) → view (next t n) ≡ view (next' t n))
      → view (do (written, t) ← checked n w; elim written [ false ↦ failed t | true ↦ next t n ])
        ≡ view (do (res, t) ← w; elim res [ none ↦ failed' t | some m ↦ next' t m ])
  checked-then n (returns (none, t)) failed failed' next next' whole bad good = bad t
  checked-then n (returns (some m, t)) failed failed' next next' whole bad good =
      rw (whole, (eq_iff n n).1 refl) (good t)
  checked-then n fault failed failed' next next' whole bad good = refl
  checked-then n stuck failed failed' next next' whole bad good = refl

module _ {S B C : Type 0} (view : Outcome B → C) where
  -- So does a checked read.
  read-then :
      (r : Outcome (Option (List ℕ) × S)) (failed failed' : S → Outcome B)
      (next next' : S → List ℕ → Outcome B)
      → ((s : S) → view (failed s) ≡ view (failed' s))
      → ((s : S) (bytes : List ℕ) → view (next s bytes) ≡ view (next' s bytes))
      → view (do
        (got, s) ← (do (res, s) ← r; returns (or_thrown res, s))
        elim got [ thrown ↦ failed s | fine bytes ↦ next s bytes ])
        ≡ view (do (res, s) ← r; elim res [ none ↦ failed' s | some bytes ↦ next' s bytes ])
  read-then (returns (none, s)) failed failed' next next' bad good = bad s
  read-then (returns (some bytes, s)) failed failed' next next' bad good = good s bytes
  read-then fault failed failed' next next' bad good = refl
  read-then stuck failed failed' next next' bad good = refl

module _ {T P : Type 0} where
  -- The outcome of the padding without what it reported.
  forget_pad : Outcome (Bool × T × Progresser P) → Outcome (Bool × T)
  forget_pad (returns (done, target, g)) = returns (done, target)
  forget_pad fault = fault
  forget_pad stuck = stuck

  padded :
      {S : Type 0} (source : S) (p p' : Outcome (Bool × T × Progresser P))
      → forget_pad p ≡ forget_pad p'
      → forget (p >>= λ (done, t, g). returns (done, source, t, g))
        ≡ forget (p' >>= λ (done, t, g). returns (done, source, t, g))
  unfolding forget_pad
  padded source (returns (d, t, g)) (returns (d', t', g')) h = ground (arith, h)
  padded source (returns (d, t, g)) fault h = cc
  padded source (returns (d, t, g)) stuck h = cc
  padded source fault (returns (d, t, g)) h = cc
  padded source fault fault h = refl
  padded source fault stuck h = cc
  padded source stuck (returns (d, t, g)) h = cc
  padded source stuck fault h = cc
  padded source stuck stuck h = refl

module _ {S T P : Type 0} (from : InStream S) (to : OutStream T) (interface : Progress P)
    (percent : ℕ → ℕ → ℕ) (never : NeverCancels interface)
    (whole : (t : T) (bytes : List ℕ) → IsWhole (length bytes) (to.write t bytes)) where
  goes_on : (g : Progresser P) → (cancelled interface percent g).0 ≡ false
  unfolding cancelled
  goes_on g = never g.progress

  copy-loop :
      (fuel : ℕ) (source : S) (target : T) (g : Progresser P)
      → copy from to interface percent fuel source target g
        ≡ progresser_loop from to interface percent fuel source target g
  unfolding copy progresser_loop read write end
  copy-loop zero source target g = refl
  copy-loop (suc fuel) source target g =
      let later = (cancelled interface percent g).1 in
      let ih = copy-loop fuel in
      elim (Bool-cases (from.end source)) [
        | inl e ↦ rw (e, copy, progresser_loop) refl
        | inr e ↦
            rw (e, copy, progresser_loop, goes_on g)
              (read-then (λ x. x) (from.read source buffer_size)
                (λ s. returns (false, s, target, later)) (λ s. returns (false, s, target, later)) _
                _ (λ s. refl)
                (λ s bytes.
                  checked-then (λ x. x) (length bytes) (to.write target bytes)
                    (λ t. returns (false, s, t, later)) (λ t. returns (false, s, t, later))
                    (λ t n.
                      copy from to interface percent fuel s t (update interface percent later n))
                    (λ t n.
                      progresser_loop from to interface percent fuel s t
                        (update interface percent later n))
                    (whole target bytes) (λ t. refl)
                    (λ t. ih s t (update interface percent later (length bytes)))))
      ]

  pad-loop :
      (fuel res size : ℕ) (target : T) (g g' : Progresser P)
      → forget_pad (pad from to interface percent fuel res size target g)
        ≡ forget_pad (pad_loop from to interface percent fuel size target g')
  unfolding pad pad_loop write forget_pad
  pad-loop zero res size target g g' = refl
  pad-loop (suc fuel) res size target g g' =
      let chunk : ℕ = chunk_of size in
      let zeros : List ℕ = replicate chunk 0 in
      let few : length zeros ≡ chunk = length-replicate chunk 0 in
      let ih = pad-loop fuel res in
      elim (Bool-cases (ltb 0 size)) [
        | inr e ↦ rw (e, pad, pad_loop) refl
        | inl e ↦
            rw (e, pad, pad_loop)
              (checked-then forget_pad (length zeros) (to.write target zeros)
                (λ t. returns (false, t, g)) (λ t. returns (false, t, g'))
                (λ t n.
                  pad from to interface percent fuel res (sub64 size chunk) t
                    (update interface percent g res))
                (λ t n.
                  pad_loop from to interface percent fuel (sub64 size n) t
                    (update interface percent g' n))
                (whole target zeros) (λ t. refl)
                (λ t. rw few (
                  ih (sub64 size chunk) t (update interface percent g res)
                    (update interface percent g' chunk))))
      ]

  sized-loop :
      (fuel res size : ℕ) (source : S) (target : T) (g g' : Progresser P)
      → forget (sized from to interface percent fuel res size source target g)
        ≡ forget (sized_loop from to interface percent fuel size source target g')
  unfolding sized sized_loop read write end
  sized-loop zero res size source target g g' = refl
  sized-loop (suc fuel) res size source target g g' =
      let later = (cancelled interface percent g).1 in
      let later' = (cancelled interface percent g').1 in
      let ih = sized-loop fuel in
      elim (Bool-cases (not (from.end source) && ltb 0 size)) [
        | inr e ↦
            rw (e, sized, sized_loop)
              (padded source (pad from to interface percent (suc fuel) res size target g)
                (pad_loop from to interface percent (suc fuel) size target g')
                (pad-loop (suc fuel) res size target g g'))
        | inl e ↦
            rw (e, sized, sized_loop, goes_on g, goes_on g')
              (read-then forget (from.read source (chunk_of size))
                (λ s. returns (false, s, target, later)) (λ s. returns (false, s, target, later')) _
                _ (λ s. refl)
                (λ s bytes.
                  checked-then forget (length bytes) (to.write target bytes)
                    (λ t. returns (false, s, t, later)) (λ t. returns (false, s, t, later'))
                    (λ t n.
                      sized from to interface percent fuel (length bytes)
                        (sub64 size (length bytes)) s t (update interface percent later n))
                    (λ t n.
                      sized_loop from to interface percent fuel (sub64 size n) s t
                        (update interface percent later' n))
                    (whole target bytes) (λ t. refl)
                    (λ t.
                      ih (length bytes) (sub64 size (length bytes)) s t
                        (update interface percent later (length bytes))
                        (update interface percent later' (length bytes)))))
      ]

  -- Where each write fails or takes all its bytes, and the interface never asks to cancel: the checked
  -- copy returns, faults and runs on as `stream::copy` with a `Progresser` does, leaves all as that
  -- does, and throws where that returns false; so does the checked sized copy, but for what it reports.
  pub copies-agree :
      (fuel size : ℕ) (source : S) (target : T) (g : Progresser P)
      → (copy from to interface percent fuel source target g
          ≡ copy_progresser from to interface percent fuel true source target g)
        × (forget (sized from to interface percent fuel 0 size source target g)
            ≡ forget (copy_sized from to interface percent fuel true size source target g))
  unfolding copy_progresser copy_sized
  copies-agree fuel size source target g =
      (copy-loop fuel source target g, sized-loop fuel 0 size source target g g)
