-- ===== src/Stream/Contract.antt =====
-- What a client of stream.hh may rely on: the contracts of an input and of an output stream.
use ckcore.Base.{ℕ, ◌≤◌, ◌<◌, ◌≡◌, ◌↔◌, true, Option, none, some, List, [], ◌++◌, returns, length}
use ckcore.Stream.{InStream, OutStream}

-- What a read of `n` bytes does to the bytes to come. A failed read loses none; another gives the
-- next ones, at most `n`, and at least one if there is one.
abbrev pub Delivers : Type 0 → ℕ → List ℕ → Option (List ℕ) → List ℕ → Type 0
Delivers failing n before none after = (before ≡ after) × failing
Delivers failing n before (some bytes) after =
    (before ≡ bytes ++ after) × (length bytes ≤ n) × (0 < length before → 0 < length bytes)

-- In a state that is `Ok`, the stream has the bytes `rest` to come. It serves reads of up to `limit`
-- bytes, and is `Failing` after one that fails.
pub record Source {S : Type 0} (s : InStream S) : Type 1 where
  pub Ok : S → Type 0
  pub Failing : S → Type 0
  pub rest : S → List ℕ
  pub limit : ℕ
  pub end_lem : (st : S) → Ok st → (s.end st ≡ true) ↔ (rest st ≡ [])
  pub read_lem :
      (st : S) (n : ℕ)
      → Ok st
      → 0 < n
      → n ≤ limit
      → (r : Option (List ℕ)) × (st' : S) × (s.read st n ≡ returns (r, st'))
        × Ok st'
        × Delivers (Failing st') n (rest st) r (rest st')

-- A stream whose reads do not fail.
abbrev pub IsReliable : {S : Type 0} {s : InStream S} → Source s → Type 0
IsReliable {S} src = (st : S) → ¬ src.Failing st

-- What a write does to the bytes written so far: all of it, or nothing. stream.hh also allows a write
-- that takes a part and returns how much; a stream with such writes is not a `Sink`.
abbrev pub Accepts : Type 0 → List ℕ → List ℕ → Option ℕ → List ℕ → Type 0
Accepts failing bytes before none after = (after ≡ before) × failing
Accepts failing bytes before (some n) after = (n ≡ length bytes) × (after ≡ before ++ bytes)

-- A stream each of whose writes takes all of its bytes or fails: in a state that is `Ok`, it has taken the bytes `written`.
pub record Sink {S : Type 0} (s : OutStream S) : Type 1 where
  pub Ok : S → Type 0
  pub Failing : S → Type 0
  pub written : S → List ℕ
  pub limit : ℕ
  pub write_lem :
      (st : S) (bytes : List ℕ)
      → Ok st
      → length bytes ≤ limit
      → (r : Option ℕ) × (st' : S) × (s.write st bytes ≡ returns (r, st'))
        × Ok st'
        × Accepts (Failing st') bytes (written st) r (written st')

-- A stream whose writes do not fail.
abbrev pub TakesAll : {S : Type 0} {s : OutStream S} → Sink s → Type 0
TakesAll {S} sink = (st : S) → ¬ sink.Failing st
