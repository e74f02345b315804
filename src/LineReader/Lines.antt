-- ===== src/LineReader/Lines.antt =====
-- `read_line` over a stream whose reads do not fail.
use ckcore.Base.{
  ℕ, zero, suc, ◌≤◌, ◌<◌, ◌≡◌, refl, sym, ap, ◌∙◌, inl, inr, true, false, Option, none, some, List,
  [], ◌∷◌, ◌++◌, append-nil, append_assoc, returns, length, Bool-cases, List-cases, arith, ◌==◌,
}
use ckcore.Stream.{InStream}
use ckcore.Stream.Contract.{Source, Delivers, IsReliable}
use ckcore.LineReader.{LineReader, line_loop, read_line, kept, is_feed, is_return}
use ckcore.LineReader.Chars.{
  first_line, behind, kept_rest, kept-short, take-feed, take-return, take-other,
}

module _ {S : Type 0} {from : InStream S} (src : Source from) (reliable : IsReliable src)
    (served : 1 ≤ src.limit) where
  open src use {rest}

  -- A read of one character.
  abbrev One : S → Type 0
  One s =
      (bytes : List ℕ) × (s' : S) × (from.read s 1 ≡ returns (some bytes, s'))
      × src.Ok s'
      × (rest s ≡ bytes ++ rest s')
      × (length bytes ≤ 1)
      × (0 < length (rest s) → 0 < length bytes)

  read-One : (s : S) → src.Ok s → One s
  read-One s ok = go (src.read_lem s 1 ok (omega arith) served)
    where
      go :
          (r : Option (List ℕ)) × (s' : S) × (from.read s 1 ≡ returns (r, s'))
            × src.Ok s'
            × Delivers (src.Failing s') 1 (rest s) r (rest s')
          → One s
      go (none, s', e, ok', (same, failing)) = absurd (reliable s' failing)
      go (some bytes, s', e, ok', (split, few, progress)) =
          (bytes, s', e, ok', split, few, progress)

  abbrev pub Lined : ℕ → List ℕ → S → Type 0
  Lined fuel line s =
      (next : List ℕ) × (s' : S) × (line_loop from fuel line s
        ≡ returns (line ++ first_line (rest s), next, s'))
      × src.Ok s'
      × (next ++ rest s' ≡ behind (rest s))
      × (length next ≤ 1)

  -- What a round comes to, by the character that it reads.
  line-feed :
      (fuel : ℕ) (line : List ℕ) (s : S) (c : ℕ) (s' : S)
      → from.end s ≡ false
      → from.read s 1 ≡ returns (some (c ∷ []), s')
      → is_feed c ≡ true
      → rest s ≡ c ∷ rest s'
      → src.Ok s'
      → Lined (suc fuel) line s
  unfolding line_loop
  line-feed fuel line s c s' more e feed split ok =
      let is : (c == b'\n') ≡ true = unfold is_feed in feed in
      let text : first_line (rest s) ≡ [] = rw (split, is) refl in
      (
        [],
        s',
        rw (text, append-nil line, more, line_loop, e)
            (take-feed from (line_loop from fuel) line c s' feed),
        ok,
        rw (split, is) refl,
        omega arith,
      )

  line-return :
      (fuel : ℕ) (line : List ℕ) (s : S) (c : ℕ) (s' : S)
      → from.end s ≡ false
      → from.read s 1 ≡ returns (some (c ∷ []), s')
      → (is_feed c ≡ false) × (is_return c ≡ true)
      → rest s ≡ c ∷ rest s'
      → One s'
      → Lined (suc fuel) line s
  unfolding line_loop
  line-return fuel line s c s' more e (no_feed, ret) split
        (bytes, s'', e', ok, split', few, progress) =
      let not_feed : (c == b'\n') ≡ false = unfold is_feed in no_feed in
      let is : (c == b'\r') ≡ true = unfold is_return in ret in
      let text : first_line (rest s) ≡ [] = rw (split, not_feed, is) refl in
      (
        kept from (some bytes),
        s'',
        rw (text, append-nil line, more, line_loop, e)
            (take-return from (line_loop from fuel) line c s' s'' (some bytes) no_feed ret e'),
        ok,
        rw (split, not_feed, is) (kept_rest from bytes (rest s') (rest s'') split' few progress),
        kept-short from bytes,
      )

  line-other :
      (fuel : ℕ) (line : List ℕ) (s : S) (c : ℕ) (s' : S)
      → from.end s ≡ false
      → from.read s 1 ≡ returns (some (c ∷ []), s')
      → (is_feed c ≡ false) × (is_return c ≡ false)
      → rest s ≡ c ∷ rest s'
      → Lined fuel (line ++ (c ∷ [])) s'
      → Lined (suc fuel) line s
  unfolding line_loop
  line-other fuel line s c s' more e (no_feed, no_return) split (next, s'', run, ok, left, short) =
      let not_feed : (c == b'\n') ≡ false = unfold is_feed in no_feed in
      let not_return : (c == b'\r') ≡ false = unfold is_return in no_return in
      let text : first_line (rest s) ≡ c ∷ first_line (rest s') =
        rw (split, not_feed, not_return) refl in
      (
        next,
        s'',
        rw (text, sym (append_assoc line (c ∷ []) (first_line (rest s'))), more, line_loop, e)
            (take-other from (line_loop from fuel) line c s' no_feed no_return ∙ run),
        ok,
        rw (split, not_feed, not_return) left,
        short,
      )

  line-end :
      (fuel : ℕ) (line : List ℕ) (s : S)
      → src.Ok s
      → from.end s ≡ true
      → rest s ≡ []
      → Lined (suc fuel) line s
  unfolding line_loop
  line-end fuel line s ok over none_left = (
    [],
    s,
    rw (none_left, append-nil line, over, line_loop) refl,
    ok,
    rw none_left refl,
    omega arith,
  )

  line-read :
      (fuel : ℕ) (line : List ℕ) (s : S)
      → from.end s ≡ false
      → 0 < length (rest s)
      → length (rest s) < suc fuel
      → ((line' : List ℕ) (s' : S) → src.Ok s' → length (rest s') < fuel → Lined fuel line' s')
      → One s
      → Lined (suc fuel) line s
  line-read fuel line s more some_left f rec ([], s', e, ok, split, few, progress) =
      absurd (omega (arith, progress some_left))
  line-read fuel line s more some_left f rec (c ∷ d ∷ bytes, s', e, ok, split, few, progress) =
      absurd (omega arith)
  line-read fuel line s more some_left f rec (c ∷ [], s', e, ok, split, few, progress) =
      let shorter : length (rest s') < fuel = omega (arith, ap length split) in
      elim (Bool-cases (is_feed c)) [
        | inl feed ↦ line-feed fuel line s c s' more e feed split ok
        | inr no_feed ↦ elim (Bool-cases (is_return c)) [
          | inl ret ↦ line-return fuel line s c s' more e (no_feed, ret) split (read-One s' ok)
          | inr no_return ↦
              line-other fuel line s c s' more e (no_feed, no_return) split
                (rec (line ++ (c ∷ [])) s' ok shorter)
        ]
      ]

  line-loop :
      (fuel : ℕ) (line : List ℕ) (s : S) → src.Ok s → length (rest s) < fuel → Lined fuel line s
  line-loop zero line s ok f = absurd (omega arith)
  line-loop (suc fuel) line s ok f = elim (Bool-cases (from.end s)) [
    | inl over ↦ line-end fuel line s ok over ((src.end_lem s ok).0 over)
    | inr more ↦ elim (List-cases (rest s)) [
      | inl none_left ↦ absurd (cc ((src.end_lem s ok).1 none_left))
      | inr some_left ↦
          line-read fuel line s more some_left f (λ line' s' ok' f'. line-loop fuel line' s' ok' f')
            (read-One s ok)
    ]
  ]

  -- Over a stream whose reads do not fail, and that serves reads of one byte, `read_line` ends within a
  -- round for each byte to come and one more. It returns what it had kept and then the first line of
  -- the bytes to come, up to a line feed, a carriage return, both in that order, or the end. What it
  -- keeps now, at most one character, and the bytes still to come are the text behind that.
  pub read_line-first_line :
      (fuel : ℕ) (r : LineReader S)
      → src.Ok r.stream
      → length (rest r.stream) < fuel
      → (r' : LineReader S) × (read_line from fuel r
          ≡ returns (r.next_str ++ first_line (rest r.stream), r'))
        × src.Ok r'.stream
        × (r'.next_str ++ rest r'.stream ≡ behind (rest r.stream))
        × (length r'.next_str ≤ 1)
  unfolding read_line
  read_line-first_line fuel r ok f =
      let (next, s', run, ok', left, short) = line-loop fuel r.next_str r.stream ok f in
      (record r { next_str = next; stream = s' }, rw run refl, ok', left, short)
