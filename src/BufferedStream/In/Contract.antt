-- ===== src/BufferedStream/In/Contract.antt =====
-- A `BufferedInStream` keeps the contract of an input stream, where the stream below does
-- and none of that stream's reads fails.
use ckcore.Base.{
  ℕ, ◌-◌, ◌^◌, ◌≤◌, ◌<◌, ◌≡◌, ◌⊎◌, inl, inr, ◌↔◌, true, Option, some, List, [], ◌++◌, returns,
  length, length-append, ap, arith, dec_lt,
}
use ckcore.Stream.{InStream}
use ckcore.Stream.Contract.{Source, IsReliable, Delivers}
use ckcore.BufferedStream.In.{
  BufferedIn, Result, failed, got, wrapped, read, read_by_client, buffered,
}
use ckcore.BufferedStream.In.Pending.{to_come, IsValid, Ended}
use ckcore.BufferedStream.In.Read.{read-Ended}
use ckcore.BufferedStream.In.Client.{end-to_come}

module _ {S : Type 0} {s : InStream S} (src : Source s) where
  open src use {Failing}

  -- A read gets a byte if there is one to get.
  some_byte :
      (total bytes later : List ℕ) (n : ℕ) {P : Type 0}
      → 0 < n
      → total ≡ bytes ++ later
      → (length bytes < n → (later ≡ []) ⊎ (0 < length bytes) × P)
      → 0 < length total
      → 0 < length bytes
  some_byte total bytes later n pos e short some_left = elim (dec_lt (length bytes) n) [
    | yes lt ↦ elim (short lt) [
      | inl none_left ↦ omega (arith, ap length e, length-append bytes later, ap length none_left)
      | inr (h, _) ↦ h
    ]
    | no ge ↦ omega arith
  ]

  -- Read through `InStream`, a buffered stream over one whose reads do not fail, with its fields in
  -- order and its buffer allocated, delivers as the contract of an input stream says, with the bytes to
  -- come as its rest. The reads ask for some bytes, and for fewer than 2^32.
  pub buffered-Delivers :
      (b : BufferedIn S) (n : ℕ)
      → IsReliable src
      → IsValid src b
      → 0 < n
      → n ≤ 2 ^ 32 - 1
      → (r : Option (List ℕ)) × (b' : BufferedIn S) × ((buffered s).read b n ≡ returns (r, b'))
        × IsValid src b'
        × Delivers ⊥ n (to_come src b) r (to_come src b')
  unfolding buffered read_by_client
  buffered-Delivers b n reliable v pos few = go (read-Ended src b n v (omega arith))
    where
      go :
          (r : Result) × (b' : BufferedIn S) × (read s b n ≡ returns (r, b'))
            × Ended src (to_come src b) n r b'
          → (r : Option (List ℕ)) × (b' : BufferedIn S) × (read_by_client s b n ≡ returns (r, b'))
            × IsValid src b'
            × Delivers ⊥ n (to_come src b) r (to_come src b')
      go (failed, b', e, d) = elim d [ ]
      go (wrapped, b', e, (v', same, failing)) = absurd (reliable b'.stream failing)
      go (got bytes, b', e, (v', split, le, short)) = (
        some bytes,
        b',
        rw e,
        v',
        (
          split,
          le,
          some_byte (to_come src b) bytes (to_come src b') n
              {P = Failing b'.stream × (b'.buffer_data ≡ 0)} pos split
              (λ lt. elim (short lt) [ inl h ↦ inl h | inr (h, p, q) ↦ inr (h, (p, q)) ]),
        ),
      )

  pub buffered-end :
      (b : BufferedIn S) → IsValid src b → ((buffered s).end b ≡ true) ↔ (to_come src b ≡ [])
  unfolding buffered
  buffered-end b v = end-to_come src b v

  abbrev pub buffered_source : IsReliable src → Source (buffered s)
  buffered_source reliable = record {
    Ok = IsValid src;
    Failing = λ b. ⊥;
    rest = to_come src;
    limit = 2 ^ 32 - 1;
    end_lem = buffered-end;
    read_lem = λ b n. buffered-Delivers b n reliable;
  }
