-- ===== src/Crc/Copied.antt =====
-- `stream::copy` of src/stream.cc into a `CrcStream` of src/crcstream.cc.
use ckcore.Base.{
  ℕ, zero, suc, ◌^◌, ◌≤◌, ◌<◌, ◌≡◌, refl, sym, ap, ◌∙◌, true, false, Option, none, some, List, [],
  ◌∷◌, ◌++◌, returns, ltb, length, length-append, Bool-cases, List-cases, inl, inr, arith,
}
use ckcore.Stream.{InStream}
use ckcore.Stream.Contract.{Source, Delivers, IsReliable}
use ckcore.Stream.Copy.{buffer_size, copy_loop, copy}
use ckcore.Crc.{CrcType, create, write, crc_stream}
use ckcore.Crc.Bounds.{are_bytes}
use ckcore.Crc.Division.{
  divided, divided_all, at_checksum, Fits, divided-Fits, in_order-Fits, write_bytes-divided,
}

divided_all-append :
    (t : CrcType) (crc : ℕ) (xs ys : List ℕ)
    → divided_all t crc (xs ++ ys) ≡ divided_all t (divided_all t crc xs) ys
divided_all-append t crc [] ys = refl
divided_all-append t crc (x ∷ xs) ys = divided_all-append t (divided t crc x) xs ys

are_bytes-append :
    (xs ys : List ℕ) → are_bytes (xs ++ ys) ≡ true → (are_bytes xs ≡ true) × (are_bytes ys ≡ true)
are_bytes-append [] ys h = (refl, h)
are_bytes-append (x ∷ xs) ys h = elim (Bool-cases (ltb x 256)) [
  | inl e ↦
      let (left, right) = are_bytes-append xs ys (ground (arith, h, e)) in
      (rw (e, left) refl, right)
  | inr e ↦ absurd (ground (arith, h, e))
]

divided_all-Fits :
    (t : CrcType) (crc : ℕ) (xs : List ℕ)
    → are_bytes xs ≡ true
    → Fits t crc
    → Fits t (divided_all t crc xs)
divided_all-Fits t crc [] all h = h
divided_all-Fits t crc (x ∷ xs) all h =
    divided_all-Fits t (divided t crc x) xs (ground (arith, all))
      (divided-Fits t crc x (ground (arith, all)) h)

write-returns_divided :
    (t : CrcType) (crc : ℕ) (bytes : List ℕ)
    → are_bytes bytes ≡ true
    → Fits t crc
    → crc_stream.write (at_checksum t crc) bytes
      ≡ returns (some (length bytes), at_checksum t (divided_all t crc bytes))
unfolding crc_stream write
write-returns_divided t crc bytes all h = rw (write_bytes-divided t crc bytes all h) refl

module _ {S : Type 0} {from : InStream S} (src : Source from) (reliable : IsReliable src)
    (served : buffer_size ≤ src.limit) (t : CrcType) where
  open src use {rest}

  abbrev Checks : ℕ → S → ℕ → Type 0
  Checks fuel s crc =
      (s' : S) × (copy_loop from crc_stream fuel s (at_checksum t crc)
        ≡ returns (true, s', at_checksum t (divided_all t crc (rest s))))
      × (rest s' ≡ [])

  check-read :
      (fuel : ℕ) (s : S) (crc : ℕ)
      → from.end s ≡ false
      → 0 < length (rest s)
      → length (rest s) < suc fuel
      → are_bytes (rest s) ≡ true
      → Fits t crc
      → ((s' : S) (crc' : ℕ)
          → src.Ok s'
          → length (rest s') < fuel
          → are_bytes (rest s') ≡ true
          → Fits t crc'
          → Checks fuel s' crc')
      → (r : Option (List ℕ)) × (s' : S) × (from.read s buffer_size ≡ returns (r, s'))
        × src.Ok s'
        × Delivers (src.Failing s') buffer_size (rest s) r (rest s')
      → Checks (suc fuel) s crc
  unfolding copy_loop
  check-read fuel s crc more some_left f all fit rec (none, s', e, ok, (same, failing)) =
      absurd (reliable s' failing)
  check-read fuel s crc more some_left f all fit rec
        (some bytes, s', e, ok, (split, few, progress)) =
      let some_bytes = progress some_left in
      let size = length-append bytes (rest s') in
      let shorter : length (rest s') < fuel = omega (arith, ap length split, size) in
      let (all_bytes, all_rest) = are_bytes-append bytes (rest s') (rw (sym split) all) in
      let next : ℕ = divided_all t crc bytes in
      let (s'', run, over) =
        rec s' next ok shorter all_rest (divided_all-Fits t crc bytes all_bytes fit) in
      let sum : divided_all t crc (rest s) ≡ divided_all t next (rest s') =
        ap (divided_all t crc) split ∙ divided_all-append t crc bytes (rest s') in
      (s'', rw (more, copy_loop, e, write-returns_divided t crc bytes all_bytes fit, sum) run, over)

  check :
      (fuel : ℕ) (s : S) (crc : ℕ)
      → src.Ok s
      → length (rest s) < fuel
      → are_bytes (rest s) ≡ true
      → Fits t crc
      → Checks fuel s crc
  unfolding copy_loop
  check zero s crc ok f all fit = absurd (omega arith)
  check (suc fuel) s crc ok f all fit = elim (Bool-cases (from.end s)) [
    | inl e ↦
        let none_left : rest s ≡ [] = (src.end_lem s ok).0 e in
        (s, rw (e, copy_loop, none_left) refl, none_left)
    | inr e ↦ elim (List-cases (rest s)) [
      | inl none_left ↦ absurd (cc ((src.end_lem s ok).1 none_left))
      | inr some_left ↦
          check-read fuel s crc e some_left f all fit
            (λ s' crc' o f' a g. check fuel s' crc' o f' a g)
            (src.read_lem s buffer_size ok (omega arith) served)
    ]
  ]

  -- A copy from a stream whose reads do not fail, and that serves reads of the buffer's size, into a
  -- checksum of any value that the width of its type holds, returns true within a round for each byte
  -- and one more. It has read all the bytes, and leaves the checksum of all of them that division by the
  -- polynomial gives bit by bit, however the reads have cut them.
  pub copy-divided :
      (fuel : ℕ) (s : S) (crc : ℕ)
      → src.Ok s
      → length (rest s) < fuel
      → are_bytes (rest s) ≡ true
      → crc < 2 ^ (create t).order
      → (s' : S) × (copy from crc_stream fuel true s (at_checksum t crc)
          ≡ returns (true, s', at_checksum t (divided_all t crc (rest s))))
        × (rest s' ≡ [])
  unfolding copy
  copy-divided fuel s crc ok f all h = check fuel s crc ok f all (in_order-Fits t crc h)
