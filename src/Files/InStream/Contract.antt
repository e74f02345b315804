-- ===== src/Files/InStream/Contract.antt =====
-- A `FileInStream` keeps the contract of an input stream while its `read_` is the position in the file and
-- its `size_` the length of the file.
use ckcore.Base.{
  ℕ, ◌+◌, ◌-◌, ◌^◌, ◌<◌, ◌≤◌, ◌≡◌, ◌↔◌, refl, ap, sym, ◌∙◌, true, Option, none, some, List, [],
  ◌++◌, returns, length, take, drop, arith, length-drop, take-append-drop, drop-drop, drop-all,
  add64,
}
use ckcore.Stream.Contract.{Source, Delivers}
use ckcore.Files.{Sys, File}
use ckcore.Files
use ckcore.Files.InStream.{FileIn, file_stream, read, end, signed_ge}

-- What a read of at most `n` bytes gives, of a file with the bytes `whole`, at position `pos`.
abbrev pub Reads : Type 0 → List ℕ → ℕ → ℕ → Option (List ℕ) → ℕ → Type 0
Reads failing whole n pos none pos' = (pos' ≡ pos) × failing
Reads failing whole n pos (some bytes) pos' =
    (bytes ≡ take (length bytes) (drop pos whole))
    × (length bytes ≤ n)
    × (pos' ≡ pos + length bytes)
    × (pos' ≤ length whole)
    × (pos < length whole → 0 < length bytes)

-- What read(2) documents for a descriptor of a regular file: a call that fails leaves the position;
-- another gives the bytes from there on, at least one unless it is at the end, and moves past them.
pub record Regular {S : Type 0} (sys : Sys S) (fd : ℕ) : Type 1 where
  pub IsOpen : S → Type 0
  pub Failing : S → Type 0
  pub whole : S → List ℕ
  pub pos : S → ℕ
  pub read_lem :
      (s : S) (n : ℕ)
      → IsOpen s
      → pos s ≤ length (whole s)
      → 0 < n
      → (r : Option (List ℕ)) × (s' : S) × (sys.read s fd n ≡ (r, s'))
        × IsOpen s'
        × (whole s' ≡ whole s)
        × Reads (Failing s') (whole s) n (pos s) r (pos s')

module _ {S : Type 0} {sys : Sys S} {fd : ℕ} (file : Regular sys fd) where
  open file use {IsOpen, Failing, whole, pos, read_lem}

  -- The stream is open, and its count and size are those of the file.
  pub record IsOk (i : FileIn S) : Type 0 where
    pub handle : i.file.handle ≡ some fd
    pub system_open : IsOpen i.system
    pub counted : i.read_count ≡ pos i.system
    pub sized : i.size ≡ length (whole i.system)
    pub within : pos i.system ≤ length (whole i.system)
    pub small : length (whole i.system) < 2 ^ 63

  abbrev pub rest : FileIn S → List ℕ
  rest i = drop (pos i.system) (whole i.system)

  ge_iff : (a b : ℕ) → a < 2 ^ 63 → b < 2 ^ 63 → (signed_ge a b ≡ true) ↔ (b ≤ a)
  ge_iff a b ha hb = ground arith

  -- The stream is at its end exactly when no byte of the file is left.
  pub file-end : (i : FileIn S) → IsOk i → ((file_stream sys).end i ≡ true) ↔ (rest i ≡ [])
  unfolding file_stream end
  file-end i v =
      let ge = ge_iff i.read_count i.size (omega (arith, v)) (omega (arith, v)) in
      (
        λ h. drop-all (pos i.system) (whole i.system) (omega (arith, ge.0 h, v)),
        λ h. ge.1 (omega (arith, ap length h, length-drop (pos i.system) (whole i.system), v)),
      )

  read-reply :
      (i : FileIn S) (n : ℕ) (r : Option (List ℕ)) (s' : S)
      → i.file.handle ≡ some fd
      → sys.read i.system fd n ≡ (r, s')
      → (file_stream sys).read i n
        ≡ returns
            (r, record i { read_count = Files.InStream.counted sys i.read_count r; system = s' })
  unfolding file_stream read Files.read
  read-reply i n r s' h e = rw h (rw e refl)

  -- A `FileInStream` that has a regular file of fewer than 2^63 bytes open, whose `read_` is the position
  -- in the file and whose `size_` is its length (a second `open` without a `close` breaks the first of
  -- these), over a read(2) that does what its manual says, and a read of 1 to 2^32 - 1 bytes: the call
  -- returns, and the same holds of the stream after it. A
  -- failed read leaves the bytes to come; another gives the next of them, and at least one if there is
  -- one.
  pub file-Delivers :
      (i : FileIn S) (n : ℕ)
      → IsOk i
      → 0 < n
      → n ≤ 2 ^ 32 - 1
      → (r : Option (List ℕ)) × (i' : FileIn S) × ((file_stream sys).read i n ≡ returns (r, i'))
        × IsOk i'
        × Delivers (Failing i'.system) n (rest i) r (rest i')
  file-Delivers i n v some_bytes few = go (read_lem i.system n v.system_open v.within some_bytes)
    where
      go :
          (r : Option (List ℕ)) × (s' : S) × (sys.read i.system fd n ≡ (r, s'))
            × IsOpen s'
            × (whole s' ≡ whole i.system)
            × Reads (Failing s') (whole i.system) n (pos i.system) r (pos s')
          → (r : Option (List ℕ)) × (i' : FileIn S) × ((file_stream sys).read i n ≡ returns (r, i'))
            × IsOk i'
            × Delivers (Failing i'.system) n (rest i) r (rest i')
      go (none, s', e, ok, same, (stays, failing)) = (
        none,
        record i { system = s' },
        read-reply i n none s' v.handle e,
        record {
          handle = v.handle;
          system_open = ok;
          counted = v.counted ∙ sym stays;
          sized = v.sized ∙ ap length (sym same);
          within = rw (stays, same) v.within;
          small = rw same v.small;
        },
        (rw (stays, same) refl, failing),
      )
      go (some bytes, s', e, ok, same, (cut, short, moves, inside, progress)) = (
        some bytes,
        record i { read_count = add64 i.read_count (length bytes); system = s' },
        read-reply i n (some bytes) s' v.handle e,
        record {
          handle = v.handle;
          system_open = ok;
          counted = omega (arith, v, moves, inside);
          sized = v.sized ∙ ap length (sym same);
          within = rw same inside;
          small = rw same v.small;
        },
        (
          rw (moves, same)
              (sym (take-append-drop (length bytes) (rest i))
                ∙ ap (λ l. l ++ drop (length bytes) (rest i)) (sym cut)
                ∙ ap (λ l. bytes ++ l) (drop-drop (pos i.system) (length bytes) (whole i.system))),
          short,
          λ left. progress (omega (arith, left, length-drop (pos i.system) (whole i.system))),
        ),
      )

  -- The contract of an input stream, for reads of 1 to 2^32 - 1 bytes.
  abbrev pub file_source : Source (file_stream sys)
  file_source = record {
    Ok = IsOk;
    Failing = λ i. Failing i.system;
    rest = rest;
    limit = 2 ^ 32 - 1;
    end_lem = file-end;
    read_lem = file-Delivers;
  }
