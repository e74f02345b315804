-- ===== src/Files/InStream.antt =====
-- `FileInStream` and `FileOutStream` of src/filestream.cc.
pub mod Contract
use ckcore.Base.{
  ℕ, ◌+◌, ◌%◌, ◌^◌, Bool, true, false, not, Option, none, some, List, Outcome, returns, leb, ◌==◌,
  if◌then◌else◌, length, add64,
}
use ckcore.Files.{
  Attempt, value, threw, FileMode, open_read, open_write, FileWhence, file_current, file_begin, Sys,
  File, minus_one, test, open2, seek2, size2,
}
use ckcore.Files
use ckcore.Stream.{InStream, OutStream, Whence, current, begin}

-- The fields, beside the system. `size` is -1 where the size is not known.
pub record FileIn (S : Type 0) : Type 0 where
  pub file : File
  pub read_count : ℕ
  pub size : ℕ
  pub system : S

-- `a >= b` of two `tint64`.
abbrev pub signed_ge : ℕ → ℕ → Bool
signed_ge a b = leb ((b + 2 ^ 63) % 2 ^ 64) ((a + 2 ^ 63) % 2 ^ 64)

abbrev pub or_minus_one : Attempt ℕ → ℕ
or_minus_one (value n) = n
or_minus_one threw = minus_one

unfoldable pub file_whence : Whence → FileWhence
file_whence current = file_current
file_whence begin = file_begin

module _ {S : Type 0} (sys : Sys S) where
  unfoldable pub create : List ℕ → S → FileIn S
  create path s =
      let f = Files.create path in
      let r = size2 sys f s in
      record { file = f; read_count = 0; size = or_minus_one r.0; system = r.1 }

  unfoldable pub open_in : FileIn S → Bool × FileIn S
  open_in i =
      let r = size2 sys i.file i.system in
      let o = open2 sys open_read i.file r.1 in
      (o.0, record i { file = o.1; size = or_minus_one r.0; system = o.2 })

  unfoldable pub close : FileIn S → Bool × FileIn S
  close i =
      let c = Files.close sys i.file i.system in
      (c.0, record i { file = c.1; read_count = if c.0 then 0 else i.read_count; system = c.2 })

  unfoldable pub end : FileIn S → Bool
  end i = signed_ge i.read_count i.size

  unfoldable pub seek : FileIn S → ℕ → Whence → Bool × FileIn S
  seek i distance whence =
      let r = seek2 sys i.file i.system distance (file_whence whence) in
      elim r.0 [
        | threw ↦ (false, record i { system = r.1 })
        | value result ↦ (true, record i { read_count = result; system = r.1 })
      ]

  unfoldable pub is_open : FileIn S → Bool
  is_open i = test i.file

  abbrev pub counted : ℕ → Option (List ℕ) → ℕ
  counted n none = n
  counted n (some bytes) = add64 n (length bytes)

  unfoldable pub read : FileIn S → ℕ → Option (List ℕ) × FileIn S
  read i count =
      let r = Files.read sys i.file i.system count in
      (r.0, record i { read_count = counted i.read_count r.0; system = r.1 })

  -- The class as an input stream.
  unfoldable pub file_stream : InStream (FileIn S)
  file_stream = record {
    read = λ i count. returns (read i count);
    size = λ i. if i.size == minus_one then none else some i.size;
    end = end;
    seek = λ i distance whence. returns (seek i distance whence);
  }

  -- `FileOutStream`, whose only field is its file.
  unfoldable pub open_out : File → S → Bool × File × S
  open_out f s = open2 sys open_write f s

  unfoldable pub close_out : File → S → Bool × File × S
  close_out f s = Files.close sys f s

  unfoldable pub write_out : File × S → List ℕ → Option ℕ × (File × S)
  write_out (f, s) bytes = let r = Files.write sys f s bytes in (r.0, (f, r.1))

  unfoldable pub file_sink : OutStream (File × S)
  file_sink = record { write = λ o bytes. returns (write_out o bytes) }
