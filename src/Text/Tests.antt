-- ===== src/Text/Tests.antt =====
-- A string in buffers that are too small for it, and the messages of exceptions.
use ckcore.Base.{
  ℕ, zero, suc, ◌≡◌, refl, List, [], ◌∷◌, ◌++◌, returns, length, replicate, arith, load, store,
}
use ckcore.Text.{
  out_len, widened, put_char, text_loop, copy_text, ansi_to_utf16, utf16_to_ansi, vformatstr,
  exception2, other, get_except_msg, rethrow_with_pfx,
}
use ckcore.Text.Copies.{kept, utf16_to_ansi-ansi_to_utf16}

abbrev wide_buffer : List ℕ
wide_buffer = replicate 9 7

abbrev small_buffer : List ℕ
small_buffer = replicate 3 7

abbrev abc : List ℕ
abc = b'a' ∷ b'b' ∷ 0xe5 ∷ []

cut_off : ansi_to_utf16 abc small_buffer ≡ returns (b'a' ∷ b'b' ∷ 0 ∷ [])
unfolding ansi_to_utf16 copy_text text_loop put_char out_len widened load store
cut_off = refl

utf16_to_ansi-ansi_to_utf16_example :
    (wide : List ℕ) × (more : List ℕ) × (rest : List ℕ) × (ansi_to_utf16 abc wide_buffer
      ≡ returns (wide ++ (0 ∷ more)))
    × (utf16_to_ansi wide small_buffer
        ≡ returns (kept (length small_buffer) (kept (length wide_buffer) abc) ++ (0 ∷ rest)))
utf16_to_ansi-ansi_to_utf16_example =
    utf16_to_ansi-ansi_to_utf16 abc wide_buffer small_buffer
      (omega arith, (omega arith, (omega arith, tt))) (omega arith) (omega arith) (omega arith)
      (omega arith)

-- A format that gives `e:`.
abbrev vsnprintf : ℕ → ℕ × List ℕ
vsnprintf zero = (2, [])
vsnprintf (suc size) = (2, b'e' ∷ b':' ∷ 0 ∷ [])

prefixed :
    rethrow_with_pfx (other (b'x' ∷ [])) vsnprintf ≡ returns (exception2 (b'e' ∷ b':' ∷ b'x' ∷ []))
unfolding rethrow_with_pfx vformatstr get_except_msg store
prefixed = refl
