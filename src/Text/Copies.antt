-- ===== src/Text/Copies.antt =====
-- What the copies between buffers leave, and what the exceptions say.
use ckcore.Base.{
  ℕ, zero, suc, ◌+◌, ◌-◌, ◌%◌, ◌^◌, ◌≤◌, ◌<◌, ◌≡◌, refl, sym, ap, ◌∙◌, List, [], ◌∷◌, ◌++◌, returns,
  leb, length, take, drop, load, store, load_in_range, store_in_range, length-append, arith,
  Bool-cases, inl, inr, All, append_assoc, length-take, length-drop, take-all, drop-append,
  drop-drop, take-append,
}
use ckcore.Text.{
  out_len, widened, narrowed, put_char, text_loop, copy_text, ansi_to_utf16, utf16_to_ansi,
}

-- `f` of each element.
abbrev pub each : (ℕ → ℕ) → List ℕ → List ℕ
each f [] = []
each f (x ∷ xs) = f x ∷ each f xs

-- The characters of a string that fit in a buffer of `size` characters beside the 0.
abbrev pub kept : ℕ → List ℕ → List ℕ
kept size text = take (size - 1) text

load-next :
    (done xs : List ℕ) (x n : ℕ)
    → n ≡ length done
    → load ((done ++ (x ∷ xs)) ++ (0 ∷ [])) n 1 ≡ returns (x ∷ [])
load-next done xs x n e =
    load_in_range ((done ++ (x ∷ xs)) ++ (0 ∷ [])) n 1
      (omega (arith, e, length-append (done ++ (x ∷ xs)) (0 ∷ []), length-append done (x ∷ xs)))
    ∙ rw (append_assoc done (x ∷ xs) (0 ∷ []), drop-append done ((x ∷ xs) ++ (0 ∷ [])) n (sym e))
        refl

store-next :
    (front back : List ℕ) (y c n : ℕ)
    → n ≡ length front
    → store (front ++ (y ∷ back)) n (c ∷ []) ≡ returns ((front ++ (c ∷ [])) ++ back)
store-next front back y c n e =
    let after : drop (n + 1) (front ++ (y ∷ back)) ≡ back =
      sym (drop-drop n 1 (front ++ (y ∷ back)))
      ∙ ap (drop 1) (drop-append front (y ∷ back) n (sym e)) in
    store_in_range (front ++ (y ∷ back)) n (c ∷ [])
      (omega (arith, e, length-append front (y ∷ back)))
    ∙ rw (after, take-append front (y ∷ back) n (sym e)) refl

-- The 0 is put behind what was copied.
store-end :
    (front back : List ℕ) (n : ℕ)
    → n ≡ length front
    → 0 < length back
    → store (front ++ back) n (0 ∷ []) ≡ returns (front ++ (0 ∷ drop 1 back))
store-end front [] n e pos = absurd (omega arith)
store-end front (y ∷ back) n e pos =
    store-next front back y 0 n e ∙ rw (append_assoc front (0 ∷ []) back) refl

length-each : (f : ℕ → ℕ) (xs : List ℕ) → length (each f xs) ≡ length xs
length-each f [] = refl
length-each f (x ∷ xs) = ap suc (length-each f xs)

module _ (convert : ℕ → ℕ) where
  put_char-next :
      (done xs front back : List ℕ) (x y n : ℕ)
      → n ≡ length done
      → n ≡ length front
      → put_char convert (done ++ (x ∷ xs)) (front ++ (y ∷ back)) n
        ≡ returns ((front ++ (convert x ∷ [])) ++ back)
  unfolding put_char
  put_char-next done xs front back x y n e e' =
      rw (load-next done xs x n e, store-next front back y (convert x) n e') refl

  -- The characters `cs` are put behind `front`, over `back`.
  text_loop-returns :
      (n i : ℕ) (done cs front back : List ℕ)
      → i ≡ length done
      → i ≡ length front
      → n ≤ length cs
      → n ≤ length back
      → text_loop convert n i (done ++ cs) (front ++ back)
        ≡ returns (front ++ (each convert (take n cs) ++ drop n back))
  unfolding text_loop
  text_loop-returns zero i done cs front back e e' few room = refl
  text_loop-returns (suc n) i done [] front back e e' few room = absurd (omega arith)
  text_loop-returns (suc n) i done (x ∷ cs) front [] e e' few room = absurd (omega arith)
  text_loop-returns (suc n) i done (x ∷ cs) front (y ∷ back) e e' few room =
      let rest =
        text_loop-returns n (i + 1) (done ++ (x ∷ [])) cs (front ++ (convert x ∷ [])) back
          (omega (arith, e, length-append done (x ∷ [])))
          (omega (arith, e', length-append front (convert x ∷ []))) (omega arith) (omega arith) in
      rw (put_char-next done cs front back x y i e e') (
        rw (sym (append_assoc done (x ∷ []) cs)) refl
        ∙ rest
        ∙ ap returns (append_assoc front (convert x ∷ []) _))

  -- What does not fit beside the 0 is left out.
  out_len-kept :
      (text : List ℕ) (size : ℕ)
      → 0 < size
      → size < 2 ^ 31
      → (out_len (length text) size ≤ length text)
        × (out_len (length text) size < size)
        × (take (out_len (length text) size) text ≡ kept size text)
  unfolding out_len
  out_len-kept text size pos small = elim (Bool-cases (leb size (length text))) [
    | inl e ↦
        let last : (size + 2 ^ 64 - 1) % 2 ^ 64 ≡ size - 1 = omega arith in
        rw (e, last) (ground (arith, e), omega arith, refl)
    | inr e ↦
        let short : length text ≤ size - 1 = ground (arith, e) in
        rw e (
          omega arith,
          omega arith,
          take-all (length text) text (omega arith) ∙ sym (take-all (size - 1) text short),
        )
  ]

  copy_text-kept :
      (text buf : List ℕ)
      → 0 < length buf
      → length buf < 2 ^ 31
      → (rest : List ℕ) × (copy_text convert text buf
          ≡ returns (each convert (kept (length buf) text) ++ (0 ∷ rest)))
  unfolding copy_text
  copy_text-kept text buf pos small =
      let n = out_len (length text) (length buf) in
      let (few, room, is) = out_len-kept text (length buf) pos small in
      let loop = text_loop-returns n 0 [] text [] buf refl refl few (omega arith) in
      let end =
        store-end (each convert (take n text)) (drop n buf) n
          (omega (arith, length-each convert (take n text), length-take n text))
          (omega (arith, length-drop n buf)) in
      (drop 1 (drop n buf), rw (loop, end, is) refl)

each-each : (text : List ℕ) → All (λ c. c < 2 ^ 8) text → each narrowed (each widened text) ≡ text
unfolding narrowed widened
each-each [] small = refl
each-each (c ∷ cs) (h, small) =
    let back : narrowed (widened c) ≡ c = ground arith in rw (back, each-each cs small) refl

take-each : (f : ℕ → ℕ) (n : ℕ) (xs : List ℕ) → take n (each f xs) ≡ each f (take n xs)
take-each f zero xs = refl
take-each f (suc n) [] = refl
take-each f (suc n) (x ∷ xs) = ap (λ l. f x ∷ l) (take-each f n xs)

All-take : (n : ℕ) (text : List ℕ) → All (λ c. c < 2 ^ 8) text → All (λ c. c < 2 ^ 8) (take n text)
All-take zero text small = tt
All-take (suc n) [] small = tt
All-take (suc n) (x ∷ xs) (h, small) = (h, All-take n xs small)

-- For buffers of at least one character and of less than 2^31: `ansi_to_utf16` of a string of bytes, and
-- then `utf16_to_ansi` of what it gives, stay within their buffers and their strings, end what they
-- give with a 0, and leave the bytes of the string that fit in both buffers beside the 0.
pub utf16_to_ansi-ansi_to_utf16 :
    (text utf ansi : List ℕ)
    → All (λ c. c < 2 ^ 8) text
    → 0 < length utf
    → length utf < 2 ^ 31
    → 0 < length ansi
    → length ansi < 2 ^ 31
    → (wide : List ℕ) × (more : List ℕ) × (rest : List ℕ) × (ansi_to_utf16 text utf
        ≡ returns (wide ++ (0 ∷ more)))
      × (utf16_to_ansi wide ansi
          ≡ returns (kept (length ansi) (kept (length utf) text) ++ (0 ∷ rest)))
unfolding ansi_to_utf16 utf16_to_ansi
utf16_to_ansi-ansi_to_utf16 text utf ansi small pos few pos' few' =
    let cut = kept (length utf) text in
    let (more, is) = copy_text-kept widened text utf pos few in
    let (rest, is') = copy_text-kept narrowed (each widened cut) ansi pos' few' in
    let whole : each narrowed (kept (length ansi) (each widened cut)) ≡ kept (length ansi) cut =
      ap (each narrowed) (take-each widened (length ansi - 1) cut)
      ∙ each-each (kept (length ansi) cut)
          (All-take (length ansi - 1) cut (All-take (length utf - 1) text small)) in
    (each widened cut, more, rest, is, is' ∙ rw whole refl)
