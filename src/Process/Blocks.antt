-- ===== src/Process/Blocks.antt =====
-- How the output of a process is split into blocks.
use ckcore.Base.{
  ℕ, ◌<◌, ◌≡◌, refl, sym, ap, ◌∙◌, Bool, true, false, some, List, [], ◌∷◌, ◌++◌, append-nil,
  append_assoc, if◌then◌else◌, length, arith, Bool-cases, inl, inr, All, All-append,
}
use ckcore.Process.{
  Process, Event, is_delim, completed, put_char, split_blocks, report, put_stdout, put_stderr,
}
use ckcore.Process.CommandLine.{solid}

module _ (delims : List ℕ) where
  -- The text up to the first delimiter, and the texts between the later ones.
  unfoldable pub cut : List ℕ → List ℕ × List (List ℕ)
  cut [] = ([], [])
  cut (c ∷ cs) = let r = cut cs in if is_delim delims c then ([], r.0 ∷ r.1) else (c ∷ r.0, r.1)

  pub split_blocks_lem :
      (cs block : List ℕ)
      → (split_blocks delims cs block).1 ++ completed (split_blocks delims cs block).0
        ≡ completed (block ++ (cut cs).0) ++ solid (cut cs).1
  unfolding split_blocks put_char cut
  split_blocks_lem [] block = rw (append-nil block, append-nil (completed block)) refl
  split_blocks_lem (c ∷ cs) block = elim (Bool-cases (is_delim delims c)) [
    | inl e ↦
        rw (e, append-nil block)
          (append_assoc (completed block) _ _
            ∙ ap (λ l. completed block ++ l) (split_blocks_lem cs []))
    | inr e ↦
        rw (e) (
          split_blocks_lem cs (block ++ (c ∷ []))
          ∙ rw (append_assoc block (c ∷ []) (cut cs).0) refl)
  ]

  pub split_blocks-append :
      (xs ys block : List ℕ)
      → split_blocks delims (xs ++ ys) block ≡ (
        (split_blocks delims ys (split_blocks delims xs block).0).0,
        (split_blocks delims xs block).1
            ++ (split_blocks delims ys (split_blocks delims xs block).0).1,
      )
  unfolding split_blocks
  split_blocks-append [] ys block = refl
  split_blocks-append (x ∷ xs) ys block =
      rw (split_blocks-append xs ys (put_char delims x block).0) (
        ap
          (λ l.
            ((split_blocks delims ys (split_blocks delims xs (put_char delims x block).0).0).0, l))
          (sym (append_assoc (put_char delims x block).1 _ _)))

  -- A text without delimiters, and such a text that is not empty.
  abbrev pub IsWhole : List ℕ → Type 0
  IsWhole = All (λ c. is_delim delims c ≡ false)

  abbrev pub IsBlock : List ℕ → Type 0
  IsBlock b = (0 < length b) × IsWhole b

  completed-IsBlock : (b : List ℕ) → IsWhole b → All IsBlock (completed b)
  unfolding completed
  completed-IsBlock [] w = tt
  completed-IsBlock (c ∷ cs) w = ((omega arith, w), tt)

  put_char-IsWhole :
      (c : ℕ) (block : List ℕ)
      → IsWhole block
      → IsWhole (put_char delims c block).0 × All IsBlock (put_char delims c block).1
  unfolding put_char
  put_char-IsWhole c block w = elim (Bool-cases (is_delim delims c)) [
    | inl e ↦ rw e (tt, completed-IsBlock block w)
    | inr e ↦ rw e (All-append (λ d. is_delim delims d ≡ false) block (c ∷ []) w (e, tt), tt)
  ]

  pub split_blocks-IsWhole :
      (cs block : List ℕ)
      → IsWhole block
      → IsWhole (split_blocks delims cs block).0 × All IsBlock (split_blocks delims cs block).1
  unfolding split_blocks
  split_blocks-IsWhole [] block w = (w, tt)
  split_blocks-IsWhole (c ∷ cs) block w =
      let step = put_char-IsWhole c block w in
      let rest = split_blocks-IsWhole cs (put_char delims c block).0 step.0 in
      (rest.0, All-append IsBlock (put_char delims c block).1 _ step.1 rest.1)

pub report-append :
    (invalid : Bool) (xs ys : List (List ℕ))
    → report invalid (xs ++ ys) ≡ report invalid xs ++ report invalid ys
unfolding report
report-append invalid [] ys = refl
report-append true (x ∷ xs) ys = report-append true xs ys
report-append false (x ∷ xs) ys = ap (λ l. Event.output x ∷ l) (report-append false xs ys)

abbrev pub concat : List (List ℕ) → List ℕ
concat [] = []
concat (xs ∷ xss) = xs ++ concat xss

-- Reads of standard output, and of standard error, that give these bytes in turn.
unfoldable pub reads_out : List (List ℕ) → Process → Process × List Event
reads_out [] p = (p, [])
reads_out (bytes ∷ more) p =
    let r = put_stdout (some bytes) p in let rest = reads_out more r.1 in (rest.0, r.2 ++ rest.1)

unfoldable pub reads_err : List (List ℕ) → Process → Process × List Event
reads_err [] p = (p, [])
reads_err (bytes ∷ more) p =
    let r = put_stderr (some bytes) p in let rest = reads_err more r.1 in (rest.0, r.2 ++ rest.1)

module _ (p : Process) where
  -- The blocks that a text completes, and what it leaves, where `block` is left from before.
  abbrev pub split_of : List ℕ → List ℕ → List ℕ × List (List ℕ)
  split_of block text = split_blocks p.block_delims text block

  abbrev pub after_out : List ℕ → Process × List Event
  after_out text =
      let r = split_of p.block_buffer_out text in
      (record p { block_buffer_out = r.0 }, report p.invalid_inheritor r.1)

  abbrev pub after_err : List ℕ → Process × List Event
  after_err text =
      let r = split_of p.block_buffer_err text in
      (record p { block_buffer_err = r.0 }, report p.invalid_inheritor r.1)

reads_out_lem :
    (chunks : List (List ℕ)) (p : Process) → reads_out chunks p ≡ after_out p (concat chunks)
unfolding reads_out put_stdout
reads_out_lem [] p = unfold split_blocks report in refl
reads_out_lem (bytes ∷ more) p =
    rw
      (
        reads_out_lem more (put_stdout (some bytes) p).1,
        split_blocks-append p.block_delims bytes (concat more) p.block_buffer_out,
        report-append p.invalid_inheritor (split_of p p.block_buffer_out bytes).1
            (split_of p (split_of p p.block_buffer_out bytes).0 (concat more)).1,
      )
      refl

reads_err_lem :
    (chunks : List (List ℕ)) (p : Process) → reads_err chunks p ≡ after_err p (concat chunks)
unfolding reads_err put_stderr
reads_err_lem [] p = unfold split_blocks report in refl
reads_err_lem (bytes ∷ more) p =
    rw
      (
        reads_err_lem more (put_stderr (some bytes) p).1,
        split_blocks-append p.block_delims bytes (concat more) p.block_buffer_err,
        report-append p.invalid_inheritor (split_of p p.block_buffer_err bytes).1
            (split_of p (split_of p p.block_buffer_err bytes).0 (concat more)).1,
      )
      refl

-- However the reads cut the output, in which a delimiter ends a text: what is reported and then what is
-- kept are the texts of what was kept before and all that was read, without the texts that are empty.
-- This is the same for standard output and standard error.
pub reads-cut :
    (chunks : List (List ℕ)) (p : Process)
    → (out : List (List ℕ)) × (err : List (List ℕ)) × ((reads_out chunks p).1
        ≡ report p.invalid_inheritor out)
      × (out ++ completed (reads_out chunks p).0.block_buffer_out
          ≡ completed (p.block_buffer_out ++ (cut p.block_delims (concat chunks)).0)
            ++ solid (cut p.block_delims (concat chunks)).1)
      × ((reads_err chunks p).1 ≡ report p.invalid_inheritor err)
      × (err ++ completed (reads_err chunks p).0.block_buffer_err
          ≡ completed (p.block_buffer_err ++ (cut p.block_delims (concat chunks)).0)
            ++ solid (cut p.block_delims (concat chunks)).1)
reads-cut chunks p =
    rw (reads_out_lem chunks p, reads_err_lem chunks p)
      (
        (split_of p p.block_buffer_out (concat chunks)).1,
        (split_of p p.block_buffer_err (concat chunks)).1,
        refl,
        split_blocks_lem p.block_delims (concat chunks) p.block_buffer_out,
        refl,
        split_blocks_lem p.block_delims (concat chunks) p.block_buffer_err,
      )
