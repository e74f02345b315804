-- ===== src/Process/CommandLine.antt =====
-- `Process::parse_cmd_line` against a description that reads the command line from its end.
use ckcore.Base.{
  ℕ, ◌<◌, ◌≡◌, refl, sym, ap, ◌∙◌, Bool, true, false, not, ◌&&◌, List, [], ◌∷◌, ◌++◌, append-nil,
  append_assoc, ◌==◌, if◌then◌else◌, length, arith, Bool-cases, inl, inr, All,
}
use ckcore.Process.{flushed, completed, parse_loop, parse_cmd_line}

-- The parts that are not empty.
abbrev pub solid : List (List ℕ) → List (List ℕ)
solid [] = []
solid (p ∷ ps) = completed p ++ solid ps

-- The text up to the first space outside quotes, and the texts between the later ones, without the
-- quotes.
unfoldable pub arguments : Bool → List ℕ → List ℕ × List (List ℕ)
arguments in_quote [] = ([], [])
arguments in_quote (c ∷ cs) = elim (c == b'"') [
  | true ↦ arguments (not in_quote) cs
  | false ↦
      let r = arguments in_quote cs in
      if (c == b' ') && not in_quote then ([], r.0 ∷ r.1) else (c ∷ r.0, r.1)
]

flushed_lem : (cur : List ℕ) (res : List (List ℕ)) → flushed cur res ≡ res ++ completed cur
unfolding flushed completed
flushed_lem [] res = sym (append-nil res)
flushed_lem (c ∷ cs) res = refl

parse_loop_lem :
    (cs cur : List ℕ) (q : Bool) (res : List (List ℕ))
    → parse_loop cs cur q res
      ≡ res ++ (completed (cur ++ (arguments q cs).0) ++ solid (arguments q cs).1)
unfolding parse_loop arguments
parse_loop_lem [] cur q res =
    rw (flushed_lem cur res, append-nil cur, append-nil (completed cur)) refl
parse_loop_lem (c ∷ cs) cur q res = elim (Bool-cases (c == b'"')) [
  | inl e ↦ rw (e, parse_loop, arguments) (parse_loop_lem cs cur (not q) res)
  | inr e ↦ elim (Bool-cases ((c == b' ') && not q)) [
    | inl s ↦
        rw
          (
            e,
            s,
            parse_loop,
            arguments,
            parse_loop_lem cs [] q (flushed cur res),
            flushed_lem cur res,
            append-nil cur,
          )
          (append_assoc res (completed cur) _)
    | inr s ↦
        rw
          (
            e,
            s,
            parse_loop,
            arguments,
            parse_loop_lem cs (cur ++ (c ∷ [])) q res,
            append_assoc cur (c ∷ []) (arguments q cs).0,
          )
          refl
  ]
]

-- The arguments of a command line are its parts between the spaces that stand outside quotes,
-- without the quotes and without the parts that are empty.
pub parse_cmd_line-arguments :
    (cmd_line : List ℕ)
    → parse_cmd_line cmd_line
      ≡ completed (arguments false cmd_line).0 ++ solid (arguments false cmd_line).1
unfolding parse_cmd_line
parse_cmd_line-arguments cmd_line = parse_loop_lem cmd_line [] false []

-- The arguments in quotes, each with a space behind it.
abbrev pub quoted : List (List ℕ) → List ℕ
quoted [] = []
quoted (a ∷ args) = b'"' ∷ (a ++ (b'"' ∷ b' ' ∷ quoted args))

-- An argument that can be quoted.
abbrev pub IsPlain : List ℕ → Type 0
IsPlain a = (0 < length a) × All (λ c. (c == b'"') ≡ false) a

arguments-quoted :
    (a cs : List ℕ)
    → All (λ c. (c == b'"') ≡ false) a
    → arguments true (a ++ (b'"' ∷ b' ' ∷ cs))
      ≡ (a, (arguments false cs).0 ∷ (arguments false cs).1)
unfolding arguments
arguments-quoted [] cs h = refl
arguments-quoted (x ∷ a) cs (e, h) = rw (e, arguments, arguments-quoted a cs h) (ground arith)

completed-solid : (a : List ℕ) → 0 < length a → completed a ≡ a ∷ []
unfolding completed
completed-solid [] h = absurd (omega arith)
completed-solid (x ∷ a) h = refl

parse_cmd_line-next :
    (a : List ℕ) (args : List (List ℕ))
    → IsPlain a
    → parse_cmd_line (quoted (a ∷ args)) ≡ a ∷ parse_cmd_line (quoted args)
unfolding arguments
parse_cmd_line-next a args (long, plain) =
    parse_cmd_line-arguments (quoted (a ∷ args))
    ∙ rw (arguments-quoted a (quoted args) plain, completed-solid a long)
        (ap (λ l. a ∷ l) (sym (parse_cmd_line-arguments (quoted args))))

-- Arguments without quotes in them, none of them empty, are read back from the command line that has
-- each of them in quotes, whatever spaces they have.
pub parse_cmd_line-quoted :
    (args : List (List ℕ)) → All IsPlain args → parse_cmd_line (quoted args) ≡ args
unfolding parse_cmd_line parse_loop flushed
parse_cmd_line-quoted [] h = refl
parse_cmd_line-quoted (a ∷ args) (plain, h) =
    parse_cmd_line-next a args plain ∙ ap (λ l. a ∷ l) (parse_cmd_line-quoted args h)
