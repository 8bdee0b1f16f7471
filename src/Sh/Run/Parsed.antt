-- ===== src/Sh/Run/Parsed.antt =====
-- The redirections of parsed commands, and the shell's whole run over its input.
use operating_systems_projec.Base.{
  All, ℕ, zero, suc, ◌+◌, ◌*◌, inl, inr, Bool, true, false, not, List, [], ◌∷◌, arith, leb, ◌==◌,
  if◌then◌else◌, Bool-cases, length,
}
use operating_systems_projec.Sh.{
  Cmd, exec, redir, pipe, list, back, Outcome, parsed, syntax, no_fuel, gettoken, peek, redirected,
  parseredirs, add_arg, parse_args, parse_simple, parse_backs, line_rest, pipe_rest, block_rest,
  parseline, parsepipe, parseexec, parseblock, parsecmd, skip_blanks, less, greater, tok_word,
  enders, maxargs, ◌>>=◌, execcmd,
}
use operating_systems_projec.Sh.Run.{Env, Runs, followed, run_parsed, is_cd, main}
use operating_systems_projec.Sh.Run.Ends.{
  std, HasStd, RedirsStd, fork1-HasStd, All-followed, runcmd-HasStd,
}

-- A parsed command has redirections of standard input and output only.
abbrev Makes : Outcome Cmd → Type 0
Makes (parsed cmd s) = RedirsStd cmd
Makes syntax = Unit
Makes no_fuel = Unit

Makes->>= :
    (m : Outcome Cmd) (f : Cmd × List ℕ → Outcome Cmd)
    → Makes m
    → ((cmd : Cmd) (s : List ℕ) → RedirsStd cmd → Makes (f (cmd, s)))
    → Makes (m >>= f)
Makes->>= (parsed cmd s) f h g = g cmd s h
Makes->>= syntax f h g = tt
Makes->>= no_fuel f h g = tt

Makes-if : (b : Bool) (x y : Outcome Cmd) → Makes x → Makes y → Makes (if b then x else y)
Makes-if true x y h g = h
Makes-if false x y h g = g

redirected-RedirsStd :
    (cmd : Cmd) (tok : ℕ) (file : List ℕ) → RedirsStd cmd → RedirsStd (redirected cmd tok file)
redirected-RedirsStd cmd tok file h = elim (Bool-cases (tok == less)) [
  | inl e ↦ rw e (omega arith, h)
  | inr e ↦ rw e (omega arith, h)
]

add_arg-RedirsStd : (cmd : Cmd) (word : List ℕ) → RedirsStd cmd → RedirsStd (add_arg cmd word)
unfolding add_arg
add_arg-RedirsStd (exec argv) word h = tt
add_arg-RedirsStd (redir cmd file mode fd) word h = (h.0, add_arg-RedirsStd cmd word h.1)
add_arg-RedirsStd (pipe left right) word h = h
add_arg-RedirsStd (list left right) word h = h
add_arg-RedirsStd (back cmd) word h = h

parseredirs-Makes : (f : ℕ) (cmd : Cmd) (s : List ℕ) → RedirsStd cmd → Makes (parseredirs f cmd s)
unfolding parseredirs
parseredirs-Makes zero cmd s h = tt
parseredirs-Makes (suc f) cmd s h =
    let token = gettoken s in
    let file = gettoken token.1 in
    Makes-if (peek s (less ∷ greater ∷ [])) _ _
      (Makes-if (file.0.tok == tok_word) _ _
        (parseredirs-Makes f (redirected cmd token.0.tok file.0.word) file.1
          (redirected-RedirsStd cmd token.0.tok file.0.word h))
        tt)
      h

parse_args-Makes :
    (f argc : ℕ) (cmd : Cmd) (s : List ℕ) → RedirsStd cmd → Makes (parse_args f argc cmd s)
unfolding parse_args
parse_args-Makes zero argc cmd s h = tt
parse_args-Makes (suc f) argc cmd s h =
    let token = gettoken s in
    Makes-if (peek s enders) _ _ h (
      Makes-if (token.0.tok == 0) _ _ h (
        Makes-if (not (token.0.tok == tok_word)) _ _ tt (
          Makes-if (leb maxargs (argc + 1)) _ _ tt (
            Makes->>= (parseredirs (length token.1 + 1) (add_arg cmd token.0.word) token.1)
              (λ r. parse_args f (argc + 1) (r.0) (r.1))
              (parseredirs-Makes (length token.1 + 1) (add_arg cmd token.0.word) token.1
                (add_arg-RedirsStd cmd token.0.word h))
              (λ cmd' s' h'. parse_args-Makes f (argc + 1) cmd' s' h')))))

parse_simple-Makes : (s : List ℕ) → Makes (parse_simple s)
unfolding parse_simple
parse_simple-Makes s =
    Makes->>= (parseredirs (length s + 1) execcmd s)
      (λ r. parse_args (length (r.1) + 1) 0 (r.0) (r.1))
      (parseredirs-Makes (length s + 1) execcmd s tt)
      (λ cmd s' h. parse_args-Makes (length s' + 1) 0 cmd s' h)

parse_backs-Makes : (f : ℕ) (cmd : Cmd) (s : List ℕ) → RedirsStd cmd → Makes (parse_backs f cmd s)
unfolding parse_backs
parse_backs-Makes zero cmd s h = tt
parse_backs-Makes (suc f) cmd s h =
    Makes-if (peek s (38 ∷ [])) _ _ (parse_backs-Makes f (back cmd) (gettoken s).1 h) h

line_rest-Makes :
    (next : List ℕ → Outcome Cmd) (cmd : Cmd) (s : List ℕ)
    → ((t : List ℕ) → Makes (next t))
    → RedirsStd cmd
    → Makes (line_rest next cmd s)
unfolding line_rest
line_rest-Makes next cmd s g h =
    Makes-if (peek s (59 ∷ [])) _ _
      (Makes->>= (next (gettoken s).1) (λ r. parsed (list cmd (r.0)) (r.1)) (g (gettoken s).1)
        (λ cmd' s' h'. (h, h')))
      h

pipe_rest-Makes :
    (next : List ℕ → Outcome Cmd) (cmd : Cmd) (s : List ℕ)
    → ((t : List ℕ) → Makes (next t))
    → RedirsStd cmd
    → Makes (pipe_rest next cmd s)
unfolding pipe_rest
pipe_rest-Makes next cmd s g h =
    Makes-if (peek s (124 ∷ [])) _ _
      (Makes->>= (next (gettoken s).1) (λ r. parsed (pipe cmd (r.0)) (r.1)) (g (gettoken s).1)
        (λ cmd' s' h'. (h, h')))
      h

block_rest-Makes : (cmd : Cmd) (s : List ℕ) → RedirsStd cmd → Makes (block_rest cmd s)
unfolding block_rest
block_rest-Makes cmd s h =
    Makes-if (peek s (41 ∷ [])) _ _ (parseredirs-Makes (length s + 1) cmd (gettoken s).1 h) tt

mutual
  unfolding parseline parsepipe parseexec parseblock

  parseline-Makes : (f : ℕ) (s : List ℕ) → Makes (parseline f s)
  parseline-Makes zero s = tt
  parseline-Makes (suc f) s =
      Makes->>= (parsepipe f s)
        (λ r. parse_backs (length (r.1) + 1) (r.0) (r.1) >>= λ q.
          line_rest (λ t. parseline f t) (q.0) (q.1))
        (parsepipe-Makes f s)
        (λ first s1 h1.
          Makes->>= (parse_backs (length s1 + 1) first s1)
            (λ q. line_rest (λ t. parseline f t) (q.0) (q.1))
            (parse_backs-Makes (length s1 + 1) first s1 h1)
            (λ cmd s2 h2. line_rest-Makes (λ t. parseline f t) cmd s2 (parseline-Makes f) h2))

  parsepipe-Makes : (f : ℕ) (s : List ℕ) → Makes (parsepipe f s)
  parsepipe-Makes zero s = tt
  parsepipe-Makes (suc f) s =
      Makes->>= (parseexec f s) (λ r. pipe_rest (λ t. parsepipe f t) (r.0) (r.1))
        (parseexec-Makes f s)
        (λ cmd s1 h. pipe_rest-Makes (λ t. parsepipe f t) cmd s1 (parsepipe-Makes f) h)

  parseexec-Makes : (f : ℕ) (s : List ℕ) → Makes (parseexec f s)
  parseexec-Makes zero s = tt
  parseexec-Makes (suc f) s =
      Makes-if (peek s (40 ∷ [])) _ _ (parseblock-Makes f s) (parse_simple-Makes s)

  parseblock-Makes : (f : ℕ) (s : List ℕ) → Makes (parseblock f s)
  parseblock-Makes zero s = tt
  parseblock-Makes (suc f) s =
      Makes-if (peek s (40 ∷ [])) _ _
        (Makes->>= (parseline f (gettoken s).1) (λ r. block_rest (r.0) (r.1))
          (parseline-Makes f (gettoken s).1) (λ cmd s' h. block_rest-Makes cmd s' h))
        tt

parsecmd-Makes : (line : List ℕ) → Makes (parsecmd line)
unfolding parsecmd
parsecmd-Makes line =
    Makes->>= (parseline (4 * length line + 4) line)
      (λ r. elim (skip_blanks (r.1)) as (λ x. Outcome Cmd) [
        | [] ↦ parsed (r.0) []
        | c ∷ s ↦ syntax
      ])
      (parseline-Makes (4 * length line + 4) line) (λ cmd s h. whole (skip_blanks s) cmd h)
  where
    whole :
        (t : List ℕ) (cmd : Cmd)
        → RedirsStd cmd
        → Makes (elim t as (λ x. Outcome Cmd) [ [] ↦ parsed cmd [] | c ∷ s ↦ syntax ])
    whole [] cmd h = h
    whole (c ∷ s) cmd h = tt

run_parsed-HasStd :
    (env : Env) (o : Outcome Cmd) (a b c t : ℕ)
    → Makes o
    → All (HasStd c) (run_parsed env (std a b c) o t).0
run_parsed-HasStd env (parsed cmd s) a b c t h = runcmd-HasStd env cmd a b c t h
run_parsed-HasStd env syntax a b c t h = tt
run_parsed-HasStd env no_fuel a b c t h = tt

HasStd-if :
    (y : Bool) (c : ℕ) (q r : Runs)
    → All (HasStd c) q.0
    → All (HasStd c) r.0
    → All (HasStd c) (if y then q else r).0
HasStd-if true c q r h g = h
HasStd-if false c q r h g = g

-- From a shell that has exactly the three standard descriptors open, whatever the lines of its
-- input and however the kernel answers, every program that it starts has exactly those three open:
-- a program of a pipe keeps no end of it besides its standard input or output, and the standard
-- error of all of them is the shell's.
pub main-HasStd :
    (env : Env) (lines : List (List ℕ)) (a b c t : ℕ)
    → All (HasStd c) (main env lines (std a b c) t).0
unfolding main
main-HasStd env [] a b c t = tt
main-HasStd env ([] ∷ lines) a b c t = tt
main-HasStd env ((ch ∷ line) ∷ lines) a b c t =
    let o = parsecmd (ch ∷ line) in
    HasStd-if (is_cd (ch ∷ line)) c (main env lines (std a b c) (t + 1)) _
      (main-HasStd env lines a b c (t + 1))
      (fork1-HasStd env t c (run_parsed env (std a b c) o)
        (λ r. followed r (λ u. main env lines (std a b c) u))
        (λ u. run_parsed-HasStd env o a b c u (parsecmd-Makes (ch ∷ line)))
        (λ r h.
          All-followed c r (λ u. main env lines (std a b c) u) h
            (λ u. main-HasStd env lines a b c u)))
