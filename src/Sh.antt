-- ===== src/Sh.antt =====
-- sh.c: the parser of command lines. The line from a pointer to its end is the list of the
-- characters left, and a pair of pointers to both ends of a word is the word, which nulterminate
-- cuts off. The recursion is on fuel, and a parse that needs more is its own outcome.
pub mod Tokens
pub mod Ends
pub mod Run
mod Tests
use operating_systems_projec.Base.{
  ℕ, zero, suc, ◌+◌, ◌-◌, ◌*◌, ◌/◌, ◌%◌, ◌^◌, ◌≤◌, ◌<◌, min, ◌≡◌, refl, sym, ap, subst, ◌∙◌, ◌≢◌,
  ◌↔◌, ◌⊎◌, inl, inr, Bool, true, false, ◌&&◌, ◌||◌, not, Option, none, some, List, [], ◌∷◌, ◌++◌,
  append-nil, append_assoc, arith, ltb, leb, ◌==◌, if◌then◌else◌, ltb→lt, lt→ltb, leb→le, ==→eq,
  ==_refl, ==_ne, tests, Bool-cases, Option-cases, update, length, get_elem?, get_or, set, take,
  drop, replicate, length-append, length-set, get_elem?-set_self, get_elem?-set_ne, get_or-set_self,
  get_or-set_ne, length-replicate, length-take, take-append-drop, length-drop, get_or-take,
  get_or-drop, All-take, All-drop, All, NotIn, Distinct, Result, ok, panic, >>=-eq-ok, ℤ, pos,
  negsuc,
}

pub data Cmd : Type 0 where
  exec : List (List ℕ) → Cmd
  redir : Cmd → List ℕ → ℕ → ℕ → Cmd
  pipe : Cmd → Cmd → Cmd
  list : Cmd → Cmd → Cmd
  back : Cmd → Cmd

-- The constructors of sh.c.
abbrev pub execcmd : Cmd
execcmd = exec []

abbrev pub redircmd : Cmd → List ℕ → ℕ → ℕ → Cmd
redircmd subcmd file mode fd = redir subcmd file mode fd

abbrev pub pipecmd : Cmd → Cmd → Cmd
pipecmd left right = pipe left right

abbrev pub listcmd : Cmd → Cmd → Cmd
listcmd left right = list left right

abbrev pub backcmd : Cmd → Cmd
backcmd subcmd = back subcmd

-- What is parsed, with the characters left; a panic; or no fuel left.
pub data Outcome (A : Type 0) : Type 0 where
  parsed : A → List ℕ → Outcome A
  syntax : Outcome A
  no_fuel : Outcome A

infixl 5 ◌>>=◌
abbrev pub ◌>>=◌ : {A B : Type 0} → Outcome A → (A × List ℕ → Outcome B) → Outcome B
◌>>=◌ m f = elim m [ parsed a s ↦ f (a, s) | syntax ↦ syntax | no_fuel ↦ no_fuel ]

unfoldable pub is_in : ℕ → List ℕ → Bool
is_in c [] = false
is_in c (d ∷ ds) = c == d || is_in c ds

-- " \t\r\n\v" and "<|>&;()"
abbrev pub whitespace : List ℕ
whitespace = 32 ∷ 9 ∷ 13 ∷ 10 ∷ 11 ∷ []

abbrev pub symbols : List ℕ
symbols = 60 ∷ 124 ∷ 62 ∷ 38 ∷ 59 ∷ 40 ∷ 41 ∷ []

unfoldable pub skip_blanks : List ℕ → List ℕ
skip_blanks [] = []
skip_blanks (c ∷ s) = if is_in c whitespace then skip_blanks s else c ∷ s

-- The word at the start, and the characters behind it.
unfoldable pub split_word : List ℕ → List ℕ × List ℕ
split_word [] = ([], [])
split_word (c ∷ s) =
    let (word, rest) = split_word s in
    if is_in c whitespace || is_in c symbols then ([], c ∷ s) else (c ∷ word, rest)

-- The characters of tokens: 0 at the end of the line, `a` of a word, `+` of `>>`.
abbrev pub tok_word : ℕ
tok_word = 97

abbrev pub tok_append : ℕ
tok_append = 43

abbrev pub less : ℕ
less = 60

abbrev pub greater : ℕ
greater = 62

pub record Token : Type 0 where
  pub tok : ℕ
  pub word : List ℕ

-- The token at the first character `c` that is no blank, and the characters behind it.
unfoldable pub token_at : ℕ → List ℕ → Token × List ℕ
token_at c s =
    let (word, rest) = split_word (c ∷ s) in
    if c == greater
    then (if get_or s 0 0 == greater
        then (record { tok = tok_append; word = [] }, drop 1 s)
        else (record { tok = greater; word = [] }, s))
    else if is_in c symbols
    then (record { tok = c; word = [] }, s)
    else (record { tok = tok_word; word = word }, rest)

unfoldable pub gettoken : List ℕ → Token × List ℕ
gettoken s = elim (skip_blanks s) [
  | [] ↦ (record { tok = 0; word = [] }, [])
  | c ∷ t ↦ let (token, rest) = token_at c t in (token, skip_blanks rest)
]

-- The test of peek; it also skips the blanks.
unfoldable pub peek : List ℕ → List ℕ → Bool
peek s toks = elim (skip_blanks s) [ [] ↦ false | c ∷ t ↦ is_in c toks ]

-- O_WRONLY|O_CREATE
abbrev pub write_mode : ℕ
write_mode = 513

abbrev pub redirected : Cmd → ℕ → List ℕ → Cmd
redirected cmd tok file =
    if tok == less then redircmd cmd file 0 0 else redircmd cmd file write_mode 1

-- parseredirs, `f` rounds at most.
unfoldable pub parseredirs : ℕ → Cmd → List ℕ → Outcome Cmd
parseredirs zero cmd s = no_fuel
parseredirs (suc f) cmd s =
    let (token, s1) = gettoken s in
    let (file, s2) = gettoken s1 in
    let rest = parseredirs f (redirected cmd token.tok file.word) s2 in
    if peek s (less ∷ greater ∷ [])
    then (if file.tok == tok_word then rest else syntax)
    else parsed cmd (skip_blanks s)

-- The argument goes to the command inside of the redirections.
unfoldable pub add_arg : Cmd → List ℕ → Cmd
add_arg (exec argv) word = exec (argv ++ (word ∷ []))
add_arg (redir cmd file mode fd) word = redir (add_arg cmd word) file mode fd
add_arg (pipe left right) word = pipe left right
add_arg (list left right) word = list left right
add_arg (back cmd) word = back cmd

abbrev pub maxargs : ℕ
maxargs = 10

-- "|)&;"
abbrev pub enders : List ℕ
enders = 124 ∷ 41 ∷ 38 ∷ 59 ∷ []

-- parseexec's loop, `f` rounds at most, with `argc` arguments so far.
unfoldable pub parse_args : ℕ → ℕ → Cmd → List ℕ → Outcome Cmd
parse_args zero argc cmd s = no_fuel
parse_args (suc f) argc cmd s =
    let (token, s1) = gettoken s in
    let next = parseredirs (length s1 + 1) (add_arg cmd token.word) s1 >>= λ r.
    parse_args f (argc + 1) (r.0) (r.1) in
    if peek s enders
    then parsed cmd (skip_blanks s)
    else if token.tok == 0
    then parsed cmd s1
    else if not (token.tok == tok_word)
    then syntax
    else if leb maxargs (argc + 1)
    then syntax
    else next

-- parseexec of a line that does not begin with `(`.
unfoldable pub parse_simple : List ℕ → Outcome Cmd
parse_simple s =
    parseredirs (length s + 1) execcmd s >>= λ r. parse_args (length (r.1) + 1) 0 (r.0) (r.1)

-- `while(peek(ps, es, "&"))` of parseline.
unfoldable pub parse_backs : ℕ → Cmd → List ℕ → Outcome Cmd
parse_backs zero cmd s = no_fuel
parse_backs (suc f) cmd s =
    let rest = parse_backs f (backcmd cmd) (gettoken s).1 in
    if peek s (38 ∷ []) then rest else parsed cmd (skip_blanks s)

-- The ends of parseline, parsepipe and parseblock; `next` is the call of itself.
unfoldable pub line_rest : (List ℕ → Outcome Cmd) → Cmd → List ℕ → Outcome Cmd
line_rest next cmd s =
    if peek s (59 ∷ [])
    then (next (gettoken s).1 >>= λ r. parsed (listcmd cmd (r.0)) (r.1))
    else parsed cmd (skip_blanks s)

unfoldable pub pipe_rest : (List ℕ → Outcome Cmd) → Cmd → List ℕ → Outcome Cmd
pipe_rest next cmd s =
    if peek s (124 ∷ [])
    then (next (gettoken s).1 >>= λ r. parsed (pipecmd cmd (r.0)) (r.1))
    else parsed cmd (skip_blanks s)

unfoldable pub block_rest : Cmd → List ℕ → Outcome Cmd
block_rest cmd s =
    if peek s (41 ∷ []) then parseredirs (length s + 1) cmd (gettoken s).1 else syntax

unfoldable mutual
  pub parseline : ℕ → List ℕ → Outcome Cmd
  parseline zero s = no_fuel
  parseline (suc f) s = do
    (first, s1) ← parsepipe f s
    (cmd, s2) ← parse_backs (length s1 + 1) first s1
    line_rest (λ t. parseline f t) cmd s2

  pub parsepipe : ℕ → List ℕ → Outcome Cmd
  parsepipe zero s = no_fuel
  parsepipe (suc f) s = do (cmd, s1) ← parseexec f s; pipe_rest (λ t. parsepipe f t) cmd s1

  pub parseexec : ℕ → List ℕ → Outcome Cmd
  parseexec zero s = no_fuel
  parseexec (suc f) s = if peek s (40 ∷ []) then parseblock f s else parse_simple s

  pub parseblock : ℕ → List ℕ → Outcome Cmd
  parseblock zero s = no_fuel
  parseblock (suc f) s =
      let block = parseline f (gettoken s).1 >>= λ r. block_rest (r.0) (r.1) in
      if peek s (40 ∷ []) then block else syntax

unfoldable pub parsecmd : List ℕ → Outcome Cmd
parsecmd line = parseline (4 * length line + 4) line >>= λ r. elim (skip_blanks (r.1)) [
  | [] ↦ parsed (r.0) []
  | c ∷ s ↦ syntax
]
