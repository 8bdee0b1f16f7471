-- ===== src/Sh/Tests.antt =====
-- Runs of the shell's parser.
use operating_systems_projec.Base.{ℕ, ◌≡◌, refl, ◌⊎◌, true, List, [], ◌∷◌, All}
use operating_systems_projec.Sh.{
  Cmd, line_rest, pipe_rest, block_rest, is_in, exec, redir, pipe, list, back, parsed, syntax,
  gettoken, parseline, parsecmd, split_word, skip_blanks, peek, parse_simple, parseredirs,
  parse_args, token_at, parse_backs, add_arg,
}
use operating_systems_projec.File.{fdalloc, fdalloc_from}
use operating_systems_projec.Sh.Run.{Env, is_cd, main, runcmd, pipe_fds, dup, with_file}
use operating_systems_projec.Sh.Run.Ends.{std, HasStd}
use operating_systems_projec.Sh.Run.Parsed.{main-HasStd}
use operating_systems_projec.Sh.Ends.{parsecmd-ends}

-- `ls|wc>f&;a`
abbrev line : List ℕ
line = 108 ∷ 115 ∷ 124 ∷ 119 ∷ 99 ∷ 62 ∷ 102 ∷ 38 ∷ 59 ∷ 97 ∷ []

parsecmd_run :
    parsecmd line
    ≡ parsed
        (list
          (back (
            pipe
              (exec ((108 ∷ 115 ∷ []) ∷ []))
              (redir (exec ((119 ∷ 99 ∷ []) ∷ [])) (102 ∷ []) 513 1)))
          (exec ((97 ∷ []) ∷ [])))
        []
unfolding parsecmd parseline line_rest pipe_rest block_rest is_in peek skip_blanks parse_simple
    parseredirs parse_args gettoken token_at split_word parse_backs add_arg
parsecmd_run = refl

-- `(a)b` has characters left.
parsecmd-left_over : parsecmd (40 ∷ 97 ∷ 41 ∷ 98 ∷ []) ≡ syntax
unfolding parsecmd parseline line_rest pipe_rest block_rest is_in peek skip_blanks parse_simple
    parseredirs parse_args gettoken token_at split_word parse_backs
parsecmd-left_over = refl

parsecmd-ends_example : (parsecmd line ≡ syntax) ⊎ ((cmd : Cmd) × (parsecmd line ≡ parsed cmd []))
parsecmd-ends_example = parsecmd-ends line

-- The kernel always says yes.
abbrev willing : Env
willing = record { opens = λ t file mode. true; pipes = λ t. true; forks = λ t. true }

-- `ls|wc` and `cd /`, with files 0 to 2 as the standard descriptors.
abbrev lines : List (List ℕ)
lines = (108 ∷ 115 ∷ 124 ∷ 119 ∷ 99 ∷ []) ∷ (99 ∷ 100 ∷ 32 ∷ 47 ∷ []) ∷ []

main-HasStd_example : All (HasStd 2) (main willing lines (std 0 1 2) 3).0
main-HasStd_example = main-HasStd willing lines 0 1 2 3

-- The fork of the command is call 3, so the pipe's ends are files 4 and 5.
pipe_run :
    (main willing lines (std 0 1 2) 3).0
    ≡ record { argv = (108 ∷ 115 ∷ []) ∷ []; fds = std 0 5 2 }
      ∷ record { argv = (119 ∷ 99 ∷ []) ∷ []; fds = std 4 1 2 }
      ∷ []
unfolding main is_cd runcmd pipe_fds dup with_file fdalloc fdalloc_from parsecmd parseline line_rest
    pipe_rest block_rest is_in peek skip_blanks parse_simple parseredirs parse_args gettoken
    token_at split_word parse_backs add_arg
pipe_run = refl
