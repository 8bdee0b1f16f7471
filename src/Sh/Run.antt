-- ===== src/Sh/Run.antt =====
-- runcmd and main of sh.c: which programs a command starts, and with which descriptors. The
-- descriptors of a process are those of File, by the open files' numbers; the kernel's answers
-- depend on a clock that counts the calls, and a file or a pipe end that is opened at a time has
-- that time as its number.
pub mod Ends
pub mod Parsed
use operating_systems_projec.Base.{
  ℕ, zero, suc, ◌+◌, ◌-◌, ◌*◌, ◌/◌, ◌%◌, ◌^◌, ◌≤◌, ◌<◌, min, ◌≡◌, refl, sym, ap, subst, ◌∙◌, ◌≢◌,
  ◌↔◌, ◌⊎◌, inl, inr, Bool, true, false, ◌&&◌, ◌||◌, not, Option, none, some, List, [], ◌∷◌, ◌++◌,
  append-nil, append_assoc, arith, ltb, leb, ◌==◌, if◌then◌else◌, ltb→lt, lt→ltb, leb→le, ==→eq,
  ==_refl, ==_ne, tests, Bool-cases, Option-cases, update, length, get_elem?, get_or, set, take,
  drop, replicate, length-append, length-set, get_elem?-set_self, get_elem?-set_ne, get_or-set_self,
  get_or-set_ne, length-replicate, length-take, take-append-drop, length-drop, get_or-take,
  get_or-drop, All-take, All-drop, All, NotIn, Distinct, Result, ok, panic, ◌>>=◌, >>=-eq-ok, ℤ,
  pos, negsuc,
}
use operating_systems_projec.File.{Descriptors, fdalloc, fdalloc_from, nofile}
use operating_systems_projec.Sh.{
  Outcome, parsecmd, parsed, syntax, no_fuel, Cmd, exec, redir, pipe, list, back,
}

-- Whether open of a file in a mode, pipe and fork succeed at a time.
pub record Env : Type 0 where
  pub opens : ℕ → List ℕ → ℕ → Bool
  pub pipes : ℕ → Bool
  pub forks : ℕ → Bool

-- A program that is started, and the descriptors that it gets.
pub record Started : Type 0 where
  pub argv : List (List ℕ)
  pub fds : Descriptors

-- What is started, in order, and the time after it.
abbrev pub Runs : Type 0
Runs = List Started × ℕ

abbrev pub close : Descriptors → ℕ → Descriptors
close fds fd = set fds fd none

-- A new descriptor for the open file `f`, if one is left.
unfoldable pub with_file : Descriptors → ℕ → Descriptors
with_file fds f = elim (fdalloc fds f) [ none ↦ fds | some (fd, fds') ↦ fds' ]

unfoldable pub dup : Descriptors → ℕ → Descriptors
dup fds fd = elim (get_or fds fd none) [ none ↦ fds | some f ↦ with_file fds f ]

unfoldable pub open_file : Env → Descriptors → List ℕ → ℕ → ℕ → Option Descriptors
open_file env fds file mode t =
    if not (env.opens t file mode)
    then none
    else elim (fdalloc fds t) [ none ↦ none | some (fd, fds') ↦ some fds' ]

-- The read end and the write end of a new pipe.
unfoldable pub pipe_fds : Env → Descriptors → ℕ → Option (ℕ × ℕ × Descriptors)
pipe_fds env fds t = if not (env.pipes t) then none else elim (fdalloc fds t) [
  | none ↦ none
  | some (p0, fds') ↦ elim (fdalloc fds' (t + 1)) [
    | none ↦ none
    | some (p1, fds2) ↦ some (p0, p1, fds2)
  ]
]

-- The descriptors of the two children of a pipe.
abbrev pub left_fds : Descriptors → ℕ → ℕ → Descriptors
left_fds fds p0 p1 = close (close (dup (close fds 1) p1) p0) p1

abbrev pub right_fds : Descriptors → ℕ → ℕ → Descriptors
right_fds fds p0 p1 = close (close (dup (close fds 0) p0) p0) p1

-- Programs of one part of a command, then those of the next, which begins at the time after it.
abbrev pub followed : Runs → (ℕ → Runs) → Runs
followed (xs, t) next = (xs ++ (next t).0, (next t).1)

-- fork1, and what the child runs; without a child the shell panics.
abbrev pub fork1 : Env → ℕ → (ℕ → Runs) → (Runs → Runs) → Runs
fork1 env t child then_parent =
    if not (env.forks t) then ([], t + 1) else then_parent (child (t + 1))

-- REDIR behind its open, and PIPE behind its pipe; `run`, `left` and `right` are the calls of
-- runcmd.
abbrev pub opened : (Descriptors → ℕ → Runs) → ℕ → Option Descriptors → Runs
opened run t none = ([], t + 1)
opened run t (some fds) = run fds (t + 1)

abbrev pub piped :
    Env
    → (Descriptors → ℕ → Runs)
    → (Descriptors → ℕ → Runs)
    → ℕ
    → Option (ℕ × ℕ × Descriptors)
    → Runs
piped env left right t none = ([], t + 2)
piped env left right t (some (p0, p1, fds)) =
    fork1 env (t + 2) (left (left_fds fds p0 p1))
      (λ r. followed r (λ v. fork1 env v (right (right_fds fds p0 p1)) (λ q. q)))

unfoldable pub runcmd : Env → Cmd → Descriptors → ℕ → Runs
runcmd env (exec []) fds t = ([], t)
runcmd env (exec (path ∷ argv)) fds t = (record { argv = path ∷ argv; fds = fds } ∷ [], t + 1)
runcmd env (redir cmd file mode fd) fds t =
    opened (λ o u. runcmd env cmd o u) t (open_file env (close fds fd) file mode t)
runcmd env (list left right) fds t =
    fork1 env t (λ u. runcmd env left fds u) (λ r. followed r (λ u. runcmd env right fds u))
runcmd env (pipe left right) fds t =
    piped env (λ o u. runcmd env left o u) (λ o u. runcmd env right o u) t (pipe_fds env fds t)
runcmd env (back cmd) fds t = fork1 env t (λ u. runcmd env cmd fds u) (λ r. r)

-- main's test for `cd `, which the shell does itself.
unfoldable pub is_cd : List ℕ → Bool
is_cd line = get_or line 0 0 == b'c' && get_or line 1 0 == b'd' && get_or line 2 0 == b' '

-- `runcmd(parsecmd(buf))`; a line that is no command starts nothing.
abbrev pub run_parsed : Env → Descriptors → Outcome Cmd → ℕ → Runs
run_parsed env fds (parsed cmd s) t = runcmd env cmd fds t
run_parsed env fds syntax t = ([], t)
run_parsed env fds no_fuel t = ([], t)

-- main's loop over the lines up to the end of the input: an empty line is the end.
unfoldable pub main : Env → List (List ℕ) → Descriptors → ℕ → Runs
main env [] fds t = ([], t)
main env ([] ∷ lines) fds t = ([], t)
main env ((ch ∷ line) ∷ lines) fds t =
    if is_cd (ch ∷ line)
    then main env lines fds (t + 1)
    else fork1 env t (run_parsed env fds (parsecmd (ch ∷ line)))
        (λ r. followed r (λ u. main env lines fds u))
