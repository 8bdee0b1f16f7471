-- ===== src/Sh/Run/Ends.antt =====
-- The descriptors of the programs that runcmd starts.
use operating_systems_projec.Base.{
  ℕ, zero, suc, ◌+◌, ◌<◌, ◌≡◌, refl, sym, subst, inl, inr, Bool, true, false, not, none, some, List,
  [], ◌∷◌, ◌++◌, arith, ◌==◌, if◌then◌else◌, Bool-cases, replicate, All,
}
use operating_systems_projec.File.{Descriptors, fdalloc, fdalloc_from}
use operating_systems_projec.Sh.{Cmd, exec, redir, pipe, list, back}
use operating_systems_projec.Sh.Run.{
  piped, opened, Env, Started, Runs, close, with_file, dup, open_file, pipe_fds, followed, fork1,
  runcmd,
}

-- Exactly the standard descriptors are open, on these files.
abbrev pub std : ℕ → ℕ → ℕ → Descriptors
std a b c = some a ∷ some b ∷ some c ∷ replicate 13 none

-- A program has exactly the standard descriptors, and its standard error is `c`.
abbrev pub HasStd : ℕ → Started → Type 0
HasStd c p = (a b : ℕ) × (p.fds ≡ std a b c)

-- The redirections are of standard input or output, as the parser makes them.
abbrev pub RedirsStd : Cmd → Type 0
RedirsStd (exec argv) = Unit
RedirsStd (redir cmd file mode fd) = (fd < 2) × RedirsStd cmd
RedirsStd (pipe left right) = RedirsStd left × RedirsStd right
RedirsStd (list left right) = RedirsStd left × RedirsStd right
RedirsStd (back cmd) = RedirsStd cmd

open_file-std :
    (env : Env) (a b c t : ℕ) (file : List ℕ) (mode fd : ℕ)
    → fd < 2
    → open_file env (close (std a b c) fd) file mode t ≡ (
        if not (env.opens t file mode)
        then none
        else some (if fd == 0 then std t b c else std a t c))
unfolding open_file fdalloc fdalloc_from
open_file-std env a b c t file mode zero h = refl
open_file-std env a b c t file mode (suc zero) h = refl
open_file-std env a b c t file mode (suc (suc fd)) h = absurd (omega arith)

All-append :
    {A : Type 0} → (P : A → Type 0) (xs ys : List A) → All P xs → All P ys → All P (xs ++ ys)
All-append P [] ys h g = g
All-append P (x ∷ xs) ys h g = (h.0, All-append P xs ys h.1 g)

-- The two sides of a pipe, if there is one, have its ends as their standard output and input.
piped-std :
    (env : Env) (left right : Descriptors → ℕ → Runs) (a b c t : ℕ)
    → piped env left right t (pipe_fds env (std a b c) t) ≡ (
        if not (env.pipes t)
        then ([], t + 2)
        else fork1 env
            (t + 2)
            (left (std a (t + 1) c))
            (λ r. followed r (λ v. fork1 env v (right (std t b c)) (λ q. q))))
unfolding pipe_fds dup with_file fdalloc fdalloc_from
piped-std env left right a b c t = by_pipe (env.pipes t)
  where
    by_pipe :
        (y : Bool)
        → piped env left right t (
            if not y
            then none
            else some (3, 4, some a ∷ some b ∷ some c ∷ some t ∷ some (t + 1) ∷ replicate 11 none))
          ≡ (if not y
              then ([], t + 2)
              else fork1 env
                  (t + 2)
                  (left (std a (t + 1) c))
                  (λ r. followed r (λ v. fork1 env v (right (std t b c)) (λ q. q))))
    by_pipe true = refl
    by_pipe false = refl

pub fork1-HasStd :
    (env : Env) (t c : ℕ) (child : ℕ → Runs) (then_parent : Runs → Runs)
    → ((u : ℕ) → All (HasStd c) (child u).0)
    → ((r : Runs) → All (HasStd c) r.0 → All (HasStd c) (then_parent r).0)
    → All (HasStd c) (fork1 env t child then_parent).0
fork1-HasStd env t c child then_parent h g = elim (Bool-cases (env.forks t)) [
  | inl e ↦ rw e (g (child (t + 1)) (h (t + 1)))
  | inr e ↦ rw e tt
]

pub All-followed :
    (c : ℕ) (r : Runs) (next : ℕ → Runs)
    → All (HasStd c) r.0
    → ((u : ℕ) → All (HasStd c) (next u).0)
    → All (HasStd c) (followed r next).0
All-followed c (xs, t) next h g = All-append (HasStd c) xs (next t).0 h (g t)

piped-HasStd :
    (env : Env) (left right : Descriptors → ℕ → Runs) (a b c t : ℕ)
    → ((x y u : ℕ) → All (HasStd c) (left (std x y c) u).0)
    → ((x y u : ℕ) → All (HasStd c) (right (std x y c) u).0)
    → All (HasStd c) (piped env left right t (pipe_fds env (std a b c) t)).0
piped-HasStd env left right a b c t h g =
    subst (λ q. All (HasStd c) q.0) (sym (piped-std env left right a b c t))
      (elim (Bool-cases (env.pipes t)) [ inl e ↦ rw e (both) | inr e ↦ rw e tt ])
  where
    both :
        All
          (HasStd c)
          (fork1 env
            (t + 2)
            (left (std a (t + 1) c))
            (λ r. followed r (λ v. fork1 env v (right (std t b c)) (λ q. q)))).0
    both =
        fork1-HasStd env (t + 2) c (left (std a (t + 1) c))
          (λ r. followed r (λ v. fork1 env v (right (std t b c)) (λ q. q))) (h a (t + 1))
          (λ r k.
            All-followed c r (λ v. fork1 env v (right (std t b c)) (λ q. q)) k
              (λ v. fork1-HasStd env v c (right (std t b c)) (λ q. q) (g t b) (λ q m. m)))

opened-HasStd :
    (env : Env) (run : Descriptors → ℕ → Runs) (a b c t : ℕ) (file : List ℕ) (mode fd : ℕ)
    → fd < 2
    → ((x y u : ℕ) → All (HasStd c) (run (std x y c) u).0)
    → All (HasStd c) (opened run t (open_file env (close (std a b c) fd) file mode t)).0
opened-HasStd env run a b c t file mode fd l h =
    subst (λ o. All (HasStd c) (opened run t o).0) (sym (open_file-std env a b c t file mode fd l))
      (by_answer (env.opens t file mode) (fd == 0))
  where
    by_answer :
        (y z : Bool)
        → All
            (HasStd c)
            (opened run t (if not y then none else some (if z then std t b c else std a t c))).0
    by_answer false z = tt
    by_answer true true = h t b (t + 1)
    by_answer true false = h a t (t + 1)

-- Started by a shell that has exactly the three standard descriptors open, every program of a
-- command whose redirections are of descriptors 0 and 1 has exactly those three open as well,
-- however the kernel answers: no end of a pipe is left open besides the one that is its standard
-- input or output, and its standard error is the shell's.
pub runcmd-HasStd :
    (env : Env) (cmd : Cmd) (a b c t : ℕ)
    → RedirsStd cmd
    → All (HasStd c) (runcmd env cmd (std a b c) t).0
unfolding runcmd
runcmd-HasStd env (exec []) a b c t r = tt
runcmd-HasStd env (exec (path ∷ argv)) a b c t r = ((a, b, refl), tt)
runcmd-HasStd env (redir cmd file mode fd) a b c t r =
    opened-HasStd env (λ o u. runcmd env cmd o u) a b c t file mode fd r.0
      (λ x y u. runcmd-HasStd env cmd x y c u r.1)
runcmd-HasStd env (list left right) a b c t r =
    fork1-HasStd env t c (λ u. runcmd env left (std a b c) u)
      (λ q. followed q (λ u. runcmd env right (std a b c) u))
      (λ u. runcmd-HasStd env left a b c u r.0)
      (λ q h.
        All-followed c q (λ u. runcmd env right (std a b c) u) h
          (λ u. runcmd-HasStd env right a b c u r.1))
runcmd-HasStd env (pipe left right) a b c t r =
    piped-HasStd env (λ o u. runcmd env left o u) (λ o u. runcmd env right o u) a b c t
      (λ x y u. runcmd-HasStd env left x y c u r.0) (λ x y u. runcmd-HasStd env right x y c u r.1)
runcmd-HasStd env (back cmd) a b c t r =
    fork1-HasStd env t c (λ u. runcmd env cmd (std a b c) u) (λ q. q)
      (λ u. runcmd-HasStd env cmd a b c u r) (λ q h. h)
