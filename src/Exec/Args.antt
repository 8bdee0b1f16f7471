-- ===== src/Exec/Args.antt =====
-- sys_exec of sysfile.c: the path and the arguments are fetched from the process's memory.
use operating_systems_projec.Base.{
  ℕ, zero, suc, ◌+◌, ◌*◌, ◌%◌, Option, none, some, List, [], ◌∷◌, ◌==◌, if◌then◌else◌,
}
use operating_systems_projec.Fs.{M, pure}
use operating_systems_projec.Fs.Content.{Devsw}
use operating_systems_projec.Kalloc.{Kmem}
use operating_systems_projec.Proc.{Proc}
use operating_systems_projec.Strings.{Memory}
use operating_systems_projec.Args.{User, word, fetchint, fetchstr, argint, argstr}
use operating_systems_projec.Exec.{maxarg}
use operating_systems_projec.Exec.Call.{Reply, failure, exec}

-- The bytes of the string of length `n` at an address.
unfoldable pub string_at : Memory → ℕ → ℕ → List ℕ
string_at m a zero = []
string_at m a (suc n) = m a ∷ string_at m (a + 1) n

-- The loop over the pointers at `uargv` from pointer `i` on, `f` rounds at most: a null pointer
-- ends the arguments, and `none` is the return of -1.
unfoldable pub fetch_args : ℕ → User → ℕ → ℕ → Option (List (List ℕ))
fetch_args zero u uargv i = none
fetch_args (suc f) u uargv i = elim (fetchint u ((uargv + 4 * i) % word)) [
  | none ↦ none
  | some uarg ↦
      let rest = elim (fetchstr u uarg) as (λ x. Option (List (List ℕ))) [
        | none ↦ none
        | some n ↦ elim (fetch_args f u uargv (i + 1)) [
          | none ↦ none
          | some argv ↦ some (string_at u.mem uarg n ∷ argv)
        ]
      ] in
      if uarg == 0 then some [] else rest
]

unfoldable pub exec_args : User → Option (List ℕ × List (List ℕ))
exec_args u = elim (argstr u 0) [
  | none ↦ none
  | some (path, n) ↦ elim (argint u 1) [
    | none ↦ none
    | some uargv ↦ elim (fetch_args maxarg u uargv 0) [
      | none ↦ none
      | some argv ↦ some (string_at u.mem path n, argv)
    ]
  ]
]

unfoldable pub sys_exec : ℕ → ℕ → Devsw → List ℕ → ℕ → Proc → User → Kmem → M Reply
sys_exec kend data_start devsw stale cwd proc u k = elim (exec_args u) [
  | none ↦ pure (failure proc k)
  | some (path, argv) ↦ exec kend data_start devsw stale cwd proc path argv k
]
