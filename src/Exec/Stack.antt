-- ===== src/Exec/Stack.antt =====
-- The user stack that exec makes, with the arguments on it.
use operating_systems_projec.Base.{
  ℕ, ◌+◌, ◌-◌, ◌*◌, ◌/◌, ◌%◌, Option, none, some, List, [], ◌∷◌, ◌++◌, leb, ◌==◌, if◌then◌else◌,
  length, Result, ok, ◌>>=◌,
}
use mathlib.Core.Option
use operating_systems_projec.Fs.Bytes.{byte_of}
use operating_systems_projec.Kalloc.{Kmem, pgsize, word, pg_round_up}
use operating_systems_projec.Vm.{allocuvm, clearpteu}
use operating_systems_projec.Exec.{copyout, maxarg}

-- The bytes of words, little-endian.
unfoldable pub bytes_of : List ℕ → List ℕ
bytes_of [] = []
bytes_of (w ∷ ws) = byte_of w 0 ∷ byte_of w 1 ∷ byte_of w 2 ∷ byte_of w 3 ∷ bytes_of ws

-- Where a string of `n` bytes with its 0 goes: below `sp`, at a multiple of 4.
abbrev pub below : ℕ → ℕ → ℕ
below sp n = (sp + word - n) % word / 4 * 4

abbrev pub with_arg : ℕ → Option (ℕ × List ℕ) → Option (ℕ × List ℕ)
with_arg addr none = none
with_arg addr (some (sp, addrs)) = some (sp, addr ∷ addrs)

-- The loop over the arguments: the stack pointer and the strings' addresses, or `none` at `goto
-- bad`.
unfoldable pub push_args : ℕ → ℕ → ℕ → List (List ℕ) → Kmem → Result (Option (ℕ × List ℕ) × Kmem)
push_args pgdir argc sp [] k = ok (some (sp, []), k)
push_args pgdir argc sp (s ∷ argv) k =
    let sp' = below sp (length s + 1) in
    if leb maxarg argc then ok (none, k) else do
      (done, k') ← copyout k pgdir sp' (s ++ (0 ∷ []))
      (if done
          then (push_args pgdir (argc + 1) sp' argv k' >>= λ r. ok (with_arg sp' r.0, r.1))
          else ok (none, k'))

-- The words of ustack: a fake return address, argc, argv, and the strings' addresses with a final 0.
abbrev pub ustack : ℕ → List ℕ → List ℕ
ustack sp addrs =
    let argc = length addrs in
    0xffffffff ∷ argc ∷ (sp + word - (argc + 1) * 4) % word ∷ (addrs ++ (0 ∷ []))

-- The stack with ustack on it: the stack pointer, or `none`.
unfoldable pub push_frame : ℕ → Option (ℕ × List ℕ) × Kmem → Result (Option ℕ × Kmem)
push_frame pgdir (none, k) = ok (none, k)
push_frame pgdir (some (sp, addrs), k) = do
  let sp' = (sp + word - (3 + length addrs + 1) * 4) % word
  (done, k') ← copyout k pgdir sp' (bytes_of (ustack sp addrs))
  ok (if done then some sp' else none, k')

-- The two pages behind the program, of which the first is no user page, and the stack in the second:
-- the size, the stack pointer if it is there, and the memory.
unfoldable pub build_stack : ℕ → ℕ → ℕ → List (List ℕ) → Kmem → Result (Option (ℕ × ℕ) × Kmem)
build_stack kend pgdir sz argv k = do
  let low = pg_round_up sz
  (sz', k') ← allocuvm kend k pgdir low ((low + 2 * pgsize) % word)
  if sz' == 0 then ok (none, k') else do
    k'' ← clearpteu k' pgdir ((sz' + word - 2 * pgsize) % word)
    pushed ← push_args pgdir 0 sz' argv k''
    (sp, k3) ← push_frame pgdir pushed
    ok (Option.map (λ a. (sz', a)) sp, k3)
