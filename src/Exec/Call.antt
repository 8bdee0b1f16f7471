-- ===== src/Exec/Call.antt =====
-- exec: the parts of its run, and what becomes of the process.
use operating_systems_projec.Base.{
  ℕ, Option, none, some, List, [], ◌∷◌, ◌++◌, ◌==◌, if◌then◌else◌, length, take, drop, ℤ, pos,
  negsuc,
}
use operating_systems_projec.Fs.{M, ◌>>=◌, ◌>>◌, pure}
use operating_systems_projec.Fs.Path.{slash}
use operating_systems_projec.Fs.Inodes.{ilock, iunlockput}
use operating_systems_projec.Fs.Content.{Devsw, readi}
use operating_systems_projec.Fs.Dirs.{namei}
use operating_systems_projec.Kalloc.{Kmem}
use operating_systems_projec.Vm.{freevm}
use operating_systems_projec.Proc.{Proc}
use operating_systems_projec.Sysfile.{begin_op, end_op, lift}
use operating_systems_projec.Exec.Stack.{build_stack}
use operating_systems_projec.Exec.{Load, bad, loaded, elf_of, elf_size, load_file, is_short}

-- `last`: what is behind the path's last slash.
unfoldable pub last_from : List ℕ → List ℕ → List ℕ
last_from [] last = last
last_from (c ∷ s) last = last_from s (if c == slash then s else last)

-- The reply: the result, the process, its entry and stack pointer if they are new, and the memory.
pub record Reply : Type 0 where
  pub result : ℤ
  pub proc : Proc
  pub regs : Option (ℕ × ℕ)
  pub kmem : Kmem

abbrev pub failure : Proc → Kmem → Reply
failure proc k = record { result = negsuc 0; proc = proc; regs = none; kmem = k }

-- At `bad`, the page table is freed if there is one.
unfoldable pub free_new : ℕ → ℕ → Kmem → M Kmem
free_new kend pgdir k = if pgdir == 0 then pure k else lift (freevm kend k pgdir)

-- The new image becomes the process's, and the old one is freed. name has 16 bytes with its 0.
unfoldable pub commit : ℕ → Proc → List ℕ → ℕ → ℕ → ℕ × ℕ → Kmem → M Reply
commit kend proc path entry pgdir (sz, sp) k = do
  k' ← lift (freevm kend k proc.pgdir)
  pure (record {
    result = pos 0;
    proc = record proc { name = take 15 (last_from path path); pgdir = pgdir; sz = sz };
    regs = some (entry, sp);
    kmem = k';
  })

-- exec behind the file's transaction.
unfoldable pub finish : ℕ → Proc → List ℕ → List (List ℕ) → ℕ → ℕ → ℕ → Kmem → M Reply
finish kend proc path argv entry pgdir sz k = do
  (built, k') ← lift (build_stack kend pgdir sz argv k)
  elim built [
    | none ↦ free_new kend pgdir k' >>= λ k''. pure (failure proc k'')
    | some image ↦ commit kend proc path entry pgdir image k'
  ]

-- exec once the file is read.
unfoldable pub unlocked : ℕ → Proc → ℕ → List ℕ → List (List ℕ) → ℕ → Load → M Reply
unlocked kend proc ip path argv entry (bad pgdir k) = do
  k' ← free_new kend pgdir k
  iunlockput ip
  end_op
  pure (failure proc k')
unlocked kend proc ip path argv entry (loaded pgdir sz k) = do
  iunlockput ip
  end_op
  finish kend proc path argv entry pgdir sz k

-- exec with its file. `stale` is what the stack has where the header goes: a file without a readi,
-- such as a device without one, leaves it there.
unfoldable pub exec_file :
    ℕ → ℕ → Devsw → List ℕ → Proc → ℕ → List ℕ → List (List ℕ) → Kmem → M Reply
exec_file kend data_start devsw stale proc ip path argv k = do
  ilock ip
  r ← readi devsw ip 0 elf_size
  let elf = elf_of (r.1 ++ drop (length r.1) stale)
  load ← (if is_short r.0 then pure (bad 0 k) else load_file kend data_start devsw ip elf k)
  unlocked kend proc ip path argv elf.entry load

unfoldable pub exec : ℕ → ℕ → Devsw → List ℕ → ℕ → Proc → List ℕ → List (List ℕ) → Kmem → M Reply
exec kend data_start devsw stale cwd proc path argv k = do
  begin_op
  found ← namei devsw cwd path
  elim found [
    | none ↦ end_op >> pure (failure proc k)
    | some ip ↦ exec_file kend data_start devsw stale proc ip path argv k
  ]
