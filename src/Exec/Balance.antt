-- ===== src/Exec/Balance.antt =====
-- exec: its transaction, and what becomes of the process on each way through it.
use operating_systems_projec.Base.{
  [], if◌then◌else◌, ℕ, zero, suc, ◌+◌, ◌-◌, ◌/◌, ◌%◌, min, ◌≡◌, refl, subst, false, not, Option,
  none, some, List, ◌++◌, arith, ltb, leb, ◌==◌, length, take, drop, Result, ok, panic, pos,
}
use operating_systems_projec.Fs.{Fs, Run, done, panics, waits, M, ◌>>=◌, ◌>>◌, pure}
use operating_systems_projec.Fs.Content.{Devsw}
use operating_systems_projec.Fs.Open.{Leaves, Keeps, Keeps->>=, Keeps-if}
use operating_systems_projec.Fs.Open.Inodes.{Keeps-ilock, Keeps-iunlockput}
use operating_systems_projec.Fs.Open.Content.{DevswKeeps, Keeps-readi}
use operating_systems_projec.Fs.Open.Dirs.{Keeps-namei}
use operating_systems_projec.Kalloc.{Kmem, pgsize, word}
use operating_systems_projec.Vm.{walkpgdir, allocuvm, freevm, setupkvm}
use operating_systems_projec.Proc.{Proc}
use operating_systems_projec.Sysfile.{begin_op, end_op, lift}
use operating_systems_projec.Exec.{
  Load, bad, loaded, Elf, ProgHdr, elf_of, elf_size, elf_magic, elf_prog_load, ph_of, ph_size,
  is_short, is_count, load_from, loaduvm, load_section, load_sections, load_file,
}
use operating_systems_projec.Exec.Stack.{build_stack}
use operating_systems_projec.Exec.Call.{
  Reply, last_from, free_new, failure, commit, finish, unlocked, exec_file, exec,
}

Keeps-lift : {A : Type 0} → (r : Result A) → Keeps (lift r)
Keeps-lift (ok a) = λ s. refl
Keeps-lift panic = λ s. tt

module _ (devsw : Devsw) (d : DevswKeeps devsw) where
  Keeps-load_from :
      (f pgdir addr ip offset sz i : ℕ) (k : Kmem)
      → Keeps (load_from f devsw pgdir addr ip offset sz i k)
  unfolding load_from
  Keeps-load_from zero pgdir addr ip offset sz i k = λ s. tt
  Keeps-load_from (suc f) pgdir addr ip offset sz i k =
      Keeps-if (leb sz i) _ _ (λ s. refl)
        (Keeps-if ((walkpgdir k pgdir ((addr + i) % word) false).0 == 0) _ _ (λ s. tt)
          (Keeps->>= _ _ (Keeps-readi devsw d ip ((offset + i) % word) (min (sz - i) pgsize)) (λ r.
            Keeps-if (not (is_count (min (sz - i) pgsize) r.0)) _ _ (λ s. refl)
              (Keeps-load_from f pgdir addr ip offset sz (i + pgsize) _))))

  Keeps-loaduvm :
      (k : Kmem) (pgdir addr ip offset sz : ℕ) → Keeps (loaduvm devsw k pgdir addr ip offset sz)
  unfolding loaduvm
  Keeps-loaduvm k pgdir addr ip offset sz =
      Keeps-if (not (addr % pgsize == 0)) _ _ (λ s. tt)
        (Keeps-load_from (sz / pgsize + 2) pgdir addr ip offset sz 0 k)

  Keeps-load_section :
      (kend ip pgdir : ℕ) (ph : ProgHdr) (sz : ℕ) (k : Kmem) (next : ℕ → Kmem → M Load)
      → ((sz' : ℕ) (k' : Kmem) → Keeps (next sz' k'))
      → Keeps (load_section kend devsw ip pgdir ph sz k next)
  unfolding load_section
  Keeps-load_section kend ip pgdir ph sz k next h =
      Keeps-if (not (ph.type == elf_prog_load)) _ _ (h sz k) (
        Keeps-if (ltb ph.memsz ph.filesz) _ _ (λ s. refl)
          (Keeps->>= _ _ (Keeps-lift (allocuvm kend k pgdir sz ((ph.vaddr + ph.memsz) % word)))
            (λ r.
              Keeps-if (r.0 == 0) _ _ (λ s. refl)
                (Keeps->>= _ _ (Keeps-loaduvm r.1 pgdir ph.vaddr ip ph.off ph.filesz)
                  (λ t. Keeps-if t.0 _ _ (h r.0 t.1) (λ s. refl))))))

  Keeps-load_sections :
      (n kend ip pgdir off sz : ℕ) (k : Kmem) → Keeps (load_sections n kend devsw ip pgdir off sz k)
  unfolding load_sections
  Keeps-load_sections zero kend ip pgdir off sz k = λ s. refl
  Keeps-load_sections (suc n) kend ip pgdir off sz k =
      Keeps->>= _ _ (Keeps-readi devsw d ip off ph_size) (λ r.
        Keeps-if (not (is_count ph_size r.0)) _ _ (λ s. refl)
          (Keeps-load_section kend ip pgdir (ph_of r.1) sz k _
            (λ sz' k'. Keeps-load_sections n kend ip pgdir ((off + ph_size) % word) sz' k')))

  Keeps-load_file :
      (kend data_start ip : ℕ) (elf : Elf) (k : Kmem)
      → Keeps (load_file kend data_start devsw ip elf k)
  unfolding load_file
  Keeps-load_file kend data_start ip elf k =
      Keeps-if (not (elf.magic == elf_magic)) _ _ (λ s. refl)
        (Keeps->>= _ _ (Keeps-lift (setupkvm data_start k)) (λ r.
          Keeps-if (r.0 == 0) _ _ (λ s. refl)
            (Keeps-load_sections elf.phnum kend ip r.0 elf.phoff 0 r.1)))

-- How exec ends: it fails and the process is as it was, or it succeeds and the process has another
-- name, page table and size, and new registers.
pub data Outcome (proc : Proc) (path : List ℕ) : Reply → Type 0 where
  kept : (k : Kmem) → Outcome proc path (failure proc k)
  replaced :
      (pgdir sz entry sp : ℕ) (k : Kmem)
      → Outcome proc path (record {
        result = pos 0;
        proc = record proc { name = take 15 (last_from path path); pgdir = pgdir; sz = sz };
        regs = some (entry, sp);
        kmem = k;
      })

-- If the run is done, `n` calls are in a transaction, and exec ends in one of its ways.
abbrev pub Ends : Proc → List ℕ → ℕ → Run Reply → Type 0
Ends proc path n (done r s) = (s.outstanding ≡ n) × Outcome proc path r
Ends proc path n panics = Unit
Ends proc path n (waits i) = Unit

module _ (proc : Proc) (path : List ℕ) where
  -- The calls in a transaction become those that `g` gives.
  abbrev EndsBy : (ℕ → ℕ) → M Reply → Type 0
  EndsBy g m = (s : Fs) → Ends proc path (g s.outstanding) (m s)

  Ends->>= :
      {A : Type 0}
      → (n m : ℕ) (r : Run A) (f : A → M Reply) → Leaves n r
      → ((a : A) (s : Fs) → s.outstanding ≡ n → Ends proc path m (f a s))
      → Ends proc path m (elim r [ done a s ↦ f a s | panics ↦ panics | waits i ↦ waits i ])
  Ends->>= n m (done a s) f h g = g a s h
  Ends->>= n m panics f h g = tt
  Ends->>= n m (waits i) f h g = tt

  EndsBy->>= :
      {A : Type 0}
      → (g : ℕ → ℕ) (m : M A) (f : A → M Reply) → Keeps m
      → ((a : A) → EndsBy g (f a))
      → EndsBy g (m >>= f)
  EndsBy->>= g m f h e s =
      Ends->>= s.outstanding (g s.outstanding) (m s) f (h s)
        (λ a t q. subst (λ n. Ends proc path (g n) (f a t)) q (e a t))

  EndsBy-end_op : (m : M Reply) → EndsBy (λ n. n) m → EndsBy (λ n. n - 1) (end_op >> m)
  unfolding end_op
  EndsBy-end_op m h s = h (record s {
    outstanding = s.outstanding - 1;
    logged = if s.outstanding - 1 == 0 then [] else s.logged;
  })

  Keeps-free_new : (kend pgdir : ℕ) (k : Kmem) → Keeps (free_new kend pgdir k)
  unfolding free_new
  Keeps-free_new kend pgdir k =
      Keeps-if (pgdir == 0) (pure k) (lift (freevm kend k pgdir)) (λ s. refl)
        (Keeps-lift (freevm kend k pgdir))

  EndsBy-commit :
      (kend entry pgdir sz sp : ℕ) (k : Kmem)
      → EndsBy (λ n. n) (commit kend proc path entry pgdir (sz, sp) k)
  unfolding commit
  EndsBy-commit kend entry pgdir sz sp k =
      EndsBy->>= (λ n. n) _ _ (Keeps-lift (freevm kend k proc.pgdir))
        (λ k' s. (refl, replaced pgdir sz entry sp k'))

  EndsBy-finish :
      (kend : ℕ) (argv : List (List ℕ)) (entry pgdir sz : ℕ) (k : Kmem)
      → EndsBy (λ n. n) (finish kend proc path argv entry pgdir sz k)
  unfolding finish
  EndsBy-finish kend argv entry pgdir sz k =
      EndsBy->>= (λ n. n) _ _ (Keeps-lift (build_stack kend pgdir sz argv k))
        (λ r. by_stack r.0 r.1)
    where
      by_stack :
          (built : Option (ℕ × ℕ)) (k' : Kmem)
          → EndsBy
              (λ n. n)
              (elim built [
                | none ↦ free_new kend pgdir k' >>= λ k''. pure (failure proc k'')
                | some image ↦ commit kend proc path entry pgdir image k'
              ])
      by_stack none k' =
          EndsBy->>= (λ n. n) _ _ (Keeps-free_new kend pgdir k') (λ k'' s. (refl, kept k''))
      by_stack (some (size, sp)) k' = EndsBy-commit kend entry pgdir size sp k'

  EndsBy-unlocked :
      (kend ip : ℕ) (argv : List (List ℕ)) (entry : ℕ) (load : Load)
      → EndsBy (λ n. n - 1) (unlocked kend proc ip path argv entry load)
  unfolding unlocked
  EndsBy-unlocked kend ip argv entry (bad pgdir k) =
      EndsBy->>= (λ n. n - 1) _ _ (Keeps-free_new kend pgdir k)
        (λ k'.
          EndsBy->>= (λ n. n - 1) _ _ (Keeps-iunlockput ip)
            (λ u. EndsBy-end_op _ (λ s. (refl, kept k'))))
  EndsBy-unlocked kend ip argv entry (loaded pgdir sz k) =
      EndsBy->>= (λ n. n - 1) _ _ (Keeps-iunlockput ip)
        (λ u. EndsBy-end_op _ (EndsBy-finish kend argv entry pgdir sz k))

  EndsBy-exec_file :
      (kend data_start : ℕ) (devsw : Devsw) (stale : List ℕ) (ip : ℕ) (argv : List (List ℕ))
      (k : Kmem)
      → DevswKeeps devsw
      → EndsBy (λ n. n - 1) (exec_file kend data_start devsw stale proc ip path argv k)
  unfolding exec_file
  EndsBy-exec_file kend data_start devsw stale ip argv k d =
      EndsBy->>= (λ n. n - 1) _ _ (Keeps-ilock ip)
        (λ u.
          EndsBy->>= (λ n. n - 1) _ _ (Keeps-readi devsw d ip 0 elf_size)
            (λ r.
              EndsBy->>= (λ n. n - 1) _ _
                (Keeps-if (is_short r.0) (pure (bad 0 k)) _ (λ s. refl)
                  (Keeps-load_file devsw d kend data_start ip
                    (elf_of (r.1 ++ drop (length r.1) stale)) k))
                (EndsBy-unlocked kend ip argv (elf_of (r.1 ++ drop (length r.1) stale)).entry)))

  EndsBy-found :
      (kend data_start : ℕ) (devsw : Devsw) (stale : List ℕ) (argv : List (List ℕ)) (k : Kmem)
      → DevswKeeps devsw
      → (found : Option ℕ)
      → EndsBy
          (λ n. n - 1)
          (elim found [
            | none ↦ end_op >> pure (failure proc k)
            | some ip ↦ exec_file kend data_start devsw stale proc ip path argv k
          ])
  EndsBy-found kend data_start devsw stale argv k d none = EndsBy-end_op _ (λ s. (refl, kept k))
  EndsBy-found kend data_start devsw stale argv k d (some ip) =
      EndsBy-exec_file kend data_start devsw stale ip argv k d

-- If the devices leave the transactions alone, then whichever way exec takes, if it is done, it has
-- ended the transaction that it began, and either it gives -1 and the process is as it was, or it
-- gives 0 and the process differs in its page table and size, its name, which is what follows the
-- last slash of the path, cut to 15 bytes, and its entry and stack pointer.
pub exec-Ends :
    (proc : Proc) (path : List ℕ) (kend data_start : ℕ) (devsw : Devsw) (stale : List ℕ) (cwd : ℕ)
    (argv : List (List ℕ)) (k : Kmem)
    → DevswKeeps devsw
    → (s : Fs)
    → Ends proc path s.outstanding (exec kend data_start devsw stale cwd proc path argv k s)
unfolding exec begin_op
exec-Ends proc path kend data_start devsw stale cwd argv k d s =
    subst (λ n. Ends proc path n (exec kend data_start devsw stale cwd proc path argv k s))
      (omega arith)
      (EndsBy->>= proc path (λ n. n - 1) _ _ (Keeps-namei devsw d cwd path)
        (EndsBy-found proc path kend data_start devsw stale argv k d)
        (record s { outstanding = s.outstanding + 1 }))
